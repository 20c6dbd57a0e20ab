-- ===== src/Common/Number.antt =====
-- What the page makes of numbers and ids in a text: `${n}` for a natural number,
-- `encodeURIComponent` by its definition in ECMA-262 and the encoding of `URLSearchParams`, on texts
-- of code points.
use Prim.Native.Char.{code}
use Prim.Native.Nat.{ℕ, zero, suc, ◌+◌, ◌/◌, ◌%◌}
use Prim.Native.String.{String, [], ◌∷◌, ◌++◌ as ◌<>◌}
use mathlib.Core.List.{List}
use mathlib.Core.Bool.{Bool, ◌&&◌, ◌||◌}
use reqlet.Common.Text.{if◌then◌else◌, ltb, leb, nat_eq}

abbrev nth_text : ℕ → List String → String
nth_text n List.[] = ""
nth_text zero (List.◌∷◌ s ss) = s
nth_text (suc n) (List.◌∷◌ s ss) = nth_text n ss

abbrev characters : String → List String
characters [] = List.[]
characters (c ∷ s) = List.◌∷◌ (c ∷ []) (characters s)

-- The digit n of a base up to 16.
abbrev pub digit : ℕ → String
digit n = nth_text n (characters "0123456789ABCDEF")

-- The digits of n above 9, before those of the rest. A number has at most as many digits as it is
-- large, plus one, so n is fuel enough.
unfoldable pub digits_before : ℕ → ℕ → String → String
digits_before zero n rest = digit n <> rest
digits_before (suc fuel) n rest =
    let longer = digits_before fuel (n / 10) (digit (n % 10) <> rest) in
    if ltb n 10 then digit n <> rest else longer

unfoldable pub decimal : ℕ → String
unfolding digits_before
decimal n = digits_before n n ""

abbrev is_between : ℕ → ℕ → ℕ → Bool
is_between lo hi n = leb lo n && leb n hi

-- `A-Z a-z 0-9 - _ . ! ~ * ' ( )`
abbrev pub is_unreserved : ℕ → Bool
is_unreserved n =
    is_between b'A' b'Z' n
    || is_between b'a' b'z' n
    || is_between b'0' b'9' n
    || nat_eq n b'-'
    || nat_eq n b'_'
    || nat_eq n b'.'
    || nat_eq n b'!'
    || nat_eq n b'~'
    || is_between b'\'' b'*' n

abbrev percent : ℕ → String
percent byte = "%" <> (digit (byte / 16) <> digit (byte % 16))

abbrev trailing : ℕ → String
trailing n = percent (128 + n % 64)

-- The bytes of a code point in UTF-8.
abbrev escape : ℕ → String
escape n =
    if ltb n 128
    then percent n
    else if ltb n 2048
    then percent (192 + n / 64) <> trailing n
    else if ltb n 65536
    then percent (224 + n / 4096) <> (trailing (n / 64) <> trailing n)
    else percent (240 + n / 262144) <> (trailing (n / 4096) <> (trailing (n / 64) <> trailing n))

unfoldable pub encode_uri_component : String → String
encode_uri_component [] = ""
encode_uri_component (c ∷ s) =
    let rest = encode_uri_component s in
    if is_unreserved (code c) then c ∷ rest else escape (code c) <> rest

-- What `URLSearchParams` writes of a value: `A-Z a-z 0-9 * - . _` stay, a space is a plus.
abbrev is_form_safe : ℕ → Bool
is_form_safe n =
    is_between b'A' b'Z' n
    || is_between b'a' b'z' n
    || is_between b'0' b'9' n
    || nat_eq n b'*'
    || nat_eq n b'-'
    || nat_eq n b'.'
    || nat_eq n b'_'

unfoldable pub encode_form : String → String
encode_form [] = ""
encode_form (c ∷ s) =
    let rest = encode_form s in
    if is_form_safe (code c)
    then c ∷ rest
    else if nat_eq (code c) 32
    then "+" <> rest
    else escape (code c) <> rest
