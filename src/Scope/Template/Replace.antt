-- ===== src/Scope/Template/Replace.antt =====
-- What a replacement and the tokens of an input show.
use reqlet.Common.{
  All, ◌≢◌, ℕ, zero, suc, ◌+◌, ◌≡◌, refl, ap, sym, ◌∙◌, String, ◌<>◌, false, Option, none, some,
  List, arith,
}
use reqlet.Scope.Template.Laws.{braces-append, expand-pieces-none}
use Prim.Native.Char.{Char}
use Prim.Native.String.{[], ◌∷◌}
use package.text.Mathlib.TextLemmas.{nil-append, cons-append, append_assoc}
use reqlet.Common.Dict.{Dict, lookup, has}
use reqlet.Scope.Template.{
  is_open, is_close, Piece, plain, variable, read_key, match_at, chars, scan, pieces, token, expand,
  apply_variables, Token, text, var, push_text, tokenize_from, tokenize_variables,
}

-- The keys that pieces refer to have the property.
abbrev pub Refs {ℓ} : (String → Type ℓ) → List Piece → Type ℓ
Refs P List.[] = Unit
Refs P (List.◌∷◌ (plain c) ps) = Refs P ps
Refs P (List.◌∷◌ (variable key) ps) = P key × Refs P ps

pub Refs-mono {ℓ κ} :
    (P : String → Type ℓ) (Q : String → Type κ)
    → ((key : String) → P key → Q key)
    → (ps : List Piece) → Refs P ps
    → Refs Q ps
Refs-mono P Q f List.[] h = tt
Refs-mono P Q f (List.◌∷◌ (plain c) ps) h = Refs-mono P Q f ps h
Refs-mono P Q f (List.◌∷◌ (variable key) ps) (p, h) = (f key p, Refs-mono P Q f ps h)

pub expand_congr :
    (f g : String → Option String) (ps : List Piece)
    → Refs (λ key. f key ≡ g key) ps
    → expand f ps ≡ expand g ps
unfolding expand
expand_congr f g List.[] h = refl
expand_congr f g (List.◌∷◌ (plain c) ps) h = ap (λ r. c ∷ r) (expand_congr f g ps h)
expand_congr f g (List.◌∷◌ (variable key) ps) (e, h) = rw (e, expand_congr f g ps h)

-- A text in which no key has a value is left as it is.
pub apply_variables_undefined :
    (s : String) (m : Dict String)
    → Refs (λ key. lookup key m ≡ none) (pieces s)
    → apply_variables s m ≡ s
unfolding apply_variables
apply_variables_undefined s m h =
    expand_congr (λ key. lookup key m) (λ key. none) (pieces s) h ∙ expand-pieces-none s

-- No brace of either kind stands in the text.
abbrev pub NoBraces : String → Type 0
NoBraces [] = Unit
NoBraces (c ∷ s) = (is_open c ≡ false) × (is_close c ≡ false) × NoBraces s

read_key-append : (key rest : String) → NoBraces key → read_key (key <> ("}}" <> rest)) ≡ some key
unfolding read_key
read_key-append [] rest h = rw (nil-append, (braces-append rest).1, read_key) refl
read_key-append (c ∷ key) rest (p, q, h) =
    rw cons-append (rw (q, p, read_key-append key rest h, read_key) refl)

match_at-plain : (c : Char) (s : String) → is_open c ≡ false → match_at (c ∷ s) ≡ none
unfolding match_at
match_at-plain c s h = rw h refl

expand-plain :
    (a rest : String) (f : String → Option String)
    → NoBraces a
    → expand f (scan 0 (a <> rest)) ≡ a <> expand f (scan 0 rest)
unfolding scan expand
expand-plain [] rest f h = rw (nil-append, nil-append) refl
expand-plain (c ∷ a) rest f (p, q, h) =
    rw (cons-append, cons-append)
      (rw (match_at-plain c (a <> rest) p, scan) (ap (λ r. c ∷ r) (expand-plain a rest f h)))

match_at-token :
    (key rest : String) → NoBraces key → match_at ("{" ∷ ("{" ∷ (key <> ("}}" <> rest)))) ≡ some key
unfolding match_at
match_at-token key rest h = read_key-append key rest h

token-append : (key rest : String) → token key <> rest ≡ "{" ∷ ("{" ∷ (key <> ("}}" <> rest)))
token-append key rest =
    append_assoc "{{" (key <> "}}") rest
    ∙ (braces-append ((key <> "}}") <> rest)).0
    ∙ ap (λ r. "{" ∷ ("{" ∷ r)) (append_assoc key "}}" rest)

scan-skip : (u rest : String) (m n : ℕ) → m ≡ chars u + n → scan m (u <> rest) ≡ scan n rest
unfolding scan chars
scan-skip [] rest m n e = rw nil-append (let same : m ≡ n = omega arith in rw same refl)
scan-skip (c ∷ u) rest zero n e = ground arith
scan-skip (c ∷ u) rest (suc m) n e = rw cons-append (scan-skip u rest m n (omega arith))

scan-token_end :
    (key rest : String) → scan (chars key + 3) ("{" ∷ (key <> ("}}" <> rest))) ≡ scan 0 rest
unfolding scan
scan-token_end key rest =
    let first : chars key + 3 ≡ suc (chars key + 2) = omega arith in
    let closed : scan 2 ("}}" <> rest) ≡ scan 0 rest = rw (braces-append rest).1 refl in
    rw first (scan-skip key ("}}" <> rest) (chars key + 2) 2 refl ∙ closed)

scan-token :
    (key rest : String)
    → NoBraces key
    → scan 0 (token key <> rest) ≡ List.◌∷◌ (variable key) (scan 0 rest)
unfolding scan
scan-token key rest h = rw (token-append key rest) (
    rw (match_at-token key rest h, scan)
      (ap (λ r. List.◌∷◌ (variable key) r) (scan-token_end key rest)))

-- Of a text that begins with no brace, the first reference is replaced by the value of its key,
-- and what follows is read in the same way.
pub apply_variables-token :
    (a key rest value : String) (m : Dict String)
    → NoBraces a
    → NoBraces key
    → lookup key m ≡ some value
    → apply_variables (a <> (token key <> rest)) m ≡ a <> (value <> apply_variables rest m)
unfolding apply_variables pieces expand
apply_variables-token a key rest value m h k e =
    expand-plain a (token key <> rest) (λ k. lookup k m) h ∙ rw (scan-token key rest k) (rw e refl)

abbrev pub text_of : Token → String
text_of (text s) = s
text_of (var name resolved s) = s

abbrev pub join : List Token → String
join List.[] = ""
join (List.◌∷◌ t ts) = text_of t <> join ts

-- A token that stands for a reference shows whether its key has a value.
abbrev pub IsTrue : Dict String → Token → Type 0
IsTrue m (text s) = s ≢ ""
IsTrue m (var name resolved s) = (resolved ≡ has name m) × (s ≡ token name)

join-push_text : (s : String) (ts : List Token) → join (push_text s ts) ≡ s <> join ts
join-push_text [] ts = sym (nil-append (join ts))
join-push_text (c ∷ s) ts = refl

join-tokenize_from :
    (m : Dict String) (since : String) (ps : List Piece)
    → join (tokenize_from m since ps) ≡ since <> expand (λ key. none) ps
unfolding tokenize_from expand
join-tokenize_from m since List.[] = join-push_text since List.[]
join-tokenize_from m since (List.◌∷◌ (plain c) ps) =
    join-tokenize_from m (since <> (c ∷ [])) ps ∙ simp (append_assoc, cons-append, nil-append)
join-tokenize_from m since (List.◌∷◌ (variable key) ps) =
    join-push_text since _
    ∙ ap (λ r. since <> (token key <> r)) (join-tokenize_from m "" ps ∙ nil-append _)

cons-ne-empty : (c : Char) (s : String) → c ∷ s ≢ ""
cons-ne-empty c s e = cc

push_text-IsTrue :
    (m : Dict String) (s : String) (ts : List Token)
    → All (IsTrue m) ts
    → All (IsTrue m) (push_text s ts)
push_text-IsTrue m [] ts h = h
push_text-IsTrue m (c ∷ s) ts h = (λ e. cons-ne-empty c s e, h)

tokenize_from-IsTrue :
    (m : Dict String) (since : String) (ps : List Piece) → All (IsTrue m) (tokenize_from m since ps)
unfolding tokenize_from
tokenize_from-IsTrue m since List.[] = push_text-IsTrue m since List.[] tt
tokenize_from-IsTrue m since (List.◌∷◌ (plain c) ps) = tokenize_from-IsTrue m (since <> (c ∷ [])) ps
tokenize_from-IsTrue m since (List.◌∷◌ (variable key) ps) =
    push_text-IsTrue m since _ ((refl, refl), tokenize_from-IsTrue m "" ps)

-- The tokens of an input, put together, are its text.
pub join-tokenize_variables :
    (value : String) (m : Dict String) → join (tokenize_variables value m) ≡ value
unfolding tokenize_variables
join-tokenize_variables value m =
    join-tokenize_from m "" (pieces value) ∙ nil-append _ ∙ expand-pieces-none value

-- Every token of an input is either a text that is not empty or a reference with its own spelling,
-- marked as resolved exactly when its key has a value.
pub tokenize_variables-IsTrue :
    (value : String) (m : Dict String) → All (IsTrue m) (tokenize_variables value m)
unfolding tokenize_variables
tokenize_variables-IsTrue value m = tokenize_from-IsTrue m "" (pieces value)
