-- ===== src/Common/Text.antt =====
-- `===` on texts and numbers as Boolean tests, and the conditional.
use Prim.Native.Nat.{ℕ, zero, suc, ◌≤◌, compare, Ordering}
use Prim.Native.String.{String}
use mathlib.Core.Path.{◌≡◌, refl}
use mathlib.Core.Logic.{◌⊎◌, inl, inr, ite, dite, ◌≢◌}
use mathlib.Core.Bool.{Bool, true, false, Bool-discrete}
use mathlib.Core.Option.{Option, none, some}
use native.Mathlib.Omega.{arith}
use text.Mathlib.Text
use text.Mathlib.TextEquality.{eq_iff}

infix 1 if◌then◌else◌
abbrev pub if◌then◌else◌ {ℓ} : {A : Type ℓ} → Bool → A → A → A
if true then x else y = x
if false then x else y = y

-- Equality of texts is decided by the text library's test. It stays shut in proofs, where a split
-- on `s == t` gives the equation or its negation; a test unfolds it.
unfoldable pub string_dec : Discrete String
string_dec s t =
    dite (Bool-discrete (Text.◌==◌ s t) true) (λ same. yes ((eq_iff s t).0 same))
      (λ differ. no (λ p. differ ((eq_iff s t).1 p)))

infix 50 ◌==◌
abbrev pub ◌==◌ : String → String → Bool
a == b = ite (string_dec a b) true false

abbrev pub ltb : ℕ → ℕ → Bool
ltb a b = elim (compare a b) [ Ordering.lt ↦ true | _ ↦ false ]

abbrev pub leb : ℕ → ℕ → Bool
leb a b = elim (compare a b) [ Ordering.gt ↦ false | _ ↦ true ]

abbrev pub nat_eq : ℕ → ℕ → Bool
nat_eq a b = elim (compare a b) [ Ordering.eq ↦ true | _ ↦ false ]

-- How often b stands in the one place a.
abbrev pub hits : String → String → ℕ
hits a b = if a == b then 1 else 0

-- `id === null || id === undefined ? false : id === s`, which `o === s` is for an optional text.
abbrev pub is_some_of : Option String → String → Bool
is_some_of none s = false
is_some_of (some t) s = t == s

-- A text is falsy exactly when it is empty.
abbrev pub truthy : String → Bool
truthy s = if s == "" then false else true

pub ==-refl : (a : String) → (a == a) ≡ true
==-refl a = ground arith

pub ==-eq : (a b : String) → (a == b) ≡ true → a ≡ b
==-eq a b h = ground arith

pub ==-ne : (a b : String) → (a == b) ≡ false → a ≢ b
==-ne a b h = ground arith

pub ==-false : (a b : String) → a ≢ b → (a == b) ≡ false
==-false a b h = ground arith

-- `a ?? b`, or `a || b` where `a` holds an object or is null
abbrev pub or_else {ℓ} : {A : Type ℓ} → Option A → Option A → Option A
or_else none o = o
or_else (some a) o = some a

pub or_else-none {ℓ} : {A : Type ℓ} (o : Option A) → or_else o none ≡ o
or_else-none none = refl
or_else-none (some a) = refl

-- A field of `{ ...old, ...patch }`.
abbrev pub given {ℓ} : {A : Type ℓ} → Option A → A → A
given none old = old
given (some new) old = new

-- To split on a computed value and keep the equation.
pub Bool-cases : (b : Bool) → (b ≡ true) ⊎ (b ≡ false)
Bool-cases true = inl refl
Bool-cases false = inr refl

pub Option-cases {ℓ} : {A : Type ℓ} (o : Option A) → (o ≡ none) ⊎ ((a : A) × (o ≡ some a))
Option-cases none = inl refl
Option-cases (some a) = inr (a, refl)

pub ℕ-cases : (n : ℕ) → (n ≡ 0) ⊎ (1 ≤ n)
ℕ-cases zero = inl refl
ℕ-cases (suc n) = inr (omega arith)
