-- ===== src/Base/Text.antt =====
-- Python's `==` on texts and numbers, `in` on lists of texts, `if`, and the comparisons.
use Prim.Native.Nat.{ℕ, compare, Ordering}
use Prim.Native.Char.{Char, code}
use Prim.Native.String
use Prim.Native.String.{String}
use mathlib.Core.Path.{◌≡◌, refl}
use mathlib.Core.Logic.{ite, dite, ◌≢◌, ◌⊎◌, inl, inr}
use mathlib.Core.Bool.{Bool, true, false, ◌&&◌, ◌||◌, Bool-discrete}
use mathlib.Core.Option.{Option, none, some}
use mathlib.Core.List.{List, [], ◌∷◌}
use native.Mathlib.Omega.{arith}
use text.Mathlib.Text
use text.Mathlib.TextEquality.{eq_iff}

infix 1 if◌then◌else◌
abbrev pub if◌then◌else◌ {ℓ} : {A : Type ℓ} → Bool → A → A → A
if true then x else y = x
if false then x else y = y

-- `<` and `<=` on numbers.
abbrev pub ltb : ℕ → ℕ → Bool
ltb a b = elim (compare a b) [ Ordering.lt ↦ true | _ ↦ false ]

abbrev pub leb : ℕ → ℕ → Bool
leb a b = elim (compare a b) [ Ordering.gt ↦ false | _ ↦ true ]

-- `==` on numbers.
abbrev pub nat_eq : ℕ → ℕ → Bool
nat_eq a b = elim (compare a b) [ Ordering.eq ↦ true | _ ↦ false ]

-- Whether two texts are equal. Proofs keep it shut and split on it; tests unfold it.
unfoldable pub string_dec : Discrete String
string_dec s t =
    dite (Bool-discrete (Text.◌==◌ s t) true) (λ same. yes ((eq_iff s t).0 same))
      (λ differ. no (λ p. differ ((eq_iff s t).1 p)))

infix 50 ◌==◌
abbrev pub ◌==◌ : String → String → Bool
s == t = ite (string_dec s t) true false

-- Concatenation, as an f-string or `+` writes it.
infixr 65 ◌<>◌
abbrev pub ◌<>◌ : String → String → String
s <> t = String.◌++◌ s t

pub ==-self : (s : String) → (s == s) ≡ true
==-self s = ground arith

-- `s in xs`
abbrev pub member : String → List String → Bool
member s [] = false
member s (x ∷ xs) = x == s || member s xs

-- The truth value of a text.
abbrev pub nonempty : String → Bool
nonempty s = ite (string_dec s "") false true

-- A word, unless it is empty, in front of others.
abbrev pub push_word : String → List String → List String
push_word w ws = if nonempty w then w ∷ ws else ws

-- The white space of ASCII, at which `split()` and `strip()` cut.
abbrev pub is_space : Char → Bool
is_space c = let n = code c in leb n 32 && (nat_eq n 32 || leb 9 n && leb n 13 || leb 28 n)

-- `s.split()`: the first word, which may be empty, and the words behind it.
split_words : String → String × List String
split_words String.[] = ("", [])
split_words (String.◌∷◌ c s) =
    let (head, rest) = split_words s in
    if is_space c then ("", push_word head rest) else (String.◌∷◌ c head, rest)

unfoldable pub words : String → List String
unfolding split_words
words s = let (head, rest) = split_words s in push_word head rest

-- `x or ""` on an optional text.
abbrev pub or_empty : Option String → String
or_empty none = ""
or_empty (some s) = s

-- `x or y` on optional texts: the empty text counts as missing.
abbrev pub or_else : Option String → Option String → Option String
or_else none y = y
or_else (some s) y = if nonempty s then some s else y

-- To split on a computed test and keep the equation.
pub Bool-cases : (b : Bool) → (b ≡ true) ⊎ (b ≡ false)
Bool-cases true = inl refl
Bool-cases false = inr refl

pub Option-cases {ℓ} : {A : Type ℓ} (o : Option A) → (o ≡ none) ⊎ ((a : A) × (o ≡ some a))
Option-cases none = inl refl
Option-cases (some a) = inr (a, refl)

pub nonempty-or_empty :
    (o : Option String) → nonempty (or_empty o) ≡ true → (s : String) × (o ≡ some s) × (s ≢ "")
nonempty-or_empty none h = absurd (ground arith)
nonempty-or_empty (some s) h = (s, refl, ground arith)

pub nonempty-eq-true : (s : String) → s ≢ "" → nonempty s ≡ true
nonempty-eq-true s h = ground arith

pub ≢-of-nonempty : (s : String) → nonempty s ≡ true → s ≢ ""
≢-of-nonempty s h = ground arith

pub ≢-of-== : (s t : String) → (s == t) ≡ false → s ≢ t
≢-of-== s t h = ground arith
