-- ===== src/Base/Strip.antt =====
-- `strip`, `split(None, 1)` and `lower` on texts, for the white space and the letters of ASCII.
use Prim.Native.Nat.{◌+◌}
use Prim.Native.Char.{Char, code}
use Prim.Native.String.{String, [], ◌∷◌}
use mathlib.Core.Path.{◌≡◌, refl}
use mathlib.Core.Bool.{Bool, true, false, not, ◌&&◌, ◌||◌}
use native.Mathlib.Omega.{arith}
use text.Mathlib.TextLemmas.{nil-append, cons-append, cons≢nil}
use wso2_teamspace_demo.Base.Text.{if◌then◌else◌, leb, nat_eq, is_space, nonempty, ◌<>◌}

unfoldable pub lstrip : String → String
lstrip [] = ""
lstrip (c ∷ s) = let rest = lstrip s in if is_space c then rest else c ∷ s

unfoldable pub rstrip : String → String
rstrip [] = ""
rstrip (c ∷ s) = let rest = rstrip s in if is_space c && not (nonempty rest) then "" else c ∷ rest

abbrev pub strip : String → String
strip s = rstrip (lstrip s)

-- The text up to the first white space, and what starts there.
unfoldable pub break_space : String → String × String
break_space [] = ("", "")
break_space (c ∷ s) =
    let (head, rest) = break_space s in if is_space c then ("", c ∷ s) else (c ∷ head, rest)

-- Whether the letters differ at most by being upper case in the first one.
abbrev pub same_letter : Char → Char → Bool
same_letter c d =
    nat_eq (code c) (code d) || leb 65 (code c) && leb (code c) 90 && nat_eq (code c + 32) (code d)

-- `s.lower() == t`, for a `t` in lower case
unfoldable pub lower_is : String → String → Bool
lower_is [] [] = true
lower_is [] (d ∷ t) = false
lower_is (c ∷ s) [] = false
lower_is (c ∷ s) (d ∷ t) = let rest = lower_is s t in same_letter c d && rest

-- Whether no white space occurs.
unfoldable pub no_space : String → Bool
no_space [] = true
no_space (c ∷ s) = let rest = no_space s in not (is_space c) && rest

pub lstrip-no_space : (s : String) → no_space s ≡ true → lstrip s ≡ s
unfolding lstrip no_space
lstrip-no_space [] h = refl
lstrip-no_space (c ∷ s) h = ground arith

pub rstrip-no_space : (s : String) → no_space s ≡ true → rstrip s ≡ s
unfolding rstrip no_space
rstrip-no_space [] h = refl
rstrip-no_space (c ∷ s) h = ground (arith, rstrip-no_space s)

pub break_space-no_space : (s : String) → no_space s ≡ true → break_space s ≡ (s, "")
unfolding break_space no_space
break_space-no_space [] h = refl
break_space-no_space (c ∷ s) h = ground (arith, break_space-no_space s)

pub nonempty-cons : (c : Char) (s : String) → nonempty (c ∷ s) ≡ true
nonempty-cons c s = ground (arith, cons≢nil {x = c} {xs = s})

pub lstrip-append :
    (s t : String) → no_space s ≡ true → nonempty s ≡ true → lstrip (s <> t) ≡ s <> t
unfolding lstrip no_space
lstrip-append [] t plain full = absurd (ground arith)
lstrip-append (c ∷ s) t plain full = simp cons-append (ground arith)

nonempty-append : (s t : String) → nonempty t ≡ true → nonempty (s <> t) ≡ true
nonempty-append [] t full = simp nil-append full
nonempty-append (c ∷ s) t full = simp cons-append (nonempty-cons c (s <> t))

pub rstrip-append : (s t : String) → nonempty (rstrip t) ≡ true → rstrip (s <> t) ≡ s <> rstrip t
unfolding rstrip
rstrip-append [] t full = simp nil-append
rstrip-append (c ∷ s) t full =
    simp (cons-append, rstrip-append s t full, nonempty-append s (rstrip t) full) (ground arith)

pub break_space-append :
    (s : String) (c : Char) (t : String)
    → no_space s ≡ true
    → is_space c ≡ true
    → break_space (s <> (c ∷ t)) ≡ (s, c ∷ t)
unfolding break_space no_space
break_space-append [] c t plain space = simp nil-append (ground arith)
break_space-append (d ∷ s) c t plain space =
    simp cons-append (ground (arith, break_space-append s c t))
