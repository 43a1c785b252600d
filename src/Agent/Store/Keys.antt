-- ===== src/Agent/Store/Keys.antt =====
-- The keys that `_compose` builds (agent/store.py): of namespaces without a colon, no two collide,
-- and the prefix that `clear` looks for picks out one namespace.
use Prim.Native.Char.{Char, code}
use Prim.Native.String.{String, [], ◌∷◌}
use text.Mathlib.Text.{starts_with}
use text.Mathlib.TextEquality.{starts_with_iff}
use text.Mathlib.TextPositions.{starts_with_of_prefix}
use text.Mathlib.TextLemmas.{
  nil-append, cons-append, append_assoc, append_cancel_left, cons-eq-cons,
}
use wso2_teamspace_demo.Base.{◌≡◌, ◌≢◌, ◌↔◌, refl, sym, ap, ap₂, ◌∙◌, ◌<>◌, true}
use wso2_teamspace_demo.Agent.Store.{compose}

-- No character is a colon.
abbrev pub NoColon : String → Type 0
NoColon [] = Unit
NoColon (c ∷ s) = (code c ≢ b':') × NoColon s

first-colon : (x r : String) (d : Char) → ":" <> x ≡ d ∷ r → b':' ≡ code d
first-colon x r d e = ap code (cons-eq-cons.0 (rw cons-append at e)).0

-- A text without a colon, and what follows the first colon, can be read off.
split-colon :
    (m n x y : String)
    → NoColon m
    → NoColon n
    → m <> (":" <> x) ≡ n <> (":" <> y)
    → (m ≡ n) × (x ≡ y)
split-colon [] [] x y hm hn e =
    (refl, append_cancel_left ":" x y (rw (← nil-append (":" <> x), ← nil-append (":" <> y)) e))
split-colon [] (d ∷ n) x y hm hn e =
    absurd (hn.0 (sym (first-colon x (n <> (":" <> y)) d (simp (nil-append, cons-append) at e))))
split-colon (c ∷ m) [] x y hm hn e =
    absurd
      (hm.0 (sym (first-colon y (m <> (":" <> x)) c (sym (simp (nil-append, cons-append) at e)))))
split-colon (c ∷ m) (d ∷ n) x y hm hn e =
    let (same, rest) = cons-eq-cons.0 (simp cons-append at e) in
    let (m_n, x_y) = split-colon m n x y hm.1 hn.1 rest in (ap₂ (λ a b. a ∷ b) same m_n, x_y)

-- Equal composed keys come from the same namespace and the same key, for namespaces without a
-- colon.
pub compose_inj :
    (m n j k : String) → NoColon m → NoColon n → compose m j ≡ compose n k → (m ≡ n) × (j ≡ k)
compose_inj m n j k hm hn e =
    split-colon m n j k hm hn (append_cancel_left "teamspace:agent:" _ _ e)

-- A namespace's prefix starts its own keys, and no key of another namespace.
pub starts_with-compose :
    (m n k : String)
    → NoColon m
    → NoColon n
    → (starts_with (compose m k) (compose n "") ≡ true) ↔ (m ≡ n)
starts_with-compose m n k hm hn = (there, back)
  where
    regroup : (u : String) → compose n "" <> u ≡ compose n u
    regroup u = simp (append_assoc, nil-append)

    there : starts_with (compose m k) (compose n "") ≡ true → m ≡ n
    there h =
        let (u, e) = (starts_with_iff (compose m k) (compose n "")).0 h in
        sym (compose_inj n m u k hn hm (sym (regroup u) ∙ e)).0

    back : m ≡ n → starts_with (compose m k) (compose n "") ≡ true
    back e =
        starts_with_of_prefix (compose n "") (compose m k)
          (k, regroup k ∙ ap (λ a. compose a k) (sym e))
