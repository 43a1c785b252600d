-- ===== src/Agent/Llm/Messages/Inert.antt =====
-- What a message that agent/gemini_agent.py fills in can carry: no markup but its template's.
use Prim.Native.Char.{Char}
use Prim.Native.String.{[], ◌∷◌}
use text.Mathlib.TextLemmas.{nil-append, cons-append}
use wso2_teamspace_demo.Base.{
  ℕ, suc, ◌+◌, ◌≤◌, String, ◌<>◌, ◌≡◌, Bool, ◌||◌, Option, none, some, List, refl, Bool-cases,
  Option-cases, inl, inr, Dict, lookup, arith, if◌then◌else◌,
}
use wso2_teamspace_demo.Base.Run.{ok}
use wso2_teamspace_demo.Base.Values.{chain_returned}
use wso2_teamspace_demo.Base.Slices.{same_char}
use wso2_teamspace_demo.Agent.Llm.Messages.{msg, template_of}
use wso2_teamspace_demo.Agent.Llm.Html.{html_escape, escape_char, escaped, format_in}

-- The letters that open or close a tag or the value of an attribute.
abbrev is_markup : Char → Bool
is_markup c = same_char c "<" || same_char c ">" || same_char c "\"" || same_char c "'"

-- How many of them a text has.
unfoldable pub markup : String → ℕ
markup [] = 0
markup (c ∷ s) = let rest = markup s in if is_markup c then suc rest else rest

markup-append : (s t : String) → markup (s <> t) ≡ markup s + markup t
unfolding markup
markup-append [] t = simp nil-append (omega arith)
markup-append (c ∷ s) t = simp cons-append (ground (arith, markup-append s t))

markup-escape_char : (c : Char) → markup (escape_char c) ≡ 0
unfolding markup
markup-escape_char c = elim (Bool-cases (same_char c "&")) [
  | inl e ↦ rw e refl
  | inr amp ↦ elim (Bool-cases (same_char c "<")) [
    | inl e ↦ rw (amp, e) refl
    | inr lt ↦ elim (Bool-cases (same_char c ">")) [
      | inl e ↦ rw (amp, lt, e) refl
      | inr gt ↦ elim (Bool-cases (same_char c "\"")) [
        | inl e ↦ rw (amp, lt, gt, e) refl
        | inr quot ↦ elim (Bool-cases (same_char c "'")) [
          | inl e ↦ rw (amp, lt, gt, quot, e) refl
          | inr apos ↦ rw (amp, lt, gt, quot, apos) (ground arith)
        ]
      ]
    ]
  ]
]

pub markup-html_escape : (s : String) → markup (html_escape s) ≡ 0
unfolding html_escape markup
markup-html_escape [] = refl
markup-html_escape (c ∷ s) = ground (
  arith,
  markup-append (escape_char c) (html_escape s),
  markup-escape_char c,
  markup-html_escape s,
)

-- A value that stands in the escaped fields has no markup.
pub markup-lookup-escaped :
    (kwargs : Dict String) (name v : String) → lookup name (escaped kwargs) ≡ some v → markup v ≡ 0
unfolding escaped lookup
markup-lookup-escaped List.[] name v h = cc
markup-lookup-escaped (List.◌∷◌ (k, u) kwargs) name v h =
    ground (arith, markup-html_escape u, markup-lookup-escaped kwargs name v)

ok_inj : {A : Type 0} (a b : A) → ok a ≡ ok b → a ≡ b
ok_inj a b h = cc

-- One letter more in front of both.
markup-cons_le : (c : Char) (s t : String) → markup s ≤ markup t → markup (c ∷ s) ≤ markup (c ∷ t)
unfolding markup
markup-cons_le c s t h = ground arith

markup-tail : (c : Char) (s : String) → markup s ≤ markup (c ∷ s)
unfolding markup
markup-tail c s = ground arith

markup-format_in :
    (kwargs : Dict String) (name : Option String) (template text : String)
    → format_in (escaped kwargs) name template ≡ ok text
    → markup text ≤ markup template
unfolding format_in
markup-format_in kwargs none [] text h = rw (← ok_inj "" text h) (omega arith)
markup-format_in kwargs none (c ∷ s) text h = elim (Bool-cases (same_char c "{")) [
  | inl e ↦
      let rest = markup-format_in kwargs (some "") s text (rw e at h) in
      omega (arith, rest, markup-tail c s)
  | inr e ↦
      let (a, got, made) =
        chain_returned (format_in (escaped kwargs) none s) (λ t. ok (c ∷ t)) text (rw e at h) in
      rw (← ok_inj (c ∷ a) text made) (markup-cons_le c a s (markup-format_in kwargs none s a got))
]
markup-format_in kwargs (some name) [] text h = cc
markup-format_in kwargs (some name) (c ∷ s) text h = elim (Bool-cases (same_char c "}")) [
  | inl e ↦ elim (Option-cases (lookup name (escaped kwargs))) [
    | inl missing ↦ cc (rw (e, missing) at h)
    | inr (v, found) ↦
        let (a, got, made) =
          chain_returned (format_in (escaped kwargs) none s) (λ t. ok (v <> t)) text
            (rw (e, found) at h) in
        let inert = markup-lookup-escaped kwargs name v found in
        let rest = markup-format_in kwargs none s a got in
        rw (← ok_inj (v <> a) text made)
          (omega (arith, markup-append v a, inert, rest, markup-tail c s))
  ]
  | inr e ↦
      let rest = markup-format_in kwargs (some (name <> (c ∷ ""))) s text (rw e at h) in
      omega (arith, rest, markup-tail c s)
]

-- A message that is filled in has at most as many angle brackets and quotes as its template,
-- whatever the values are.
pub msg-markup :
    (language key : String) (kwargs : Dict String) (text : String)
    → msg language key kwargs ≡ ok text
    → markup text ≤ markup (template_of language key)
unfolding msg
msg-markup language key kwargs text h =
    markup-format_in kwargs none (template_of language key) text h
