-- ===== src/Agent/Llm/Stream/Chunks.antt =====
-- The chunks of a streamed text (agent/gemini_agent.py).
use Prim.Native.String.{[], ◌∷◌}
use text.Mathlib.TextLemmas.{nil-append, cons-append}
use wso2_teamspace_demo.Base.{
  ℕ, zero, suc, ◌-◌, ◌≤◌, ◌<◌, String, ◌<>◌, ◌≡◌, refl, ap, ◌∙◌, true, List, all, leb, nonempty,
  arith, inl, inr, Bool-cases,
}
use wso2_teamspace_demo.Base.Slices.{take_chars, drop_chars, char_count}
use wso2_teamspace_demo.Agent.Llm.Stream.{chunks_in, stream_text_in_chunks}

-- The chunks, joined.
unfoldable pub text_of : List String → String
text_of List.[] = ""
text_of (List.◌∷◌ s chunks) = s <> text_of chunks

take-drop : (n : ℕ) (s : String) → (take_chars n s <> drop_chars n s) ≡ s
unfolding take_chars drop_chars
take-drop zero s = nil-append _
take-drop (suc n) [] = nil-append _
take-drop (suc n) (c ∷ s) = simp (cons-append, take-drop n s)

char_count-drop : (n : ℕ) (s : String) → char_count (drop_chars n s) ≡ char_count s - n
unfolding char_count drop_chars
char_count-drop zero s = omega arith
char_count-drop (suc n) [] = omega arith
char_count-drop (suc n) (c ∷ s) = omega (arith, char_count-drop n s)

char_count-take : (n : ℕ) (s : String) → char_count (take_chars n s) ≤ n
unfolding char_count take_chars
char_count-take zero s = omega arith
char_count-take (suc n) [] = omega arith
char_count-take (suc n) (c ∷ s) = omega (arith, char_count-take n s)

empty_of_count : (s : String) → char_count s ≡ 0 → s ≡ ""
unfolding char_count
empty_of_count [] h = refl
empty_of_count (c ∷ s) h = absurd (omega (arith, h))

count_of_full : (s : String) → nonempty s ≡ true → 0 < char_count s
unfolding char_count
count_of_full [] h = absurd (ground arith)
count_of_full (c ∷ s) h = omega arith

pub chunks_in_lem :
    (fuel size : ℕ) (s : String)
    → char_count s ≤ fuel
    → 0 < size
    → (text_of (chunks_in fuel size s) ≡ s)
      × (all (λ chunk. leb (char_count chunk) size) (chunks_in fuel size s) ≡ true)
unfolding chunks_in text_of
chunks_in_lem zero size s h positive = (ground (arith, empty_of_count s), refl)
chunks_in_lem (suc fuel) size s h positive = elim (Bool-cases (nonempty s)) [
  | inl e ↦
      let count = char_count-drop size s in
      let rest =
        chunks_in_lem fuel size (drop_chars size s) (omega (arith, count, count_of_full s e))
          positive in
      rw e (
        ap (λ t. take_chars size s <> t) rest.0 ∙ take-drop size s,
        ground (arith, char_count-take size s, rest.1),
      )
  | inr e ↦ ground (arith, e)
]

-- Cutting a text into chunks ends with all of the text in order, and no chunk has more than 5
-- characters.
pub stream_text_in_chunks_lem :
    (s : String)
    → (text_of (stream_text_in_chunks s) ≡ s)
      × (all (λ chunk. leb (char_count chunk) 5) (stream_text_in_chunks s) ≡ true)
stream_text_in_chunks_lem s = chunks_in_lem (char_count s) 5 s (omega arith) (omega arith)
