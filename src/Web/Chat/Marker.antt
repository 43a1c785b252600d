-- ===== src/Web/Chat/Marker.antt =====
-- The marker in front of the metadata of a streamed answer (webapp/blueprints/chat.py).
use Prim.Native.String.{[], ◌∷◌}
use text.Mathlib.Text.{starts_with}
use text.Mathlib.TextPositions.{starts_with_of_prefix}
use text.Mathlib.TextLemmas.{nil-append, cons-append}
use wso2_teamspace_demo.Base.{
  String, ◌<>◌, ◌≡◌, refl, Bool, true, false, not, ◌&&◌, Option, none, some, ap, ◌∙◌, List, ◌++◌,
  all, arith, nonempty, string_dec,
}
use wso2_teamspace_demo.Base.Strip.{nonempty-cons}
use wso2_teamspace_demo.Base.Slices.{char_count, drop_chars, contains, behind, before}
use wso2_teamspace_demo.Web.Chat.{marker, tail_of, stream_from, stream_response_chunks}

starts_with-append : (s t : String) → starts_with (s <> t) s ≡ true
starts_with-append s t = starts_with_of_prefix s (s <> t) (t, refl)

drop-append : (s t : String) → drop_chars (char_count s) (s <> t) ≡ t
unfolding drop_chars char_count
drop-append [] t = nil-append t
drop-append (c ∷ s) t = simp (cons-append, drop-append s t)

contains_of_start : (sub s : String) → starts_with s sub ≡ true → contains sub s ≡ true
unfolding contains
contains_of_start sub [] h = h
contains_of_start sub (c ∷ s) h = ground arith

before_of_start : (sub s : String) → starts_with s sub ≡ true → before sub s ≡ ""
unfolding before
before_of_start sub [] h = refl
before_of_start sub (c ∷ s) h = ground arith

behind_of_start :
    (sub s : String)
    → nonempty s ≡ true
    → starts_with s sub ≡ true
    → behind sub s ≡ some (drop_chars (char_count sub) s)
unfolding behind
behind_of_start sub [] full h = absurd (ground arith)
behind_of_start sub (c ∷ s) full h = ground arith

before_of_absent : (sub s : String) → contains sub s ≡ false → before sub s ≡ s
unfolding contains before
before_of_absent sub [] h = refl
before_of_absent sub (c ∷ s) h = ground (arith, before_of_absent sub s)

-- A chunk of text.
abbrev pub is_plain : String → Bool
is_plain chunk = nonempty chunk && not (contains marker chunk)

nonempty-append_left : (s t : String) → nonempty s ≡ true → nonempty (s <> t) ≡ true
nonempty-append_left [] t full = absurd (ground arith)
nonempty-append_left (c ∷ s) t full = simp cons-append (nonempty-cons c (s <> t))

nonempty-marker : nonempty marker ≡ true
unfolding string_dec
nonempty-marker = refl

-- The text up to the marker, behind the first one.
up_to_marker : Option String → String
up_to_marker none = ""
up_to_marker (some rest) = before marker rest

tail_of-marked :
    (metadata : String) → contains marker metadata ≡ false → tail_of (marker <> metadata) ≡ metadata
unfolding up_to_marker
tail_of-marked metadata absent =
    let start = starts_with-append marker metadata in
    let full = nonempty-append_left marker metadata nonempty-marker in
    ap up_to_marker (behind_of_start marker (marker <> metadata) full start)
    ∙ (ap (before marker) (drop-append marker metadata) ∙ before_of_absent marker metadata absent)

-- The chunk that the agent's service sends last.
stream_from-marked :
    (metadata : String)
    → contains marker metadata ≡ false
    → stream_from false "" (List.◌∷◌ (marker <> metadata) List.[]) ≡ (List.◌∷◌ "" List.[], metadata)
unfolding stream_from
stream_from-marked metadata absent =
    let start = starts_with-append marker metadata in
    let full = nonempty-append_left marker metadata nonempty-marker in
    rw
      (
        full,
        contains_of_start marker (marker <> metadata) start,
        before_of_start marker (marker <> metadata) start,
        tail_of-marked metadata absent,
      )
      refl

-- Of chunks that do not hold the marker, followed by one of the marker and the metadata, in which
-- it does not occur again, the relay shows the chunks and an empty one, and keeps the metadata.
pub stream_response_chunks-marked :
    (texts : List String) (metadata : String)
    → all is_plain texts ≡ true
    → contains marker metadata ≡ false
    → stream_response_chunks (texts ++ (List.◌∷◌ (marker <> metadata) List.[]))
      ≡ (texts ++ (List.◌∷◌ "" List.[]), metadata)
unfolding stream_from
stream_response_chunks-marked List.[] metadata plain absent = stream_from-marked metadata absent
stream_response_chunks-marked (List.◌∷◌ chunk texts) metadata plain absent =
    ground (arith, stream_response_chunks-marked texts metadata)
