-- ===== src/Base/Slices.antt =====
-- Slices, searches and letters of texts, as Python's methods of `str` give them, for the letters of ASCII.
use Prim.Native.Nat.{ℕ, zero, suc, ◌-◌}
use Prim.Native.Char.{Char, code}
use Prim.Native.String.{String, [], ◌∷◌}
use mathlib.Core.Bool.{Bool, true, false, not, ◌&&◌, ◌||◌}
use mathlib.Core.Option.{Option, none, some}
use text.Mathlib.Text.{starts_with, char_at?}
use wso2_teamspace_demo.Base.Text.{if◌then◌else◌, nat_eq, leb, nonempty}

-- `len(s)`
unfoldable pub char_count : String → ℕ
char_count [] = 0
char_count (c ∷ s) = suc (char_count s)

-- `s[n:]` and `s[:n]`
unfoldable pub drop_chars : ℕ → String → String
drop_chars zero s = s
drop_chars (suc n) [] = ""
drop_chars (suc n) (c ∷ s) = drop_chars n s

unfoldable pub take_chars : ℕ → String → String
take_chars zero s = ""
take_chars (suc n) [] = ""
take_chars (suc n) (c ∷ s) = c ∷ take_chars n s

-- `sub in s`
unfoldable pub contains : String → String → Bool
contains sub [] = starts_with "" sub
contains sub (c ∷ s) = let later = contains sub s in starts_with (c ∷ s) sub || later

abbrev pub same_char : Char → Char → Bool
same_char c d = nat_eq (code c) (code d)

-- `s.partition(mark)` at a single letter: what stands before it, whether it occurs, and what follows.
unfoldable pub partition : Char → String → String × Bool × String
partition mark [] = ("", false, "")
partition mark (c ∷ s) =
    let (before, found, after) = partition mark s in
    if same_char c mark then ("", true, s) else (c ∷ before, found, after)

-- `s.rsplit(mark, 1)[-1]`: what follows the last occurrence, or the text.
unfoldable pub after_last : Char → String → String
after_last mark [] = ""
after_last mark (c ∷ s) =
    let later = after_last mark s in
    let (before, found, after) = partition mark s in
    if found then later else if same_char c mark then s else c ∷ s

-- `s.lower()`
abbrev pub lower_char : Char → Char
lower_char c =
    if leb 65 (code c) && leb (code c) 90
    then elim (char_at? "abcdefghijklmnopqrstuvwxyz" (code c - 65)) [ none ↦ c | some d ↦ d ]
    else c

unfoldable pub lower : String → String
lower [] = ""
lower (c ∷ s) = lower_char c ∷ lower s

-- The text behind the first occurrence of `sub`, and the text up to it.
unfoldable pub behind : String → String → Option String
behind sub [] = none
behind sub (c ∷ s) =
    let later = behind sub s in
    if starts_with (c ∷ s) sub then some (drop_chars (char_count sub) (c ∷ s)) else later

unfoldable pub before : String → String → String
before sub [] = ""
before sub (c ∷ s) = let later = before sub s in if starts_with (c ∷ s) sub then "" else c ∷ later

-- `s.rstrip(mark)` for a single letter
unfoldable pub rstrip_char : Char → String → String
rstrip_char mark [] = ""
rstrip_char mark (c ∷ s) =
    let rest = rstrip_char mark s in
    if same_char c mark && not (nonempty rest) then "" else c ∷ rest
