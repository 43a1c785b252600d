-- ===== src/Base/Number.antt =====
-- `int(text)` for the digits of ASCII: white space around, a sign, and single underscores between
-- digits are accepted.
use Prim.Native.Nat.{ℕ, ◌+◌, ◌-◌, ◌*◌}
use Prim.Native.Char.{Char, code}
use Prim.Native.String.{String, [], ◌∷◌}
use mathlib.Core.Bool.{Bool, true, false, ◌&&◌}
use mathlib.Core.Option.{Option, none, some}
use wso2_teamspace_demo.Base.Text.{if◌then◌else◌, leb, nat_eq}
use wso2_teamspace_demo.Base.Strip.{strip}

abbrev pub is_digit : Char → Bool
is_digit c = leb 48 (code c) && leb (code c) 57

-- The rest of a number, whether a digit stands before it, and the value so far.
unfoldable pub digits : String → Bool → ℕ → Option ℕ
digits [] after n = if after then some n else none
digits (c ∷ s) after n =
    let more = digits s true (10 * n + (code c - 48)) in
    let pause = digits s false n in
    if is_digit c then more else if nat_eq (code c) 95 && after then pause else none

-- An integer: whether it is negative, and its magnitude.
abbrev signed : Bool → Option ℕ → Option (Bool × ℕ)
signed negative none = none
signed negative (some n) = some (negative && leb 1 n, n)

abbrev unsigned_or_signed : String → Option (Bool × ℕ)
unsigned_or_signed [] = none
unsigned_or_signed (c ∷ s) =
    if nat_eq (code c) 45
    then signed true (digits s false 0)
    else if nat_eq (code c) 43
    then signed false (digits s false 0)
    else signed false (digits (c ∷ s) false 0)

unfoldable pub int_of_text : String → Option (Bool × ℕ)
int_of_text s = unsigned_or_signed (strip s)
