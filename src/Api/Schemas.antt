-- ===== src/Api/Schemas.antt =====
-- api/schemas.py: the validation of a meeting that is created or updated.
-- The time zones that are installed are an argument. Digits are those of ASCII.
use Prim.Native.Char.{Char}
use Prim.Native.Nat.{◌%◌}
use wso2_teamspace_demo.Base.{
  ℕ, String, Bool, true, false, not, ◌&&◌, ◌||◌, ◌==◌, Option, none, some, List, member, leb,
  nat_eq, if◌then◌else◌,
}
use wso2_teamspace_demo.Base.Json.{Json, num, str}
use wso2_teamspace_demo.Base.Number.{is_digit, digits, int_of_text}
use wso2_teamspace_demo.Base.Slices.{char_count, drop_chars, take_chars, same_char}
use wso2_teamspace_demo.Api.Meetings.{MeetingCreate}

-- A pattern of digits, `d`, and of other letters, which are those of the text; the `$` at its end lets a
-- line feed follow.
unfoldable pub fits_mask : String → String → Bool
fits_mask String.[] s = s == "" || s == "\n"
fits_mask (String.◌∷◌ m mask) String.[] = false
fits_mask (String.◌∷◌ m mask) (String.◌∷◌ c s) =
    let rest = fits_mask mask s in (if same_char m "d" then is_digit c else same_char m c) && rest

-- The number in some letters of a text that fits, from a position on.
abbrev number_at : ℕ → ℕ → String → ℕ
number_at start count s = elim (digits (take_chars count (drop_chars start s)) false 0) [
  | none ↦ 0
  | some n ↦ n
]

unfoldable pub is_leap : ℕ → Bool
is_leap year = nat_eq (year % 4) 0 && not (nat_eq (year % 100) 0) || nat_eq (year % 400) 0

unfoldable pub days_in : ℕ → ℕ → ℕ
days_in year month =
    if nat_eq month 2
    then (if is_leap year then 29 else 28)
    else if nat_eq month 4 || nat_eq month 6 || nat_eq month 9 || nat_eq month 11
    then 30
    else 31

-- `date.fromisoformat` of a text that fits the pattern: a line feed at its end is refused.
abbrev is_calendar_date : String → Bool
is_calendar_date s =
    let year = number_at 0 4 s in
    let month = number_at 5 2 s in
    let day = number_at 8 2 s in
    nat_eq (char_count s) 10
    && leb 1 year
    && leb 1 month
    && leb month 12
    && leb 1 day
    && leb day (days_in year month)

-- `_date_iso`
unfoldable pub date_iso : String → Bool
date_iso v = fits_mask "dddd-dd-dd" v && is_calendar_date v

-- `_start_time_hhmm`
unfoldable pub start_time_hhmm : String → Bool
start_time_hhmm v = fits_mask "dd:dd" v && leb (number_at 0 2 v) 23 && leb (number_at 3 2 v) 59

-- `_topic_safe`
abbrev is_forbidden : Char → Bool
is_forbidden c =
    same_char c "<" || same_char c ">" || same_char c "&" || same_char c "\"" || same_char c "'"

unfoldable pub topic_safe : String → Bool
topic_safe String.[] = true
topic_safe (String.◌∷◌ c s) = let rest = topic_safe s in not (is_forbidden c) && rest

-- `_duration_coerce`, and the type and the bounds of the field
unfoldable pub duration_coerce : Json → Option ℕ
duration_coerce (num n) = some n
duration_coerce (str s) = elim (int_of_text s) [ some (false, n) ↦ some n | _ ↦ none ]
duration_coerce _ = none

abbrev in_bounds : ℕ → Bool
in_bounds n = leb 1 n && leb n 480

-- `MeetingCreate`, from its fields; nothing where one is refused, which is answered with a 422.
unfoldable pub validate_meeting :
    List String → String → String → String → Json → String → Option MeetingCreate
validate_meeting available_timezones topic date start_time duration time_zone =
    if leb (char_count topic) 500
      && topic_safe topic
      && date_iso date
      && start_time_hhmm start_time
      && member time_zone available_timezones
    then elim (duration_coerce duration) [
      | none ↦ none
      | some n ↦
          if in_bounds n
          then some (record {
            topic = topic;
            date = date;
            start_time = start_time;
            duration = n;
            time_zone = time_zone;
          })
          else none
    ]
    else none
