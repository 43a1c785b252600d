-- ===== src/Api/Meetings.antt =====
-- api/routers/meetings.py, over the table of api/models.py. Data that comes from a token's claims is
-- a JSON value. `updated_at`, which no response shows, is left out. `duration` is an integer of the body
-- in a column of texts: what the database makes of it is a parameter, `stored`.
pub mod Isolation
use wso2_teamspace_demo.Base.{
  ℕ, String, ◌<>◌, ◌≡◌, Bool, true, false, not, ◌&&◌, Option, none, some, List, [], ◌∷◌, ◌==◌,
  head?, if◌then◌else◌,
}
use wso2_teamspace_demo.Base.Json.{Json, null, str, truthy}
use wso2_teamspace_demo.Base.Same.{same_json}
use wso2_teamspace_demo.Base.Values.{or_value}
use wso2_teamspace_demo.Base.Run.{Result, ok, err, http, Run, pure, raise, lift, ◌>>=◌, ◌>>◌}
use wso2_teamspace_demo.Api.Auth.{UserInfo, require_scope}
use wso2_teamspace_demo.Api.Table.{Table}

-- `Meeting`
pub record Meeting : Type 0 where
  pub id : String
  pub org : Json
  pub created_at : ℕ
  pub topic : String
  pub date : String
  pub start_time : String
  pub duration : String
  pub time_zone : String
  pub user_id : Json
  pub email_address : Json
  pub actor_user_id : Json

-- `MeetingCreate`, after its validation
pub record MeetingCreate : Type 0 where
  pub topic : String
  pub date : String
  pub start_time : String
  pub duration : ℕ
  pub time_zone : String

-- `Meeting.org == user.org`, and with `Meeting.id == meeting_id`
abbrev pub of_org : Json → Meeting → Bool
of_org org m = same_json m.org org

abbrev pub is_meeting : String → Json → Meeting → Bool
is_meeting meeting_id org m = m.id == meeting_id && of_org org m

-- The loop of `setattr` over the dumped model.
abbrev pub changed : (ℕ → String) → MeetingCreate → Meeting → Meeting
changed stored body m = record m {
  topic = body.topic;
  date = body.date;
  start_time = body.start_time;
  duration = stored body.duration;
  time_zone = body.time_zone;
}

-- The row that `create_meeting` adds; the id and the time are the column defaults.
abbrev pub new_meeting : (ℕ → String) → String → ℕ → MeetingCreate → UserInfo → Meeting
new_meeting stored id created_at body user = record {
  id = id;
  org = user.org;
  created_at = created_at;
  topic = body.topic;
  date = body.date;
  start_time = body.start_time;
  duration = stored body.duration;
  time_zone = body.time_zone;
  user_id = user.user_id;
  email_address = user.email;
  actor_user_id = or_value user.actor_user_id null;
}

module _ (T : Table Meeting) (stored : ℕ → String) where
  -- `.first()`, or a 404
  unfoldable pub find_meeting : String → Json → Run T.State Meeting
  find_meeting meeting_id org s = elim (head? (T.query (is_meeting meeting_id org) s)) [
    | none ↦ (err (http 404 "Meeting not found"), s)
    | some m ↦ (ok m, s)
  ]

  -- `user` is what `get_current_user` gave.
  unfoldable pub list_meetings : Option UserInfo → Run T.State (List Meeting)
  list_meetings caller = do
    user ← lift (require_scope "list_meetings" caller)
    λ s. (ok (T.query (of_org user.org) s), s)

  unfoldable pub create_meeting : String → ℕ → MeetingCreate → Option UserInfo → Run T.State Meeting
  create_meeting id created_at body caller = do
    user ← lift (require_scope "create_meeting" caller)
    T.add (new_meeting stored id created_at body user)
    pure (new_meeting stored id created_at body user)

  unfoldable pub get_meeting : String → Option UserInfo → Run T.State Meeting
  get_meeting meeting_id caller = do
    user ← lift (require_scope "view_meeting" caller)
    find_meeting meeting_id user.org

  unfoldable pub update_meeting : String → MeetingCreate → Option UserInfo → Run T.State Meeting
  update_meeting meeting_id body caller = do
    user ← lift (require_scope "update_meeting" caller)
    m ← find_meeting meeting_id user.org
    T.save m (changed stored body m)
    pure (changed stored body m)

  unfoldable pub delete_meeting : String → Option UserInfo → Run T.State (Unit {0})
  delete_meeting meeting_id caller = do
    user ← lift (require_scope "delete_meeting" caller)
    m ← find_meeting meeting_id user.org
    T.remove m
