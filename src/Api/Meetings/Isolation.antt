-- ===== src/Api/Meetings/Isolation.antt =====
-- What the meetings' routes may read and change (api/routers/meetings.py): the rows of the caller's
-- organization alone.
use wso2_teamspace_demo.Base.{
  ℕ, String, ◌<>◌, ◌≡◌, ◌≢◌, true, false, ◌||◌, Option, some, head?, member, arith, inl, inr,
  Option-cases, head-all,
}
use wso2_teamspace_demo.Base.Json.{Json}
use wso2_teamspace_demo.Base.Same.{same_json_sound}
use wso2_teamspace_demo.Api.Auth.{UserInfo, require_scope}
use wso2_teamspace_demo.Api.Table.{Table}
use wso2_teamspace_demo.Api.Meetings.{
  Meeting, MeetingCreate, of_org, is_meeting, changed, new_meeting, find_meeting, create_meeting,
  update_meeting, delete_meeting,
}

-- A request to the routes that change the table, by a caller.
pub data Change : Type 0 where
  create : String → ℕ → MeetingCreate → Change
  update : String → MeetingCreate → Change
  delete : String → Change

abbrev pub scope_of : Change → String
scope_of (create id created_at body) = "create_meeting"
scope_of (update id body) = "update_meeting"
scope_of (delete id) = "delete_meeting"

module _ (T : Table Meeting) (stored : ℕ → String) where
  -- The table after a request.
  abbrev pub after : Change → Option UserInfo → T.State → T.State
  after (create id created_at body) caller s =
      (create_meeting T stored id created_at body caller s).1
  after (update id body) caller s = (update_meeting T stored id body caller s).1
  after (delete id) caller s = (delete_meeting T stored id caller s).1

  find_meeting_sound :
      (id : String) (org : Json) (s : T.State) {m : Meeting}
      → head? (T.query (is_meeting id org) s) ≡ some m
      → is_meeting id org m ≡ true
  find_meeting_sound id org s found =
      head-all (is_meeting id org) (T.query (is_meeting id org) s)
        (T.query_sound (is_meeting id org) s) found

  other_org :
      (org org' : Json) (m : Meeting) → org ≢ org' → of_org org m ≡ true → of_org org' m ≡ false
  other_org org org' m differ h =
      ground (arith, same_json_sound m.org org, same_json_sound m.org org')

  found_elsewhere :
      (id : String) (org org' : Json) (s : T.State) {m : Meeting}
      → org ≢ org'
      → head? (T.query (is_meeting id org) s) ≡ some m
      → of_org org' m ≡ false
  found_elsewhere id org org' s {m} differ found =
      other_org org org' m differ (ground (arith, find_meeting_sound id org s found))

  -- Creating, updating and deleting meetings leave the meetings of every other organization than
  -- the caller's as they were.
  pub other_organizations_kept :
      (request : Change) (user : UserInfo) (org : Json) (s : T.State)
      → user.org ≢ org
      → T.query (of_org org) (after request (some user) s) ≡ T.query (of_org org) s
  unfolding create_meeting update_meeting delete_meeting require_scope find_meeting
  other_organizations_kept (create id created_at body) user org s differ = ground (
    arith,
    T.add_kept (new_meeting stored id created_at body user) (of_org org) s
        (ground (arith, same_json_sound user.org org)),
  )
  other_organizations_kept (update id body) user org s differ =
      elim (Option-cases (head? (T.query (is_meeting id user.org) s))) [
        | inl missing ↦ ground arith
        | inr (m, found) ↦
            let elsewhere = found_elsewhere id user.org org s differ found in
            ground (arith, T.save_kept m (changed stored body m) (of_org org) s elsewhere elsewhere)
      ]
  other_organizations_kept (delete id) user org s differ =
      elim (Option-cases (head? (T.query (is_meeting id user.org) s))) [
        | inl missing ↦ ground arith
        | inr (m, found) ↦
            ground (
              arith,
              T.remove_kept m (of_org org) s (found_elsewhere id user.org org s differ found),
            )
      ]

  -- Without the scope, of the user or of an agent, creating, updating or deleting a meeting leaves
  -- the table as it is.
  pub unscoped_kept :
      (request : Change) (user : UserInfo) (s : T.State)
      → (member (scope_of request) user.scopes || member (scope_of request <> "_agent") user.scopes)
        ≡ false
      → after request (some user) s ≡ s
  unfolding create_meeting update_meeting delete_meeting require_scope
  unscoped_kept (create id created_at body) user s h = ground arith
  unscoped_kept (update id body) user s h = ground arith
  unscoped_kept (delete id) user s h = ground arith
