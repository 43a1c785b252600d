-- ===== src/Agent/AuthManager/Answers.antt =====
-- agent/auth_manager.py: stored tokens, and what is read off the identity server's answers.
-- The wall clock is past 1970-01-01 00:01, so `time.time() + expires_in - 60` is no negative number.
use wso2_teamspace_demo.Base.{
  ℕ, ◌+◌, ◌-◌, String, ◌<>◌, not, ◌||◌, Option, none, some, List, [], ◌∷◌, ltb, if◌then◌else◌,
}
use wso2_teamspace_demo.Base.Json.{Json, str, num, obj, end, field, field_of, truthy}
use wso2_teamspace_demo.Base.Run.{Result, ok, err, value_error, other_error}
use wso2_teamspace_demo.Base.Values.{number_or, get_key, value_or, index_key, is_text, ◌>>?◌}
use wso2_teamspace_demo.Agent.StateManager.{present}

-- `_entry`, at the wall clock's reading `now`
abbrev pub entry : Json → ℕ → ℕ → Json
entry token expires_in now =
    obj (field "token" token (field "expires_at" (num (now + expires_in - 60)) end))

-- The part of `_live_token` after the read; only the objects of `_entry` are ever written.
unfoldable pub live_token_of : Option Json → ℕ → Option Json
live_token_of (some (obj fs)) now =
    if not (truthy (obj fs)) || ltb (number_or 0 (field_of "expires_at" fs)) now
    then none
    else present (field_of "token" fs)
live_token_of _ now = none

-- The loop over `authenticators`: the first one that takes a user name and a password.
password_authenticator : List Json → Result Json
password_authenticator [] = ok (str "")
password_authenticator (auth ∷ rest) = get_key "authenticator" auth >>? λ name.
    let later = password_authenticator rest in
    if is_text "Username & Password" name then index_key "authenticatorId" auth else later

-- The authenticator to select: that one, or the first of all.
unfoldable pub select_authenticator : List Json → Result Json
unfolding password_authenticator
select_authenticator [] = ok (str "")
select_authenticator (auth ∷ rest) = password_authenticator (auth ∷ rest) >>? λ found.
    if truthy found then ok found else index_key "authenticatorId" auth

-- `"access_token" not in token_data` raises; otherwise the token and its lifetime.
unfoldable pub token_response : Json → Result (Json × ℕ)
token_response (obj fs) = elim (field_of "access_token" fs) [
  | none ↦ err value_error
  | some token ↦ elim (value_or (num 3600) (field_of "expires_in" fs)) [
    | num n ↦ ok (token, n)
    | _ ↦ err other_error
  ]
]
token_response _ = err other_error

-- `" ".join(scopes)`
abbrev pub join_words : List String → String
join_words [] = ""
join_words (x ∷ []) = x
join_words (x ∷ y ∷ r) = x <> (" " <> join_words (y ∷ r))
