-- ===== src/Web/Session.antt =====
-- What the web application's views share: the session of the browser, which no other request changes, and
-- everything outside. A session is a dictionary; what a view answers is a redirect or a page.
use wso2_teamspace_demo.Base.{String, Option, some, [], Dict, lookup, insert, erase}
use wso2_teamspace_demo.Base.Json.{Json, obj, field_of}
use wso2_teamspace_demo.Base.Values.{value_or}
use wso2_teamspace_demo.Base.Run.{Run, ok}

pub record Web (R : Type 0) : Type 0 where
  pub session : Dict Json
  pub rest : R

-- `redirect(url_for(endpoint, **values))`, `redirect(url)`, and a rendered template.
pub data View : Type 0 where
  redirect_for : String → Dict String → View
  redirect : String → View
  page : String → View

module _ {R : Type 0} where
  -- A call of something outside.
  abbrev pub outside : {A : Type 0} → Run R A → Run (Web R) A
  outside m w = let (r, rest) = m w.rest in (r, record { session = w.session; rest = rest })

  -- `session.get(key)`, `session[key] = value`, `session.pop(key, None)` and `session.clear()`
  abbrev pub session_get : String → Run (Web R) (Option Json)
  session_get key w = (ok (lookup key w.session), w)

  abbrev pub session_set : String → Json → Run (Web R) (Unit {0})
  session_set key value w = (ok tt, record { session = insert key value w.session; rest = w.rest })

  abbrev pub session_pop : String → Run (Web R) (Option Json)
  session_pop key w =
      (ok (lookup key w.session), record { session = erase key w.session; rest = w.rest })

  abbrev pub session_clear : Run (Web R) (Unit {0})
  session_clear w = (ok tt, record { session = []; rest = w.rest })

-- `session.get("user", {}).get(key, default)`; the user is always an object.
abbrev pub user_field : String → Json → Dict Json → Json
user_field key default session = elim (lookup "user" session) [
  | some (obj fs) ↦ value_or default (field_of key fs)
  | _ ↦ default
]
