-- ===== src/Web/Locale.antt =====
-- webapp/utils/i18n.py: the language of a page. Letters are those of ASCII.
use wso2_teamspace_demo.Base.{
  String, ◌||◌, Option, none, some, List, [], ◌∷◌, lookup, member, or_empty, if◌then◌else◌,
}
use wso2_teamspace_demo.Base.Json.{Json, str}
use wso2_teamspace_demo.Base.Run.{Run, pure, ok, ◌>>◌}
use wso2_teamspace_demo.Base.Slices.{contains, lower}
use wso2_teamspace_demo.Web.Session.{Web, session_set}

abbrev pub languages : List String
languages = "en" ∷ "pt" ∷ []

-- The language by the header `Accept-Language`.
unfoldable pub accepted_language : String → String
accepted_language header =
    if contains "pt" (lower header) || contains "br" (lower header) then "pt" else "en"

module _ {R : Type 0} where
  -- `get_locale`, with the parameter `lang` of the query: it is kept in the session where it is known.
  unfoldable pub get_locale : Option String → Option String → Run (Web R) Json
  get_locale lang accept_language w =
      if member (or_empty lang) languages
      then (do session_set "lang" (str (or_empty lang)); pure (str (or_empty lang))) w
      else elim (lookup "lang" w.session) [
        | some kept ↦ (ok kept, w)
        | none ↦ (ok (str (accepted_language (or_empty accept_language))), w)
      ]
