-- ===== src/Agent/Llm/Html.antt =====
-- `html.escape`, `str.format` for named fields, and the removal of tags, as agent/gemini_agent.py uses them.
use Prim.Native.Char.{Char}
use Prim.Native.String.{[], ◌∷◌}
use wso2_teamspace_demo.Base.{
  String, ◌<>◌, Bool, true, false, ◌&&◌, Option, none, some, List, Dict, lookup, if◌then◌else◌,
}
use wso2_teamspace_demo.Base.Run.{Result, ok, err, value_error, other_error}
use wso2_teamspace_demo.Base.Values.{◌>>?◌}
use wso2_teamspace_demo.Base.Slices.{same_char, partition}

-- `html.escape(s)`
abbrev pub escape_char : Char → String
escape_char c =
    if same_char c "&"
    then "&amp;"
    else if same_char c "<"
    then "&lt;"
    else if same_char c ">"
    then "&gt;"
    else if same_char c "\""
    then "&quot;"
    else if same_char c "'"
    then "&#x27;"
    else c ∷ ""

unfoldable pub html_escape : String → String
html_escape [] = ""
html_escape (c ∷ s) = escape_char c <> html_escape s

-- `{k: html.escape(v) for k, v in kwargs.items()}`
unfoldable pub escaped : Dict String → Dict String
escaped List.[] = List.[]
escaped (List.◌∷◌ (k, v) kwargs) = List.◌∷◌ (k, html_escape v) (escaped kwargs)

-- `template.format(**kwargs)`, for fields that are names: outside of a field, or in one, whose name was
-- read so far.
unfoldable pub format_in : Dict String → Option String → String → Result String
format_in kwargs none [] = ok ""
format_in kwargs none (c ∷ s) =
    let field = format_in kwargs (some "") s in
    let rest = format_in kwargs none s in
    if same_char c "{" then field else (rest >>? λ text. ok (c ∷ text))
format_in kwargs (some name) [] = err value_error
format_in kwargs (some name) (c ∷ s) =
    let rest = format_in kwargs none s in
    let longer = format_in kwargs (some (name <> (c ∷ ""))) s in
    if same_char c "}"
    then elim (lookup name kwargs) [
      | none ↦ err other_error
      | some v ↦ (rest >>? λ text. ok (v <> text))
    ]
    else longer

abbrev pub format : Dict String → String → Result String
format kwargs template = format_in kwargs none template

-- `re.sub(r'<[^>]*>', '', s)`: outside of a tag, or in one.
unfoldable pub strip_tags_in : Bool → String → String
strip_tags_in tag [] = ""
strip_tags_in true (c ∷ s) =
    let outside = strip_tags_in false s in
    let inside = strip_tags_in true s in if same_char c ">" then outside else inside
strip_tags_in false (c ∷ s) =
    let inside = strip_tags_in true s in
    let rest = strip_tags_in false s in
    if same_char c "<" && (partition ">" s).1 then inside else c ∷ rest

abbrev pub strip_tags : String → String
strip_tags s = strip_tags_in false s
