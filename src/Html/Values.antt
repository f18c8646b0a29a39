-- ===== src/Html/Values.antt =====
-- The functions of core/html.c over Lua values: a safe value is one of five kinds and holds a
-- string, and a function raises on an argument of another type.
pub mod Doors
use cosmic.Prelude.{
  ℕ, zero, suc, ◌+◌, ◌<◌, ◌≡◌, Bool, true, false, not, ◌&&◌, ◌||◌, Option, none, some, List, [],
  ◌∷◌, ◌++◌, ◌==◌, ltb, leb, if◌then◌else◌, length,
}
use cosmic.Prelude.Results.{Result, ok, err, ◌>>=◌}
use cosmic.Html.{escape, escape_attr, escape_css_attr, allowed_url, href_schemes, url_escaped}

-- SAFE_HTML_TYPE, SAFE_ATTR_TYPE, SAFE_URL_TYPE, SAFE_URL_PART_TYPE and SAFE_JSON_TYPE
pub data Kind : Type 0 where
  html : Kind
  attr : Kind
  url : Kind
  url_part : Kind
  json : Kind

abbrev pub same_kind : Kind → Kind → Bool
same_kind html html = true
same_kind attr attr = true
same_kind url url = true
same_kind url_part url_part = true
same_kind json json = true
same_kind _ _ = false

-- A Lua value, as far as these functions tell them apart; a number comes with its text.
pub data Value : Type 0 where
  str : List ℕ → Value
  num : List ℕ → Value
  safe : Kind → List ℕ → Value
  other : Value

pub data Raised : Type 0 where
  wrong_type : Raised
  not_sequence : Raised
  not_html : ℕ → Raised

abbrev pub Called : Type 0 → Type 0
Called A = Result Raised A

-- luaL_checklstring, and check_text
abbrev pub check_string : Value → Called (List ℕ)
check_string (str s) = ok s
check_string (num s) = ok s
check_string (safe k s) = err wrong_type
check_string other = err wrong_type

-- luaL_checktype(L, 1, LUA_TSTRING)
abbrev pub check_type : Value → Called (List ℕ)
check_type (str s) = ok s
check_type (num s) = err wrong_type
check_type (safe k s) = err wrong_type
check_type other = err wrong_type

-- wrap
abbrev pub wrap : Kind → List ℕ → Called Value
wrap kind s = ok (safe kind s)

-- push_string_of
abbrev pub string_of : Kind → Value → Called Value
string_of kind (safe k s) = if same_kind k kind then ok (str s) else err wrong_type
string_of kind (str s) = err wrong_type
string_of kind (num s) = err wrong_type
string_of kind other = err wrong_type

-- html_escape, html_escape_attr, html_escape_css_attr
abbrev pub html_escape : Value → Called Value
html_escape v = do s ← check_string v; wrap html (escape s)

abbrev pub html_escape_attr : Value → Called Value
html_escape_attr v = do s ← check_string v; wrap attr (escape_attr s)

abbrev pub html_escape_css_attr : Value → Called Value
html_escape_css_attr v = do s ← check_string v; wrap attr (escape_css_attr s)

-- html_href, html_local_href
abbrev pub html_href : Value → Called Value
html_href v = do s ← check_string v; wrap url (allowed_url href_schemes s)

abbrev pub html_local_href : Value → Called Value
html_local_href v = do s ← check_string v; wrap url (allowed_url [] s)

-- html_trust, html_trust_attr, html_trust_url, html_trust_json
abbrev pub html_trust : Kind → Value → Called Value
html_trust kind v = do s ← check_type v; wrap kind s

-- html_raw, html_raw_attr, html_raw_url, html_raw_url_part, html_raw_json
abbrev pub html_raw : Kind → Value → Called Value
html_raw = string_of

-- html_url_part
abbrev pub html_url_part : Value → Called Value
html_url_part v = do s ← check_string v; wrap url_part (url_escaped true s)

-- A table's keys: a whole number of at least 1, or anything else.
pub data Key : Type 0 where
  place : ℕ → Key
  stranger : Key

abbrev in_count : ℕ → Key → Bool
in_count count (place n) = not (n == 0) && leb n count
in_count count stranger = false

-- The loop of check_sequence over the keys, which counts them; none where it raises.
count_keys : ℕ → List Key → ℕ → Option ℕ
count_keys count [] keys = some keys
count_keys count (k ∷ rest) keys =
    let more = count_keys count rest (keys + 1) in if in_count count k then more else none

-- check_sequence: the length, where the keys are 1 to it.
unfoldable pub check_sequence : ℕ → List Key → Called ℕ
unfolding count_keys
check_sequence count keys = elim (count_keys count keys 0) [
  | none ↦ err not_sequence
  | some n ↦ if n == count then ok count else err not_sequence
]

-- The loop of html_concat from the place `i`, with what the buffer holds.
unfoldable pub concat_from : ℕ → List Value → List ℕ → Called Value
concat_from i [] buffer = wrap html buffer
concat_from i (safe html s ∷ rest) buffer = concat_from (i + 1) rest (buffer ++ s)
concat_from i (safe attr s ∷ rest) buffer = err (not_html i)
concat_from i (safe url s ∷ rest) buffer = err (not_html i)
concat_from i (safe url_part s ∷ rest) buffer = err (not_html i)
concat_from i (safe json s ∷ rest) buffer = err (not_html i)
concat_from i (str s ∷ rest) buffer = err (not_html i)
concat_from i (num s ∷ rest) buffer = err (not_html i)
concat_from i (other ∷ rest) buffer = err (not_html i)

-- html_concat over the elements of a table of these keys.
unfoldable pub html_concat : List Key → List Value → Called Value
unfolding check_sequence concat_from
html_concat keys values = check_sequence (length values) keys >>= λ _. concat_from 1 values []
