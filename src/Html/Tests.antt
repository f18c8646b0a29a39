-- ===== src/Html/Tests.antt =====
-- The theorems on escapes and links at concrete inputs.
use cosmic.Prelude.{ℕ, ◌≡◌, refl, true, false, List, [], ◌∷◌, ◌++◌, length, arith}
use cosmic.Prelude.Text.{codes}
use cosmic.Prelude.Results.{ok}
use cosmic.Html.{all_bytes, escape, escape_attr, url_escaped, url_allowed, href_schemes}
use cosmic.Html.Text.{is_inert, escape-is_inert, escape-injective}
use cosmic.Html.Attr.{is_attr_text, escape_attr-safe, escape_attr-injective}
use cosmic.Html.Url.{unescape, unescape-url_escaped}
use cosmic.Html.Link.{IsSpelled, runs_on, url_allowed-scheme, url_allowed-host}
use cosmic.Html.Query.{Element, pair, query, html_url_query, read_query, html_url_query-read}
use cosmic.Html.Values.{Value, url_part, str, safe, html, place, html_concat, check_sequence}
use cosmic.Html.Values.Doors.{Made, escaped, joined, nil, cons, IsInert, Made-IsInert}

abbrev text : List ℕ
text = codes "<a href='x'> & \"y\""

escape-is_inert_example : all_bytes is_inert (escape text) ≡ true
escape-is_inert_example = escape-is_inert text

escape-injective_example : text ≡ text
escape-injective_example = escape-injective text text refl

escape_attr-safe_example : all_bytes is_attr_text (escape_attr text) ≡ true
escape_attr-safe_example = escape_attr-safe text

escape_attr-injective_example : text ≡ text
escape_attr-injective_example = escape_attr-injective text text refl

unescape-url_escaped_example : unescape (url_escaped true text) ≡ text
unescape-url_escaped_example = unescape-url_escaped true text (ground arith) refl

link_allowed : url_allowed (codes "HTTPS" ++ b':' ∷ codes "//a/b?c") href_schemes ≡ true
unfolding url_allowed
link_allowed = refl

scheme_free : all_bytes runs_on (codes "HTTPS") ≡ true
unfolding all_bytes
scheme_free = refl

url_allowed-scheme_example :
    (before : List (List ℕ)) × (word : List ℕ) × (after : List (List ℕ)) × (href_schemes
      ≡ before ++ word ∷ after)
    × IsSpelled (codes "HTTPS") word
url_allowed-scheme_example =
    url_allowed-scheme (codes "HTTPS") (codes "//a/b?c") href_schemes scheme_free link_allowed

url_allowed-host_example : url_allowed (codes "/\\evil") href_schemes ≡ false
url_allowed-host_example = url_allowed-host b'/' b'\\' (codes "evil") href_schemes refl refl

-- The escape of the text, twice in a sequence.
abbrev piece : Value
piece = safe html (escape text)

piece-Made : Made piece
piece-Made = escaped (str text) piece refl

abbrev pieces : List Value
pieces = piece ∷ piece ∷ []

pieces_joined :
    html_concat (place 1 ∷ place 2 ∷ []) pieces ≡ ok (safe html (escape text ++ escape text))
unfolding html_concat
pieces_joined = refl

Made-IsInert_example : IsInert (safe html (escape text ++ escape text))
Made-IsInert_example = Made-IsInert (safe html (escape text ++ escape text)) (
    joined (safe html (escape text ++ escape text)) pieces (place 1 ∷ place 2 ∷ [])
      (cons piece (piece ∷ []) piece-Made (cons piece [] piece-Made nil)) pieces_joined)

-- The query of two pairs.
abbrev elements : List Element
elements = pair (codes "a&b") (codes "1=2") ∷ pair (codes "c") (codes "%") ∷ []

elements_checked : check_sequence (length elements) (place 2 ∷ place 1 ∷ []) ≡ ok 2
unfolding check_sequence
elements_checked = refl

html_url_query-read_example :
    (s : List ℕ) × (html_url_query (place 2 ∷ place 1 ∷ []) elements ≡ ok (query (safe url_part s)))
    × (read_query s ≡ elements)
html_url_query-read_example =
    html_url_query-read (place 2 ∷ place 1 ∷ []) elements 2
      (ground arith, ground arith, (ground arith, ground arith, tt)) elements_checked
