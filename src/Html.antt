-- ===== src/Html.antt =====
-- core/html.c: escapes for text, attributes, URLs and CSS, and the safe values that carry them. A
-- string is the list of its bytes. A loop that copies what it keeps in runs holds the present run.
pub mod Runs
pub mod Values
pub mod Text
pub mod Attr
pub mod Url
pub mod Link
pub mod Query
pub mod Tests
use cosmic.Prelude.{
  ℕ, zero, suc, ◌+◌, ◌-◌, ◌*◌, ◌/◌, ◌%◌, ◌^◌, Bool, true, false, not, ◌&&◌, ◌||◌, Option, none,
  some, List, [], ◌∷◌, ◌++◌, ◌==◌, ltb, leb, if◌then◌else◌, length, get_or, get_elem?, take, drop,
}
use Prim.Native.String.{String}
use cosmic.Prelude.Text.{codes}

-- text_entity
abbrev pub text_entity : ℕ → Option (List ℕ)
text_entity c =
    if c == b'&'
    then some (codes "&amp;")
    else if c == b'<'
    then some (codes "&lt;")
    else if c == b'>'
    then some (codes "&gt;")
    else if c == b'"'
    then some (codes "&quot;")
    else if c == b'\''
    then some (codes "&#39;")
    else none

-- Whether every byte passes a test.
unfoldable pub all_bytes : (ℕ → Bool) → List ℕ → Bool
all_bytes test [] = true
all_bytes test (c ∷ rest) = test c && all_bytes test rest

-- The copying loop: `run` is what has been kept since the last byte that was written otherwise.
unfoldable pub copy_runs : (ℕ → Option (List ℕ)) → List ℕ → List ℕ → List ℕ
copy_runs write run [] = run
copy_runs write run (c ∷ rest) =
    let kept = copy_runs write (run ++ c ∷ []) rest in
    let begun = copy_runs write [] rest in
    elim (write c) [ none ↦ kept | some written ↦ run ++ written ++ begun ]

-- html_escape, before it is wrapped
unfoldable pub escape : List ℕ → List ℕ
unfolding all_bytes copy_runs
escape s =
    if all_bytes (λ c. elim (text_entity c) [ none ↦ true | some _ ↦ false ]) s
    then s
    else copy_runs text_entity [] s

abbrev pub is_ascii_digit : ℕ → Bool
is_ascii_digit c = leb b'0' c && leb c b'9'

abbrev pub is_ascii_alpha : ℕ → Bool
is_ascii_alpha c = (leb b'A' c && leb c b'Z') || (leb b'a' c && leb c b'z')

abbrev pub is_ascii_alphanumeric : ℕ → Bool
is_ascii_alphanumeric c =
    is_ascii_digit c || (leb b'A' c && leb c b'Z') || (leb b'a' c && leb c b'z')

-- Bytes that an attribute value takes as they are.
abbrev pub attr_plain : ℕ → Bool
attr_plain c = leb 0x80 c || is_ascii_alphanumeric c

-- The digits of a byte, the lowest first: the loop `for (v = c; v > 0; v /= 10)`.
unfoldable pub low_digits : ℕ → ℕ → List ℕ
low_digits zero v = []
low_digits (suc fuel) v =
    let more = low_digits fuel (v / 10) in if v == 0 then [] else (b'0' + v % 10) ∷ more

-- `while (count > 0) at[n++] = digits[--count]`
unfoldable pub reverse_onto : List ℕ → List ℕ → List ℕ
reverse_onto [] out = out
reverse_onto (d ∷ rest) out = reverse_onto rest (d ∷ out)

-- A byte's decimal character reference.
unfoldable pub reference : ℕ → List ℕ
unfolding low_digits reverse_onto
reference c =
    let digits = low_digits 3 c in
    codes "&#" ++ (if length digits == 0 then b'0' ∷ [] else []) ++ reverse_onto digits (codes ";")

abbrev pub attr_write : ℕ → Option (List ℕ)
attr_write c = if attr_plain c then none else some (reference c)

-- html_escape_attr
unfoldable pub escape_attr : List ℕ → List ℕ
unfolding all_bytes copy_runs reference
escape_attr s = if all_bytes attr_plain s then s else copy_runs attr_write [] s

abbrev pub is_slash : ℕ → Bool
is_slash c = c == b'/' || c == b'\\'

-- The byte in lower case.
abbrev pub lower : ℕ → ℕ
lower c = if leb b'A' c && leb c b'Z' then c - b'A' + b'a' else c

-- equals_ignoring_case
unfoldable pub equals_ignoring_case : List ℕ → List ℕ → Bool
equals_ignoring_case [] [] = true
equals_ignoring_case [] (d ∷ word) = false
equals_ignoring_case (c ∷ s) [] = false
equals_ignoring_case (c ∷ s) (d ∷ word) = lower c == d && equals_ignoring_case s word

-- The scan for a colon: what stands before the first of `:`, `/`, `?` and `#`, and whether that is
-- a colon.
unfoldable pub scheme_scan : List ℕ → List ℕ × Bool
scheme_scan [] = ([], false)
scheme_scan (c ∷ rest) =
    let (before, colon) = scheme_scan rest in
    if c == b':'
    then ([], true)
    else if c == b'/' || c == b'?' || c == b'#'
    then ([], false)
    else (c ∷ before, colon)

abbrev pub scheme_byte : ℕ → Bool
scheme_byte c = is_ascii_alphanumeric c || c == b'+' || c == b'-' || c == b'.'

unfoldable pub any_scheme : List ℕ → List (List ℕ) → Bool
any_scheme scheme [] = false
any_scheme scheme (word ∷ rest) =
    if equals_ignoring_case scheme word then true else any_scheme scheme rest

-- Whether a scheme, what precedes a colon, is one of those allowed. An empty one begins with the
-- colon itself.
unfoldable pub scheme_allowed : List ℕ → List (List ℕ) → Bool
unfolding any_scheme all_bytes equals_ignoring_case
scheme_allowed [] schemes = false
scheme_allowed (c ∷ rest) schemes =
    if not (is_ascii_alpha c)
    then false
    else if not (all_bytes scheme_byte rest)
    then false
    else any_scheme (c ∷ rest) schemes

abbrev pub not_control : ℕ → Bool
not_control c = not (ltb c 0x20 || c == 0x7f)

-- url_allowed
unfoldable pub url_allowed : List ℕ → List (List ℕ) → Bool
unfolding scheme_scan scheme_allowed all_bytes
url_allowed s schemes =
    if ltb 0 (length s) && (get_or s 0 0 == b' ' || get_or s (length s - 1) 0 == b' ')
    then false
    else if not (all_bytes not_control s)
    then false
    else let (scheme, colon) = scheme_scan s in
      if colon
      then scheme_allowed scheme schemes
      else not (leb 2 (length s) && is_slash (get_or s 0 0) && is_slash (get_or s 1 0))

-- wrap_allowed_url, before it is wrapped
unfoldable pub allowed_url : List (List ℕ) → List ℕ → List ℕ
unfolding url_allowed
allowed_url schemes s = if url_allowed s schemes then s else codes "about:invalid"

abbrev pub href_schemes : List (List ℕ)
href_schemes = codes "http" ∷ codes "https" ∷ codes "mailto" ∷ []

abbrev pub is_url_unreserved : ℕ → Bool
is_url_unreserved c = is_ascii_alphanumeric c || c == b'-' || c == b'.' || c == b'_' || c == b'~'

-- hex[d], upper case and lower case
abbrev pub upper_hex : ℕ → ℕ
upper_hex d = if ltb d 10 then b'0' + d else b'A' + (d - 10)

abbrev pub lower_hex : ℕ → ℕ
lower_hex d = if ltb d 10 then b'0' + d else b'a' + (d - 10)

abbrev pub url_write : ℕ → Option (List ℕ)
url_write c =
    if is_url_unreserved c then none else some (b'%' ∷ upper_hex (c / 16) ∷ upper_hex (c % 16) ∷ [])

-- Whether a string is `.` or `..`.
abbrev pub is_dots : List ℕ → Bool
is_dots s =
    ltb 0 (length s)
    && leb (length s) 2
    && get_or s (length s - 1) 0 == b'.'
    && (length s == 1 || get_or s 0 0 == b'.')

-- push_url_escaped
unfoldable pub url_escaped : Bool → List ℕ → List ℕ
unfolding all_bytes copy_runs
url_escaped dot_rule s =
    if dot_rule && is_dots s
    then (if length s == 1 then codes "%252E" else codes "%252E%252E")
    else if all_bytes is_url_unreserved s
    then s
    else copy_runs url_write [] s

-- add_css_escape
unfoldable pub css_escape : ℕ → List ℕ
css_escape c =
    codes "&#92;"
    ++ (if leb 16 c then lower_hex (c / 16) ∷ [] else [])
    ++ lower_hex (c % 16) ∷ codes "&#32;"

-- One byte of html_escape_css_attr's loop: `leads` is whether it is first or follows a first `-`,
-- `alone` whether the string has one byte only.
unfoldable pub css_byte : Bool → Bool → ℕ → List ℕ
unfolding css_escape
css_byte leads alone c =
    if c == 0
    then 0xef ∷ 0xbf ∷ 0xbd ∷ []
    else if c == b'_'
    then codes "&#95;"
    else if c == b'-' && not alone
    then codes "&#45;"
    else if leb 0x80 c || (is_ascii_alphanumeric c && not (is_ascii_digit c && leads))
    then c ∷ []
    else css_escape c

unfoldable pub css_bytes : List ℕ → ℕ → Bool → Bool → List ℕ
unfolding css_byte
css_bytes [] i first_dash alone = []
css_bytes (c ∷ rest) i first_dash alone =
    css_byte (i == 0 || (i == 1 && first_dash)) alone c ++ css_bytes rest (i + 1) first_dash alone

-- html_escape_css_attr, before it is wrapped
unfoldable pub escape_css_attr : List ℕ → List ℕ
unfolding css_bytes all_bytes
escape_css_attr s =
    if all_bytes attr_plain s && not (ltb 0 (length s) && is_ascii_digit (get_or s 0 0))
    then s
    else css_bytes s 0 (get_or s 0 0 == b'-') (leb (length s) 1)
