-- ===== src/Http.antt =====
-- core/http.c: header_problem and is_token, which judge what a request may carry. A string is the
-- list of its bytes.
pub mod Headers
pub mod Tests
use cosmic.Prelude.{
  ℕ, Bool, true, false, not, ◌&&◌, ◌||◌, Option, none, some, List, [], ◌∷◌, ◌==◌, leb,
  if◌then◌else◌, length,
}
use cosmic.Prelude.Text.{codes}
use cosmic.Connector.Address.{contains}
use cosmic.Html.{all_bytes, is_ascii_alphanumeric}

pub data Problem : Type 0 where
  name_empty : Problem
  name_has_line_break : Problem
  name_has_nul : Problem
  name_has_colon : Problem
  value_has_line_break : Problem
  value_has_nul : Problem

abbrev pub is_break : ℕ → Bool
is_break c = c == 13 || c == 10

-- The loop over a name's bytes.
unfoldable pub name_problem : List ℕ → Option Problem
name_problem [] = none
name_problem (c ∷ rest) =
    let later = name_problem rest in
    if is_break c
    then some name_has_line_break
    else if c == 0
    then some name_has_nul
    else if c == b':'
    then some name_has_colon
    else later

-- The loop over a value's bytes.
unfoldable pub value_problem : List ℕ → Option Problem
value_problem [] = none
value_problem (c ∷ rest) =
    let later = value_problem rest in
    if is_break c then some value_has_line_break else if c == 0 then some value_has_nul else later

-- header_problem
unfoldable pub header_problem : List ℕ → List ℕ → Option Problem
unfolding name_problem value_problem
header_problem name value =
    if length name == 0
    then some name_empty
    else elim (name_problem name) [ some p ↦ some p | none ↦ value_problem value ]

-- The bytes of a token that are no letter and no digit.
abbrev pub token_marks : List ℕ
token_marks = codes "!#$%&'*+-.^_`|~"

-- is_token
unfoldable pub is_token : List ℕ → Bool
unfolding all_bytes contains
is_token method =
    if length method == 0
    then false
    else all_bytes (λ c. not (c == 0) && (is_ascii_alphanumeric c || contains c token_marks)) method
