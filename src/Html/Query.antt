-- ===== src/Html/Query.antt =====
-- html_url_query of core/html.c: pairs written as `name=value` joined by `&`, and read back.
use cosmic.Prelude.{
  ℕ, suc, ◌+◌, ◌≡◌, refl, sym, ap, ◌∙◌, Bool, true, false, not, Option, none, some, List, [], ◌∷◌,
  ◌++◌, ◌==◌, ltb, arith, if◌then◌else◌, Bool-cases, inl, inr, ◌⊎◌, length, map,
}
use mathlib.Core.List.{append-nil, append_assoc}
use mathlib.Core.Path.{ap₂}
use cosmic.Prelude.Results.{ok, ◌>>=◌}
use cosmic.Prelude.Text.{AreBytes}
use cosmic.Html.{url_escaped, all_bytes, url_write}
use cosmic.Html.Runs.{written, all_bytes-each, all_bytes-append}
use cosmic.Html.Url.{unescape, url_escaped-each, unescape-url_escaped}
use cosmic.Html.Values.{Value, safe, url_part, Called, Key, check_sequence, wrap}

-- An element of the table: a pair of strings, or anything else.
pub data Element : Type 0 where
  pair : List ℕ → List ℕ → Element
  odd : Element

-- The answer: a value, or nil and the place of the element that is no pair.
pub data Queried : Type 0 where
  query : Value → Queried
  not_pair : ℕ → Queried

-- The first loop, from the place `i`.
pub first_odd : ℕ → List Element → Option ℕ
first_odd i [] = none
first_odd i (pair name value ∷ rest) = first_odd (i + 1) rest
first_odd i (odd ∷ rest) = some i

-- The second loop, which runs where all are pairs; `i` is the place.
unfoldable pub query_from : ℕ → List Element → List ℕ
query_from i [] = []
query_from i (odd ∷ rest) = query_from (suc i) rest
query_from i (pair name value ∷ rest) =
    (if ltb 1 i then b'&' ∷ [] else [])
    ++ url_escaped false name
    ++ b'=' ∷ (url_escaped false value ++ query_from (suc i) rest)

-- html_url_query over the elements of a table of these keys.
unfoldable pub html_url_query : List Key → List Element → Called Queried
unfolding first_odd query_from
html_url_query keys elements = check_sequence (length elements) keys >>= λ _.
    elim (first_odd 1 elements) [
      | some i ↦ ok (not_pair i)
      | none ↦ wrap url_part (query_from 1 elements) >>= λ v. ok (query v)
    ]

-- A reader of queries: the pieces between separators, then each piece's first `=`.
pub split_on : ℕ → List ℕ → List (List ℕ)
split_on c [] = [] ∷ []
split_on c (x ∷ rest) = elim (split_on c rest) [
  | [] ↦ []
  | piece ∷ more ↦ if x == c then [] ∷ piece ∷ more else (x ∷ piece) ∷ more
]

pub break_at : ℕ → List ℕ → List ℕ × List ℕ
break_at c [] = ([], [])
break_at c (x ∷ rest) =
    let (before, after) = break_at c rest in if x == c then ([], rest) else (x ∷ before, after)

pub read_pair : List ℕ → Element
unfolding break_at
read_pair piece = let (name, value) = break_at b'=' piece in pair (unescape name) (unescape value)

pub read_query : List ℕ → List Element
unfolding split_on read_pair
read_query [] = []
read_query (c ∷ rest) = map read_pair (split_on b'&' (c ∷ rest))

abbrev other_than : ℕ → ℕ → Bool
other_than c x = not (x == c)

split_on-cons :
    (c : ℕ) (s : List ℕ) → (piece : List ℕ) × (more : List (List ℕ)) × (split_on c s ≡ piece ∷ more)
unfolding split_on
split_on-cons c [] = ([], [], refl)
split_on-cons c (x ∷ rest) =
    let (piece, more, e) = split_on-cons c rest in
    elim (Bool-cases (x == c)) [
      | inl h ↦ rw (split_on, e, h) (_, _, refl)
      | inr h ↦ rw (split_on, e, h) (_, _, refl)
    ]

split_on-free : (c : ℕ) (xs : List ℕ) → all_bytes (other_than c) xs ≡ true → split_on c xs ≡ xs ∷ []
unfolding split_on all_bytes
split_on-free c [] h = refl
split_on-free c (x ∷ xs) h = ground (arith, split_on-free c xs)

split_on-at :
    (c : ℕ) (xs ys : List ℕ)
    → all_bytes (other_than c) xs ≡ true
    → split_on c (xs ++ c ∷ ys) ≡ xs ∷ split_on c ys
unfolding split_on all_bytes
split_on-at c [] ys h =
    let (piece, more, e) = split_on-cons c ys in
    let same : (c == c) ≡ true = ground arith in rw (e, same, split_on) refl
split_on-at c (x ∷ xs) ys h = ground (arith, split_on-at c xs ys)

break_at-free :
    (c : ℕ) (xs ys : List ℕ)
    → all_bytes (other_than c) xs ≡ true
    → break_at c (xs ++ c ∷ ys) ≡ (xs, ys)
unfolding break_at all_bytes
break_at-free c [] ys h = ground arith
break_at-free c (x ∷ xs) ys h = ground (arith, break_at-free c xs ys)

-- An escape holds neither separator.
escaped-free :
    (c : ℕ)
    → (c ≡ b'&') ⊎ (c ≡ b'=')
    → (s : List ℕ) → all_bytes (other_than c) (url_escaped false s) ≡ true
unfolding all_bytes
escaped-free c k s =
    ap (all_bytes (other_than c)) (url_escaped-each false s refl)
    ∙ all_bytes-each url_write (other_than c) (written-free c k) s
  where
    written-free :
        (c : ℕ)
        → (c ≡ b'&') ⊎ (c ≡ b'=')
        → (x : ℕ) → all_bytes (other_than c) (written url_write x) ≡ true
    written-free c (inl e) x = ground arith
    written-free c (inr e) x = ground arith

-- One pair as it is written.
abbrev written_pair : List ℕ → List ℕ → List ℕ
written_pair name value = url_escaped false name ++ b'=' ∷ url_escaped false value

written_pair-free :
    (name value : List ℕ) → all_bytes (other_than b'&') (written_pair name value) ≡ true
unfolding all_bytes
written_pair-free name value =
    all_bytes-append (other_than b'&') (url_escaped false name) (b'=' ∷ url_escaped false value)
      (escaped-free b'&' (inl refl) name) (escaped-free b'&' (inl refl) value)

read_written_pair :
    (name value : List ℕ)
    → AreBytes name
    → AreBytes value
    → read_pair (written_pair name value) ≡ pair name value
unfolding read_pair
read_written_pair name value n v =
    ap (λ p. pair (unescape p.0) (unescape p.1))
      (break_at-free b'=' (url_escaped false name) (url_escaped false value)
        (escaped-free b'=' (inr refl) name))
    ∙ ap₂ pair (unescape-url_escaped false name n refl) (unescape-url_escaped false value v refl)

-- Pairs of strings of bytes.
abbrev pub ArePairs : List Element → Type 0
ArePairs [] = Unit
ArePairs (odd ∷ rest) = ⊥
ArePairs (pair name value ∷ rest) = AreBytes name × AreBytes value × ArePairs rest

-- A pair after the first, with its separator.
query_from-later :
    (i : ℕ) (name value : List ℕ) (rest : List Element)
    → query_from (suc (suc i)) (pair name value ∷ rest)
      ≡ b'&' ∷ (written_pair name value ++ query_from (suc (suc (suc i))) rest)
unfolding query_from
query_from-later i name value rest =
    let later : ltb 1 (suc (suc i)) ≡ true = ground arith in
    rw (query_from, later)
      (ap (λ s. b'&' ∷ s)
        (sym (
          append_assoc (url_escaped false name) (b'=' ∷ url_escaped false value)
            (query_from (suc (suc (suc i))) rest))))

-- After the first pair each begins with a separator.
split-query :
    (i : ℕ) (name value : List ℕ) (rest : List Element)
    → ArePairs (pair name value ∷ rest)
    → map read_pair (split_on b'&' (written_pair name value ++ query_from (suc (suc i)) rest))
      ≡ pair name value ∷ rest
unfolding query_from
split-query i name value [] v =
    ap (λ s. map read_pair (split_on b'&' s)) (append-nil (written_pair name value))
    ∙ ap (map read_pair)
        (split_on-free b'&' (written_pair name value) (written_pair-free name value))
    ∙ ap (λ e. e ∷ []) (read_written_pair name value v.0 v.1)
split-query i name value (odd ∷ rest) v = absurd v.2
split-query i name value (pair name' value' ∷ rest) v =
    ap (λ s. map read_pair (split_on b'&' (written_pair name value ++ s)))
      (query_from-later i name' value' rest)
    ∙ ap (map read_pair) (
        split_on-at b'&' (written_pair name value)
          (written_pair name' value' ++ query_from (suc (suc (suc i))) rest)
          (written_pair-free name value))
    ∙ ap₂ ◌∷◌ (read_written_pair name value v.0 v.1) (split-query (suc i) name' value' rest v.2)

read_query-nonempty :
    (xs ys : List ℕ) (c : ℕ)
    → read_query (xs ++ c ∷ ys) ≡ map read_pair (split_on b'&' (xs ++ c ∷ ys))
unfolding read_query
read_query-nonempty [] ys c = refl
read_query-nonempty (x ∷ xs) ys c = refl

read_query-query :
    (elements : List Element) → ArePairs elements → read_query (query_from 1 elements) ≡ elements
unfolding read_query query_from
read_query-query [] v = refl
read_query-query (odd ∷ rest) v = absurd v
read_query-query (pair name value ∷ rest) v =
    read_query-nonempty (url_escaped false name) (url_escaped false value ++ query_from 2 rest) b'='
    ∙ ap (λ s. map read_pair (split_on b'&' s))
        (sym (
          append_assoc (url_escaped false name) (b'=' ∷ url_escaped false value)
            (query_from 2 rest)))
    ∙ split-query 0 name value rest v

first_odd-none : (i : ℕ) (elements : List Element) → ArePairs elements → first_odd i elements ≡ none
unfolding first_odd
first_odd-none i [] v = refl
first_odd-none i (odd ∷ rest) v = absurd v
first_odd-none i (pair name value ∷ rest) v = first_odd-none (i + 1) rest v.2

-- For a sequence whose elements are pairs of strings of bytes, url_query answers one safe URL
-- part, and a reader that splits it at `&`, splits each piece at its first `=` and undoes the
-- percent escapes finds the same pairs in the same order.
pub html_url_query-read :
    (keys : List Key) (elements : List Element) (count : ℕ)
    → ArePairs elements
    → check_sequence (length elements) keys ≡ ok count
    → (text : List ℕ) × (html_url_query keys elements ≡ ok (query (safe url_part text)))
      × (read_query text ≡ elements)
unfolding html_url_query
html_url_query-read keys elements count v h = (
  query_from 1 elements,
  rw (html_url_query, h, first_odd-none 1 elements v) refl,
  read_query-query elements v,
)
