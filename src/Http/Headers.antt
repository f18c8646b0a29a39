-- ===== src/Http/Headers.antt =====
-- header_problem: a header that it passes is one line on the wire and reads back as it was given.
use cosmic.Prelude.{
  ℕ, ◌≡◌, ◌≢◌, refl, ap, ◌||◌, Option, none, some, List, [], ◌∷◌, ◌++◌, ◌==◌, arith, if◌then◌else◌,
  Bool-cases, Option-cases, inl, inr, length,
}
use cosmic.Http.{header_problem, name_problem, value_problem, name_empty}

-- The line that a header is sent as.
abbrev pub line : List ℕ → List ℕ → List ℕ → List ℕ
line name value rest = name ++ b':' ∷ b' ' ∷ (value ++ 13 ∷ 10 ∷ rest)

abbrev prepend : ℕ → Option (List ℕ × List ℕ) → Option (List ℕ × List ℕ)
prepend c none = none
prepend c (some (before, after)) = some (c ∷ before, after)

-- What a server reads up to a byte: none where a line ends first, or a NUL stands there.
pub read_until : ℕ → List ℕ → Option (List ℕ × List ℕ)
read_until stop [] = none
read_until stop (c ∷ rest) =
    let more = read_until stop rest in
    if c == stop
    then some ([], rest)
    else if c == 13 || c == 10 || c == 0
    then none
    else prepend c more

-- A server's reading of one header, and what follows its line.
pub read_header : List ℕ → Option (List ℕ × List ℕ × List ℕ)
unfolding read_until
read_header s = elim (read_until b':' s) [
  | none ↦ none
  | some (name, after) ↦ elim (after) [
    | [] ↦ none
    | c ∷ text ↦ elim (read_until 13 text) [
      | none ↦ none
      | some (value, rest) ↦ elim rest [ [] ↦ none | d ∷ others ↦ some (name, value, others) ]
    ]
  ]
]

read_until-name :
    (name after : List ℕ)
    → name_problem name ≡ none
    → read_until b':' (name ++ b':' ∷ after) ≡ some (name, after)
unfolding read_until name_problem
read_until-name [] after h = refl
read_until-name (c ∷ rest) after h = ground (arith, read_until-name rest after)

read_until-value :
    (value after : List ℕ)
    → value_problem value ≡ none
    → read_until 13 (value ++ 13 ∷ after) ≡ some (value, after)
unfolding read_until value_problem
read_until-value [] after h = refl
read_until-value (c ∷ rest) after h = ground (arith, read_until-value rest after)

parts :
    (name value : List ℕ)
    → header_problem name value ≡ none
    → (name_problem name ≡ none) × (value_problem value ≡ none) × (name ≢ [])
unfolding header_problem
parts name value h = elim (Bool-cases (length name == 0)) [
  | inl empty ↦ let no : some name_empty ≡ none = rw (header_problem, empty) at h in absurd cc
  | inr full ↦ elim (Option-cases (name_problem name)) [
    | inl fine ↦ (
      fine,
      rw (header_problem, full, fine) at h,
      λ e. let z : length name ≡ 0 = ap length e in ground arith,
    )
    | inr (p, bad) ↦ let no : some p ≡ none = rw (header_problem, full, bad) at h in absurd cc
  ]
]

-- A header in which header_problem finds nothing wrong has a name, and the line that it is sent
-- as, whatever follows it, reads back as that name and that value: no byte of it ends the name
-- or the line early.
pub header_problem-read :
    (name value rest : List ℕ)
    → header_problem name value ≡ none
    → (read_header (line name value rest) ≡ some (name, value, rest)) × (name ≢ [])
unfolding read_header
header_problem-read name value rest h =
    let (n, v, full) = parts name value h in
    (
      rw
          (
            read_header,
            read_until-name name (b' ' ∷ (value ++ 13 ∷ 10 ∷ rest)) n,
            read_until-value value (10 ∷ rest) v,
          )
          refl,
      full,
    )
