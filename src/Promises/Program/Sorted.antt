-- ===== src/Promises/Program/Sorted.antt =====
-- The sorted array of core/promises.c's program_for, an element shifted in at a time.
use cosmic.Prelude.{
  ℕ, ◌≤◌, ◌<◌, ◌≡◌, refl, ◌∙◌, Option, none, some, List, [], ◌∷◌, arith, ◌==◌, ltb, if◌then◌else◌,
  rev_onto, Bool-cases, inl, inr,
}
use cosmic.Promises.Rules.{Rule}
use cosmic.Promises.Program.{shift_in}
use cosmic.Promises.Tree.{Entry}
use cosmic.Promises.Tree.Sorted.{rule_at, Above, Ascending}

abbrev pub Below : ℕ → List Entry → Type 0
Below n [] = Unit
Below n (e ∷ entries) = (e.number < n) × Below n entries

abbrev pub Descending : List Entry → Type 0
Descending [] = Unit
Descending (e ∷ entries) = Below e.number entries × Descending entries

pub Below-weaken : (m n : ℕ) (entries : List Entry) → m ≤ n → Below m entries → Below n entries
Below-weaken m n [] le below = tt
Below-weaken m n (e ∷ entries) le below = (omega arith, Below-weaken m n entries le below.1)

pub rule_at-Below :
    (n m : ℕ) (entries : List Entry) → m ≤ n → Below m entries → rule_at n entries ≡ none
unfolding rule_at
rule_at-Below n m [] le below = refl
rule_at-Below n m (e ∷ entries) le below = ground (arith, rule_at-Below n m entries)

pub Below-shift_in :
    (n : ℕ) (entries : List Entry) (e : Entry)
    → e.number < n
    → Below n entries
    → Below n (shift_in entries e)
unfolding shift_in
Below-shift_in n [] e lt below = (lt, tt)
Below-shift_in n (x ∷ entries) e lt below = elim (Bool-cases (ltb e.number x.number)) [
  | inl further ↦ rw further (below.0, Below-shift_in n entries e lt below.1)
  | inr here ↦ rw here (lt, below)
]

-- A new number goes where the order has it.
pub Descending-shift_in :
    (entries : List Entry) (e : Entry)
    → Descending entries
    → rule_at e.number entries ≡ none
    → Descending (shift_in entries e)
unfolding shift_in rule_at
Descending-shift_in [] e sorted fresh = (tt, tt)
Descending-shift_in (x ∷ entries) e sorted fresh = elim (Bool-cases (ltb e.number x.number)) [
  | inl further ↦ rw further (
    Below-shift_in x.number entries e (ground arith) sorted.0,
    Descending-shift_in entries e sorted.1 (ground arith),
  )
  | inr here ↦
      let above : x.number < e.number = ground arith in
      rw here ((above, Below-weaken x.number e.number entries (omega arith) sorted.0), sorted)
]

pub rule_at-shift_in :
    (n : ℕ) (entries : List Entry) (e : Entry)
    → rule_at e.number entries ≡ none
    → rule_at n (shift_in entries e) ≡ (if n == e.number then some e.rule else rule_at n entries)
unfolding shift_in rule_at
rule_at-shift_in n [] e fresh = refl
rule_at-shift_in n (x ∷ entries) e fresh = elim (Bool-cases (ltb e.number x.number)) [
  | inl further ↦ rw further (rw (rule_at-shift_in n entries e (ground arith)) (ground arith))
  | inr here ↦ rw here refl
]

-- No entry of one list is below one of another.
abbrev pub Apart : List Entry → List Entry → Type 0
Apart [] ys = Unit
Apart (x ∷ xs) ys = Above x.number ys × Apart xs ys

pub Apart-cons :
    (xs ys : List Entry) (y : Entry) → Below y.number xs → Apart xs ys → Apart xs (y ∷ ys)
Apart-cons [] ys y below apart = tt
Apart-cons (x ∷ xs) ys y below apart = ((below.0, apart.0), Apart-cons xs ys y below.1 apart.1)

pub Apart-nil : (xs : List Entry) → Apart xs []
Apart-nil [] = tt
Apart-nil (x ∷ xs) = (tt, Apart-nil xs)

-- The array the right way round.
pub Ascending-rev_onto :
    (xs ys : List Entry) → Descending xs → Ascending ys → Apart xs ys → Ascending (rev_onto xs ys)
Ascending-rev_onto [] ys down up apart = up
Ascending-rev_onto (x ∷ xs) ys down up apart =
    Ascending-rev_onto xs (x ∷ ys) down.1 (apart.0, up) (Apart-cons xs ys x down.0 apart.1)

abbrev pub or_else : Option Rule → Option Rule → Option Rule
or_else none other = other
or_else (some rule) other = some rule

pub rule_at-rev_onto :
    (n : ℕ) (xs ys : List Entry)
    → Descending xs
    → rule_at n (rev_onto xs ys) ≡ or_else (rule_at n xs) (rule_at n ys)
unfolding rule_at
rule_at-rev_onto n [] ys down = refl
rule_at-rev_onto n (x ∷ xs) ys down =
    rule_at-rev_onto n xs (x ∷ ys) down.1 ∙ elim (Bool-cases (n == x.number)) [
      | inl same ↦ rw (same, rule_at-Below n x.number xs (ground arith) down.0) refl
      | inr other ↦ rw other refl
    ]
