-- ===== src/Promises/Tree/Sorted.antt =====
-- The search of a number among the sorted entries of core/promises.c's tree, and the tree's
-- instructions with the jumps to the rules filled in.
use cosmic.Prelude.{
  ℕ, zero, suc, ◌+◌, ◌-◌, ◌≤◌, ◌<◌, ◌≡◌, refl, ap, ◌∙◌, false, Option, none, some, List, [], ◌∷◌,
  ◌++◌, arith, ◌==◌, if◌then◌else◌, length, take, drop, get_or,
}
use cosmic.Connector.Bpf.{Insn, Call, run_rest}
use cosmic.Promises.Block.{return_allow}
use cosmic.Promises.Block.Steps.{errno}
use cosmic.Promises.Rules.{Rule, rule_allow, rule_enosys, same_rule}
use cosmic.Promises.Tree.{Entry, no_entry}
use cosmic.Promises.Tree.Marks.{Mark, fixed, hole, jump}

-- The instructions of a list of marks that stands at `at`, its holes jumping to `place`.
abbrev pub filled : (Rule → ℕ) → ℕ → List Mark → List Insn
filled place at [] = []
filled place at (fixed i ∷ marks) = i ∷ filled place (suc at) marks
filled place at (hole rule ∷ marks) = jump (place rule - at - 1) ∷ filled place (suc at) marks

pub filled-append :
    (place : Rule → ℕ) (at : ℕ) (ms ns : List Mark)
    → filled place at (ms ++ ns) ≡ filled place at ms ++ filled place (at + length ms) ns
filled-append place at [] ns = ap (λ n. filled place n ns) (omega arith)
filled-append place at (fixed i ∷ ms) ns =
    ap (λ l. i ∷ l)
      (filled-append place (suc at) ms ns
        ∙ ap (λ n. filled place (suc at) ms ++ filled place n ns) (omega arith))
filled-append place at (hole rule ∷ ms) ns =
    ap (λ l. jump (place rule - at - 1) ∷ l)
      (filled-append place (suc at) ms ns
        ∙ ap (λ n. filled place (suc at) ms ++ filled place n ns) (omega arith))

pub length-filled :
    (place : Rule → ℕ) (at : ℕ) (ms : List Mark) → length (filled place at ms) ≡ length ms
length-filled place at [] = refl
length-filled place at (fixed i ∷ ms) = ap suc (length-filled place (suc at) ms)
length-filled place at (hole rule ∷ ms) = ap suc (length-filled place (suc at) ms)

-- The rule of the first entry of a number.
unfoldable pub rule_at : ℕ → List Entry → Option Rule
rule_at n [] = none
rule_at n (e ∷ entries) = if n == e.number then some e.rule else rule_at n entries

abbrev pub Above : ℕ → List Entry → Type 0
Above n [] = Unit
Above n (e ∷ entries) = (n < e.number) × Above n entries

-- In the order of their numbers, no number twice.
abbrev pub Ascending : List Entry → Type 0
Ascending [] = Unit
Ascending (e ∷ entries) = Above e.number entries × Ascending entries

-- What a number's rule leads to: an answer, or the rule's block, in what follows the tree.
abbrev pub led : Call → List Insn → ℕ → (Rule → ℕ) → ℕ → Option Rule → Option ℕ
led c rest stop place n none = some (errno 1)
led c rest stop place n (some rule) =
    if same_rule rule rule_allow
    then some return_allow
    else if same_rule rule rule_enosys
    then some (errno 38)
    else run_rest c rest (place rule - stop) n

-- Every rule that has a block has it after the tree.
abbrev pub Later : ℕ → (Rule → ℕ) → Option Rule → Type 0
Later stop place none = Unit
Later stop place (some rule) =
    same_rule rule rule_allow ≡ false → same_rule rule rule_enosys ≡ false → stop ≤ place rule

pub Above-weaken : (m n : ℕ) (entries : List Entry) → m ≤ n → Above n entries → Above m entries
Above-weaken m n [] le above = tt
Above-weaken m n (e ∷ entries) le above = (omega arith, Above-weaken m n entries le above.1)

pub Above-take : (n k : ℕ) (entries : List Entry) → Above n entries → Above n (take k entries)
Above-take n zero entries above = tt
Above-take n (suc k) [] above = tt
Above-take n (suc k) (e ∷ entries) above = (above.0, Above-take n k entries above.1)

pub Ascending-take : (k : ℕ) (entries : List Entry) → Ascending entries → Ascending (take k entries)
Ascending-take zero entries sorted = tt
Ascending-take (suc k) [] sorted = tt
Ascending-take (suc k) (e ∷ entries) sorted =
    (Above-take e.number k entries sorted.0, Ascending-take k entries sorted.1)

pub Ascending-drop : (k : ℕ) (entries : List Entry) → Ascending entries → Ascending (drop k entries)
Ascending-drop zero entries sorted = sorted
Ascending-drop (suc k) [] sorted = tt
Ascending-drop (suc k) (e ∷ entries) sorted = Ascending-drop k entries sorted.1

-- No entry above a number has it.
pub rule_at-Above :
    (n m : ℕ) (entries : List Entry) → n ≤ m → Above m entries → rule_at n entries ≡ none
unfolding rule_at
rule_at-Above n m [] le above = refl
rule_at-Above n m (e ∷ entries) le above = ground (arith, rule_at-Above n m entries)

pub Above-get_or :
    (n k : ℕ) (entries : List Entry)
    → k < length entries
    → Above n entries
    → n < (get_or entries k no_entry).number
Above-get_or n k [] short above = absurd (omega arith)
Above-get_or n zero (e ∷ entries) short above = above.0
Above-get_or n (suc k) (e ∷ entries) short above = Above-get_or n k entries (omega arith) above.1

-- The entries from the middle one on hold a number that is not below the middle one's.
pub rule_at-drop :
    (n k : ℕ) (entries : List Entry)
    → k < length entries
    → Ascending entries
    → (get_or entries k no_entry).number ≤ n
    → rule_at n entries ≡ rule_at n (drop k entries)
unfolding rule_at
rule_at-drop n zero entries short sorted le = refl
rule_at-drop n (suc k) [] short sorted le = refl
rule_at-drop n (suc k) (e ∷ entries) short sorted le =
    let later = Above-get_or e.number k entries (omega arith) sorted.0 in
    let more = rule_at-drop n k entries (omega arith) sorted.1 le in ground arith

-- And the others one that is.
pub rule_at-take :
    (n k : ℕ) (entries : List Entry)
    → k < length entries
    → Ascending entries
    → n < (get_or entries k no_entry).number
    → rule_at n entries ≡ rule_at n (take k entries)
unfolding rule_at
rule_at-take n k [] short sorted lt = absurd (omega arith)
rule_at-take n zero (e ∷ entries) short sorted lt = ground (arith, rule_at-Above n e.number entries)
rule_at-take n (suc k) (e ∷ entries) short sorted lt =
    let more = rule_at-take n k entries (omega arith) sorted.1 lt in ground arith
