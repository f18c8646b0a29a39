-- ===== src/Promises/Program/Layout.antt =====
-- The program that program_for of core/promises.c makes, as a list: the head, the decision tree, and
-- the blocks of the rules.
use cosmic.Prelude.{
  ℕ, ◌+◌, ◌-◌, ◌≤◌, ◌<◌, ◌≡◌, refl, Bool, true, List, [], ◌∷◌, ◌++◌, map, arith, length,
  length-append, length-map,
}
use cosmic.Connector.Bpf.{Insn}
use cosmic.Promises.Block.{insn, emit}
use cosmic.Promises.Block.Performed.{ready}
use cosmic.Promises.Block.Steps.{errno}
use cosmic.Promises.Rules.{Rule, all_rules}
use cosmic.Promises.Tree.{Entry}
use cosmic.Promises.Tree.Marks.{Mark, erased, holes, tree_marks, tree_lem}
use cosmic.Promises.Tree.Sorted.{filled, length-filled}
use cosmic.Promises.Program.{
  audit_of, numbers_of, promise_calls_reviewed, rules_for, entries_for, head, needed, program_for,
  assemble,
}
use cosmic.Promises.Program.Entries.{length-entries_for}
use cosmic.Promises.Program.Holes.{length-tree_marks, point_tree}
use cosmic.Promises.Program.Places.{
  placed, blocks_code, blocks_lem, length-blocks_code, has_all, has, placed_inside,
}

abbrev pub head_code : Bool → List Insn
head_code arm =
    insn 0x20 0 0 4
    ∷ insn 0x15 1 0 (audit_of arm)
    ∷ insn 0x06 0 0 0x80000000
    ∷ insn 0x20 0 0 0
    ∷ insn 0x25 0 1 (promise_calls_reviewed - 1)
    ∷ insn 0x06 0 0 (errno 38)
    ∷ []

head_lem : (arm : Bool) → head (ready []) arm ≡ ready (head_code arm)
unfolding head emit
head_lem arm = refl

module _ (arm : Bool) (entries : List Entry) (pid : ℕ) (rules : List Rule) where
  abbrev pub marks : List Mark
  marks = tree_marks (length entries + 1) entries

  abbrev pub needs : Rule → Bool
  needs = needed (holes 6 marks)

  -- Where the blocks start.
  abbrev pub base : ℕ
  base = 6 + length marks

  abbrev pub places : Rule → ℕ
  places = placed pid arm needs base (λ r. 0) rules

  abbrev pub assembled : List Insn
  assembled = head_code arm ++ (filled places 6 marks ++ blocks_code pid arm needs rules)

  pub base_small : length entries ≤ 385 → base ≤ 1549
  base_small few = omega (arith, length-tree_marks (length entries + 1) entries)

  -- Everything fits, and every jump reaches the block that it is for.
  pub assemble_lem :
      length entries ≤ 385
      → length rules ≤ 31
      → ((rule : Rule) → has rules rule ≡ true)
      → assemble (ready (head_code arm)) entries pid arm rules ≡ ready assembled
  unfolding assemble
  assemble_lem few few' all =
      let low = base_small few in
      let treed = head_code arm ++ map erased marks in
      let treed_size : length treed ≡ base = omega (arith, length-map marks erased) in
      rw (tree_lem (length entries + 1) (head_code arm) entries [] (omega arith) (omega arith)) (
        rw (blocks_lem pid arm needs treed (λ r. 0) rules (omega arith)) (
          rw treed_size (
            point_tree (head_code arm) (blocks_code pid arm needs rules) places marks (λ rule need.
              placed_inside pid arm needs rules base (λ r. 0) rule (omega arith) few' (all rule)
                need))))

-- The program is never longer than a builder holds.
pub code_fits :
    (arm : Bool) (entries : List Entry) (pid : ℕ) (rules : List Rule)
    → length entries ≤ 385
    → length rules ≤ 31
    → let code = assembled arm entries pid rules in
      (length code ≡ length code) × (0 < length code) × (length code ≤ 4096)
code_fits arm entries pid rules few few' =
    let low = base_small arm entries pid rules few in
    let filled_marks = filled (places arm entries pid rules) 6 (marks arm entries pid rules) in
    let code = blocks_code pid arm (needs arm entries pid rules) rules in
    (
      refl,
      omega arith,
      omega (
        arith,
        length-append filled_marks code,
        length-filled (places arm entries pid rules) 6 (marks arm entries pid rules),
        length-blocks_code pid arm (needs arm entries pid rules) rules,
      ),
    )

abbrev pub program_entries : Bool → ℕ → ℕ → ℕ → List Entry
program_entries arm promises sockets held =
    entries_for (rules_for promises sockets held) (numbers_of arm)

pub program_for_lem :
    (arm : Bool) (promises sockets pid held : ℕ)
    → let code = assembled arm (program_entries arm promises sockets held) pid all_rules in
      program_for arm promises sockets pid held ≡ (code, length code)
unfolding program_for
program_for_lem arm promises sockets pid held =
    let entries = program_entries arm promises sockets held in
    rw (head_lem arm) (
      rw
        (assemble_lem arm entries pid all_rules
          (length-entries_for (rules_for promises sockets held) (numbers_of arm)) (omega arith)
          has_all)
        refl)
