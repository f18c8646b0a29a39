-- ===== src/Promises/Tree.antt =====
-- The decision tree of core/promises.c: struct entry, struct pending and tree.
pub mod Marks
pub mod Search
pub mod Sorted
use cosmic.Prelude.{
  ℕ, zero, suc, ◌+◌, ◌-◌, ◌/◌, ◌%◌, ◌^◌, Bool, true, false, Option, none, some, List, [], ◌∷◌, ◌++◌,
  leb, if◌then◌else◌, length, get_elem?, set, take, drop, get_or,
}
use cosmic.Connector.Bpf.{Insn}
use cosmic.Promises.Block.{Builder, emit, return_allow}
use cosmic.Promises.Block.Steps.{errno}
use cosmic.Promises.Rules.{Rule, rule_none, rule_enosys, rule_allow, same_rule}

-- struct entry
pub record Entry : Type 0 where
  pub number : ℕ
  pub rule : Rule

-- struct pending
pub record Pending : Type 0 where
  pub at : ℕ
  pub rule : Rule

abbrev pub leaf_run : ℕ
leaf_run = 4

-- What an array is read as past its end, which no read reaches.
abbrev pub no_entry : Entry
no_entry = record { number = 0; rule = rule_none }

-- The leaf of one entry.
unfoldable pub leaf : Builder → Entry → List Pending → Builder × List Pending
leaf b e pending =
    let (b₁, _) = emit b 0x15 0 1 e.number in
    if same_rule e.rule rule_allow
    then ((emit b₁ 0x06 0 0 return_allow).0, pending)
    else if same_rule e.rule rule_enosys
    then ((emit b₁ 0x06 0 0 (errno 38)).0, pending)
    else let (b₂, at) = emit b₁ 0x05 0 0 0 in
      (b₂, pending ++ record { at = at; rule = e.rule } ∷ [])

unfoldable pub leaves : Builder → List Entry → List Pending → Builder × List Pending
leaves b [] pending = ((emit b 0x06 0 0 (errno 1)).0, pending)
leaves b (e ∷ entries) pending = let (b', pending') = leaf b e pending in leaves b' entries pending'

-- An instruction's operand, written in place.
unfoldable pub set_k : Builder → ℕ → ℕ → Builder
set_k b at k = elim (get_elem? b.code at) [
  | none ↦ b
  | some i ↦ record b { code = set b.code at (record i { k = k }) }
]

-- The fuel is for the halving; a call that has none left gives up, which one more than there are
-- entries never comes to.
unfoldable pub tree : ℕ → Builder → List Entry → List Pending → Builder × List Pending
tree zero b entries pending = (record b { full = true }, pending)
tree (suc fuel) b entries pending = elim (leb (length entries) leaf_run) [
  | true ↦ leaves b entries pending
  | false ↦
      let middle = length entries / 2 in
      let (b₁, _) = emit b 0x35 0 1 (get_or entries middle no_entry).number in
      let (b₂, over) = emit b₁ 0x05 0 0 0 in
      let (b₃, pending') = tree fuel b₂ (take middle entries) pending in
      let b₄ = set_k b₃ over ((length b₃.code + 2 ^ 64 - over - 1) % 2 ^ 32) in
      tree fuel b₄ (drop middle entries) pending'
]
