-- ===== src/Promises/Program.antt =====
-- program_for of core/promises.c: the rules of every call, the entries of an architecture, and the
-- program made of them.
pub mod Entries
pub mod Sorted
pub mod Grants
pub mod Added
pub mod Guarantees
pub mod Holes
pub mod Places
pub mod Layout
pub mod Policy
use cosmic.Prelude.{
  ℕ, ◌+◌, ◌-◌, ◌%◌, ◌^◌, Bool, true, false, not, ◌&&◌, ◌||◌, Option, none, some, List, [], ◌∷◌,
  ◌==◌, ltb, if◌then◌else◌, length, bit_and, bit_or, rev_onto,
}
use cosmic.Connector.Bpf.{Insn}
use cosmic.Promises.Block.{Builder, emit, rule_block}
use cosmic.Promises.Block.Steps.{errno}
use cosmic.Promises.Calls.{Call, all_calls}
use cosmic.Promises.Calls.Numbers.{x86_64_number, aarch64_number, same_call}
use cosmic.Promises.Rules.{
  Rule, rule_none, rule_signal, rule_allow, rule_clone_nest, rule_prlimit_nest, rule_socket_unix,
  rule_socket_inet, rule_socket_unix_inet, rank, same_rule, all_rules,
}
use cosmic.Promises.Rules.Tables.{Grant, basics, nest_calls, fork_calls, jit_calls, fattr_calls}
use cosmic.Promises.Tree.{Entry, Pending, set_k, tree}

-- The array of a rule for each call.
abbrev pub RuleOf : Type 0
RuleOf = Call → Rule

-- One element, written.
unfoldable pub update : RuleOf → Call → Rule → RuleOf
update rules call rule other = if same_call other call then rule else rules other

-- One round of `add`: the call's element is written where the grant allows more.
unfoldable pub raised : RuleOf → Grant → RuleOf
raised rules g other =
    if same_call other g.call && ltb (rank (rules g.call)) (rank g.rule)
    then g.rule
    else rules other

unfoldable pub add : RuleOf → List Grant → RuleOf
add rules [] = rules
add rules (g ∷ table) = add (raised rules g) table

abbrev pub has_bit : ℕ → ℕ → Bool
has_bit flags bit = not (bit_and flags bit == 0)

-- The sockets that are asked for, or that what holds the process makes harmless.
unfoldable pub with_sockets : RuleOf → ℕ → ℕ → RuleOf
with_sockets rules sockets held =
    let sockets' = if has_bit held 2 then bit_or sockets 1 else sockets in
    if sockets' == 1
    then update rules Call.socket rule_socket_unix
    else if sockets' == 2
    then update rules Call.socket rule_socket_inet
    else if sockets' == bit_or 1 2
    then update rules Call.socket rule_socket_unix_inet
    else rules

unfoldable pub with_promises : RuleOf → ℕ → RuleOf
with_promises rules promises =
    let forked = if has_bit promises 1 then add rules fork_calls else rules in
    let jitted = if has_bit promises 2 then add forked jit_calls else forked in
    let marked = if has_bit promises 4 then add jitted fattr_calls else jitted in
    if has_bit promises 8
    then (let nested = add marked nest_calls in
        if has_bit promises 1 then update nested Call.clone rule_clone_nest else nested)
    else marked

-- Signals of any pid, where the process is in a scope that holds them.
unfoldable pub with_signals : RuleOf → RuleOf
with_signals rules =
    update (λ call. if same_rule (rules call) rule_signal then rule_allow else rules call)
      Call.pidfd_send_signal rule_allow

unfoldable pub with_limits : RuleOf → RuleOf
with_limits rules =
    let settable = update rules Call.setrlimit rule_allow in
    if ltb (rank (settable Call.prlimit64)) (rank rule_prlimit_nest)
    then update settable Call.prlimit64 rule_prlimit_nest
    else settable

unfoldable pub with_pids : RuleOf → RuleOf
with_pids rules =
    update
      (update (update (update rules Call.getpgid rule_allow) Call.getsid rule_allow) Call.setpgid
        rule_allow)
      Call.capget rule_allow

unfoldable pub with_held : RuleOf → ℕ → RuleOf
with_held rules held =
    let signalled = if has_bit held 1 then with_signals rules else rules in
    let limited = if has_bit held 4 then with_limits signalled else signalled in
    if has_bit held 8 then with_pids limited else limited

unfoldable pub rules_for : ℕ → ℕ → ℕ → RuleOf
rules_for promises sockets held =
    with_held (with_promises (with_sockets (add (λ call. rule_none) basics) sockets held) promises)
      held

abbrev pub audit_of : Bool → ℕ
audit_of arm = if arm then 0xc00000b7 else 0xc000003e

abbrev pub numbers_of : Bool → Call → Option ℕ
numbers_of arm call = if arm then aarch64_number call else some (x86_64_number call)

-- The shift of the sorted array, which is here the last element first.
unfoldable pub shift_in : List Entry → Entry → List Entry
shift_in [] e = e ∷ []
shift_in (x ∷ entries) e = if ltb e.number x.number then x ∷ shift_in entries e else e ∷ x ∷ entries

-- One round of the loop over the calls.
unfoldable pub entered : RuleOf → (Call → Option ℕ) → Call → List Entry → List Entry
entered rules numbers call entries =
    if same_rule (rules call) rule_none then entries else elim (numbers call) [
      | none ↦ entries
      | some number ↦ shift_in entries (record { number = number; rule = rules call })
    ]

unfoldable pub collect : RuleOf → (Call → Option ℕ) → List Call → List Entry → List Entry
collect rules numbers [] entries = entries
collect rules numbers (call ∷ calls) entries =
    collect rules numbers calls (entered rules numbers call entries)

-- The calls that the architecture has a number for, in number order.
unfoldable pub entries_for : RuleOf → (Call → Option ℕ) → List Entry
entries_for rules numbers = rev_onto (collect rules numbers all_calls []) []

abbrev pub promise_calls_reviewed : ℕ
promise_calls_reviewed = 472

-- The architecture's check, and the number's bound.
unfoldable pub head : Builder → Bool → Builder
head b arm =
    let (b₁, _) = emit b 0x20 0 0 4 in
    let (b₂, _) = emit b₁ 0x15 1 0 (audit_of arm) in
    let (b₃, _) = emit b₂ 0x06 0 0 0x80000000 in
    let (b₄, _) = emit b₃ 0x20 0 0 0 in
    let (b₅, _) = emit b₄ 0x25 0 1 (promise_calls_reviewed - 1) in (emit b₅ 0x06 0 0 (errno 38)).0

-- Whether a rule's block is jumped to.
unfoldable pub needed : List Pending → Rule → Bool
unfolding same_rule
needed [] rule = false
needed (p ∷ pending) rule = same_rule rule p.rule || needed pending rule

-- One round of the loop over the rules: a block that is needed, and where it goes.
unfoldable pub block_round :
    Builder → (Rule → ℕ) → (Rule → Bool) → ℕ → Bool → Rule → Builder × (Rule → ℕ)
block_round b places need pid arm rule =
    if need rule
    then (rule_block b rule pid arm, λ r. if same_rule r rule then length b.code else places r)
    else (b, places)

unfoldable pub blocks :
    Builder → (Rule → ℕ) → (Rule → Bool) → ℕ → Bool → List Rule → Builder × (Rule → ℕ)
blocks b places need pid arm [] = (b, places)
blocks b places need pid arm (rule ∷ rules) =
    let (b', places') = block_round b places need pid arm rule in
    blocks b' places' need pid arm rules

-- Each pending jump, pointed at its rule's block.
unfoldable pub point_pending : Builder → (Rule → ℕ) → List Pending → Builder
point_pending b places [] = b
point_pending b places (p ∷ pending) =
    point_pending (set_k b p.at ((places p.rule + 2 ^ 64 - p.at - 1) % 2 ^ 32)) places pending

-- The tree of the entries, the blocks of the rules that it jumps to, and the jumps.
unfoldable pub assemble : Builder → List Entry → ℕ → Bool → List Rule → Builder
assemble b entries pid arm rules =
    let (b₁, pending) = tree (length entries + 1) b entries [] in
    let (b₂, places) = blocks b₁ (λ r. 0) (needed pending) pid arm rules in
    point_pending b₂ places pending

-- The program, and how many instructions it is, or 0 where it did not fit.
unfoldable pub program_for : Bool → ℕ → ℕ → ℕ → ℕ → List Insn × ℕ
program_for arm promises sockets pid held =
    let entries = entries_for (rules_for promises sockets held) (numbers_of arm) in
    let b = assemble (head (record { code = []; full = false }) arm) entries pid arm all_rules in
    (b.code, if b.full then 0 else length b.code)
