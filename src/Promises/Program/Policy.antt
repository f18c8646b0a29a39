-- ===== src/Promises/Program/Policy.antt =====
-- What the promises filter of core/promises.c decides of every call.
use cosmic.Prelude.{
  ℕ, ◌+◌, ◌-◌, ◌≤◌, ◌≡◌, refl, sym, ap, ◌∙◌, Bool, true, false, not, Option, none, some, List, [],
  ◌++◌, arith, ◌==◌, ltb, if◌then◌else◌, length, Bool-cases, inl, inr,
}
use mathlib.Core.List.{append-nil}
use cosmic.Connector.Bpf.{Insn, Call as Made, low_word, word, run, run_rest, run-run_rest, step}
use cosmic.Promises.Block.{return_allow}
use cosmic.Promises.Block.Permits.{permits, rule_steps-permits}
use cosmic.Promises.Block.Steps.{errno, rule_denial}
use cosmic.Promises.Calls.{all_calls}
use cosmic.Promises.Rules.{Rule, rule_allow, rule_enosys, same_rule, all_rules}
use cosmic.Promises.Tree.{Entry}
use cosmic.Promises.Tree.Sorted.{rule_at, Ascending, filled, led, Later}
use cosmic.Promises.Tree.Search.{run_tree}
use cosmic.Promises.Program.{audit_of, numbers_of, promise_calls_reviewed, rules_for, program_for}
use cosmic.Promises.Program.Entries.{numbered, granted, entries_for-Ascending, rule_at-entries_for}
use cosmic.Promises.Program.Holes.{rule_at-needed}
use cosmic.Promises.Program.Layout.{
  head_code, marks, needs, base, places, program_entries, program_for_lem,
}
use cosmic.Promises.Program.Places.{blocks_code, placed-IsPlaced, has, has_all}

-- What a rule answers a call, whole or by its arguments.
unfoldable pub answer : Rule → ℕ → Bool → Made → ℕ
unfolding permits rule_denial same_rule
answer rule pid arm c =
    if same_rule rule rule_allow
    then return_allow
    else if same_rule rule rule_enosys
    then errno 38
    else if permits rule pid arm c
    then return_allow
    else rule_denial rule

-- A call that no rule is for is refused with EPERM.
abbrev pub answer_of : Option Rule → ℕ → Bool → Made → ℕ
answer_of none pid arm c = errno 1
answer_of (some rule) pid arm c = answer rule pid arm c

-- The policy: another architecture's call kills, a number past the reviewed ones is ENOSYS, and any
-- other call is answered by the rule of the call that has the number.
unfoldable pub policy : Bool → ℕ → ℕ → ℕ → ℕ → Made → ℕ
unfolding answer rules_for numbered
policy arm promises sockets pid held c =
    if not (c.architecture == audit_of arm)
    then 0x80000000
    else if ltb (promise_calls_reviewed - 1) (low_word c.number)
    then errno 38
    else answer_of
        (granted (rules_for promises sockets held)
          (numbered (numbers_of arm) (low_word c.number) all_calls))
        pid arm c

run_head :
    (c : Made) (arm : Bool) (rest : List Insn)
    → run_rest c (head_code arm ++ rest) 0 0 ≡ (
        if not (c.architecture == audit_of arm)
        then some 0x80000000
        else if ltb (promise_calls_reviewed - 1) (low_word c.number)
        then some (errno 38)
        else run_rest c rest 0 (low_word c.number))
unfolding run_rest step word
run_head c arm rest = ground arith

module _ (c : Made) (arm : Bool) (entries : List Entry) (pid : ℕ) (rules : List Rule)
    (all : (rule : Rule) → has rules rule ≡ true) (n : ℕ) where
  abbrev place_of : Rule → ℕ
  place_of = places arm entries pid rules

  abbrev need_of : Rule → Bool
  need_of = needs arm entries pid rules

  abbrev stop : ℕ
  stop = base arm entries pid rules

  abbrev code_of : List Insn
  code_of = blocks_code pid arm need_of rules

  -- A rule's block answers as the rule permits.
  block_answer :
      (rule : Rule)
      → need_of rule ≡ true
      → (stop ≤ place_of rule)
        × (run_rest c code_of (place_of rule - stop) n
            ≡ some (if permits rule pid arm c then return_allow else rule_denial rule))
  block_answer rule need =
      let p = placed-IsPlaced pid arm need_of c [] n rules stop (λ r. 0) rule (all rule) need in
      (
        p.late,
        ap (λ l. run_rest c l (place_of rule - stop) n) (sym (append-nil code_of))
            ∙ p.runs
            ∙ ap some (rule_steps-permits rule pid arm c n),
      )

  found-Later :
      (found : Option Rule)
      → ((rule : Rule)
          → found ≡ some rule
          → same_rule rule rule_allow ≡ false
          → same_rule rule rule_enosys ≡ false
          → need_of rule ≡ true)
      → Later stop place_of found
  found-Later none needed = tt
  found-Later (some rule) needed = λ held slow. (block_answer rule (needed rule refl held slow)).0

  led_answer :
      (found : Option Rule)
      → ((rule : Rule)
          → found ≡ some rule
          → same_rule rule rule_allow ≡ false
          → same_rule rule rule_enosys ≡ false
          → need_of rule ≡ true)
      → led c code_of stop place_of n found ≡ some (answer_of found pid arm c)
  unfolding answer
  led_answer none needed = refl
  led_answer (some rule) needed = elim (Bool-cases (same_rule rule rule_allow)) [
    | inl whole ↦ rw whole refl
    | inr held ↦ elim (Bool-cases (same_rule rule rule_enosys)) [
      | inl enosys ↦ rw (held, enosys) refl
      | inr slow ↦ rw (held, slow) (block_answer rule (needed rule refl held slow)).1
    ]
  ]

  -- The tree and the blocks, run with the number in the accumulator.
  run_assembled :
      Ascending entries
      → run_rest c (filled place_of 6 (marks arm entries pid rules) ++ code_of) 0 n
        ≡ some (answer_of (rule_at n entries) pid arm c)
  run_assembled sorted =
      let found = rule_at n entries in
      let needed =
        λ (rule : Rule) (is : found ≡ some rule) (held : same_rule rule rule_allow ≡ false)
            (slow : same_rule rule rule_enosys ≡ false).
          rule_at-needed (length entries + 1) 6 n entries rule is held slow in
      run_tree c place_of n (length entries + 1) entries 6 code_of sorted (found-Later found needed)
      ∙ led_answer found needed

guarded :
    (bad over : Bool) (k e y : ℕ) (x : Option ℕ)
    → x ≡ some y
    → (if bad then some k else if over then some e else x)
      ≡ some (if bad then k else if over then e else y)
guarded true over k e y x h = refl
guarded false true k e y x h = refl
guarded false false k e y x h = h

-- The promises filter, run on a call of any number, architecture and arguments, decides it as
-- the policy says, for any promises, families of sockets, pid and other holds, and on both
-- architectures: another architecture's call kills, a number past the reviewed ones is ENOSYS,
-- and any other is answered by the rule of the call that has the number, or with EPERM where
-- none has. So the filter always answers, and building it never runs out of room or of fuel.
pub program_for-policy :
    (arm : Bool) (promises sockets pid held : ℕ) (c : Made)
    → run c (program_for arm promises sockets pid held).0
      ≡ some (policy arm promises sockets pid held c)
unfolding policy
program_for-policy arm promises sockets pid held c =
    let entries = program_entries arm promises sockets held in
    let n = low_word c.number in
    let rules = rules_for promises sockets held in
    ap (λ p. run c p.0) (program_for_lem arm promises sockets pid held)
    ∙ run-run_rest c _
    ∙ run_head c arm _
    ∙ guarded (not (c.architecture == audit_of arm)) (ltb (promise_calls_reviewed - 1) n) 0x80000000
        (errno 38) _ _
        (run_assembled c arm entries pid all_rules has_all n (entries_for-Ascending rules arm)
          ∙ ap (λ found. some (answer_of found pid arm c)) (rule_at-entries_for rules arm n))
