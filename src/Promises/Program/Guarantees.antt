-- ===== src/Promises/Program/Guarantees.antt =====
-- What the promises filter of core/promises.c holds a process to, whatever it promised.
use cosmic.Prelude.{
  ℕ, ◌+◌, ◌-◌, ◌≤◌, ◌<◌, ◌≡◌, refl, sym, ap, ◌∙◌, Bool, true, false, not, ◌&&◌, ◌||◌, some, List,
  [], ◌++◌, arith, ◌==◌, ltb, if◌then◌else◌, length, ==_iff,
}
use mathlib.Core.List.{append-nil}
use cosmic.Connector.Bpf.{Insn, Call as Made, low_word, run, run_rest, run_rest-append}
use cosmic.Promises.Block.{return_allow, rule_block}
use cosmic.Promises.Block.Performed.{ready, laid_block}
use cosmic.Promises.Block.Layout.{rule_block_lem}
use cosmic.Promises.Block.Permits.{permits, any_set, argument_of, rule_steps-permits}
use cosmic.Promises.Block.Verdict.{laid_block-run, rule_steps-known}
use cosmic.Promises.Block.Steps.{errno, rule_steps, rule_denial}
use cosmic.Promises.Calls.{Call, all_calls}
use cosmic.Promises.Calls.Numbers.{same_call, x86_64_number}
use cosmic.Promises.Rules.{Rule, rule_none, rule_mmap, rule_signal, rank, same_rule, all_rules}
use cosmic.Promises.Rules.Tables.{basics, nest_calls, fork_calls, jit_calls, fattr_calls}
use cosmic.Promises.Program.{
  has_bit, add, raised, rules_for, numbers_of, program_for, audit_of, promise_calls_reviewed,
}
use cosmic.Promises.Program.Entries.{numbered, granted, length-entries_for}
use cosmic.Promises.Program.Grants.{IsPlain, named, add-unnamed, rules_for-plain}
use cosmic.Promises.Program.Layout.{code_fits, program_entries, program_for_lem}
use cosmic.Promises.Program.Policy.{answer, answer_of, policy, program_for-policy}

-- The block that rule_block writes behind a program that leaves room for 26 more instructions,
-- entered with any accumulator, allows exactly the calls that the rule's description in terms
-- of their arguments permits, and answers the rule's denial to the others.
pub rule_block-permits :
    (xs : List Insn) (rule : Rule) (pid : ℕ) (arm : Bool) (c : Made) (a : ℕ)
    → length xs + 26 ≤ 4096
    → run_rest c (rule_block (ready xs) rule pid arm).code (length xs) a
      ≡ some (if permits rule pid arm c then return_allow else rule_denial rule)
rule_block-permits xs rule pid arm c a room =
    let steps = rule_steps rule pid arm in
    rw (rule_block_lem xs rule pid arm room) (
      ap (λ n. run_rest c (xs ++ laid_block steps (rule_denial rule)) n a) (omega arith)
      ∙ run_rest-append c xs (laid_block steps (rule_denial rule)) 0 a
      ∙ ap (λ l. run_rest c l 0 a) (sym (append-nil (laid_block steps (rule_denial rule))))
      ∙ laid_block-run c steps (rule_denial rule) a [] (rule_steps-known rule pid arm)
      ∙ ap some (rule_steps-permits rule pid arm c a))

-- The length that program_for returns is that of the program it wrote, is not 0, and is at most
-- 4,096.
pub program_for-fits :
    (arm : Bool) (promises sockets pid held : ℕ)
    → let program = program_for arm promises sockets pid held in
      (program.1 ≡ length program.0) × (0 < program.1) × (program.1 ≤ 4096)
program_for-fits arm promises sockets pid held =
    rw (program_for_lem arm promises sockets pid held) (
      let entries = program_entries arm promises sockets held in
      code_fits arm entries pid all_rules
        (length-entries_for (rules_for promises sockets held) (numbers_of arm)) (omega arith))

-- A call of `call` in the architecture that the filter is for.
pub record Makes (arm : Bool) (call : Call) (c : Made) : Type 0 where
  pub architecture : c.architecture ≡ audit_of arm
  pub reviewed : low_word c.number < promise_calls_reviewed
  pub number : numbered (numbers_of arm) (low_word c.number) all_calls ≡ some call

-- The policy of such a call is its rule's answer.
policy-Makes :
    (arm : Bool) (promises sockets pid held : ℕ) (call : Call) (c : Made)
    → Makes arm call c
    → policy arm promises sockets pid held c
      ≡ answer_of (granted (rules_for promises sockets held) (some call)) pid arm c
unfolding policy
policy-Makes arm promises sockets pid held call c m =
    let here : c.architecture == audit_of arm ≡ true = (==_iff _ _).1 m.architecture in
    let known : ltb (promise_calls_reviewed - 1) (low_word c.number) ≡ false =
      (let r = m.reviewed in ground arith) in
    rw (here, known, m.number) refl

-- A call that no table names, and that nothing else grants.
pub record IsUngranted (call : Call) : Type 0 where
  pub plain : IsPlain call
  pub basic : named basics call ≡ false
  pub jit : named jit_calls call ≡ false

and_false : (b c : Bool) → c ≡ false → (b && c) ≡ false
and_false true c h = h
and_false false c h = refl

none_calm : same_rule rule_none rule_signal ≡ false
unfolding same_rule
none_calm = refl

none_none : same_rule rule_none rule_none ≡ true
unfolding same_rule
none_none = refl

-- A reviewed call of the filter's architecture that no table of grants names, and whose rule
-- nothing else sets, is refused with EPERM, whatever is promised, whatever sockets are asked
-- for and whatever holds the process.
pub ungranted-refused :
    (arm : Bool) (promises sockets pid held : ℕ) (call : Call) (c : Made)
    → IsUngranted call
    → Makes arm call c
    → run c (program_for arm promises sockets pid held).0 ≡ some (errno 1)
ungranted-refused arm promises sockets pid held call c u m =
    let ruled : rules_for promises sockets held call ≡ rule_none =
      rules_for-plain call u.plain rule_none promises sockets held
        (and_false (has_bit promises 2) (named jit_calls call) u.jit) none_calm
        (add-unnamed (λ c. rule_none) basics call u.basic) in
    program_for-policy arm promises sockets pid held c
    ∙ ap some (policy-Makes arm promises sockets pid held call c m ∙ rw (ruled, none_none) refl)

mmap-IsPlain : IsPlain Call.mmap
unfolding same_call named fork_calls fattr_calls nest_calls x86_64_number
mmap-IsPlain = record {
  socket = refl;
  clone = refl;
  pidfd = refl;
  rlimit = refl;
  prlimit = refl;
  pgid = refl;
  sid = refl;
  set_pgid = refl;
  caps = refl;
  fork = refl;
  fattr = refl;
  nest = refl;
}

mmap-basic : add (λ c. rule_none) basics Call.mmap ≡ rule_mmap
unfolding add raised basics same_call x86_64_number rank
mmap-basic = refl

mmap_part : same_rule rule_mmap rule_none ≡ false
unfolding same_rule
mmap_part = refl

mmap_calm : same_rule rule_mmap rule_signal ≡ false
unfolding same_rule
mmap_calm = refl

-- What the rule of mmap answers.
mmap-answer :
    (pid : ℕ) (arm : Bool) (c : Made)
    → answer rule_mmap pid arm c ≡ return_allow
    → any_set (argument_of c 2) 4 ≡ true
    → (any_set (argument_of c 2) 2 ≡ false) × (any_set (argument_of c 3) 0x20 ≡ false)
unfolding answer permits
mmap-answer pid arm c allowed executable =
    mapped (any_set (argument_of c 2) 4) (any_set (argument_of c 2) 2)
      (any_set (argument_of c 3) 0x20) allowed executable
  where
    mapped :
        (x w a : Bool)
        → (if not x || (not w && not a) then return_allow else errno 1) ≡ return_allow
        → x ≡ true
        → (w ≡ false) × (a ≡ false)
    mapped true false false p q = (refl, refl)
    mapped true true a p q = absurd (omega (arith, p))
    mapped true false true p q = absurd (omega (arith, p))
    mapped false w a p q = absurd cc

-- Without the promise `jit`, whatever else is promised or holds the process, a reviewed call of
-- mmap of the filter's architecture that the filter allows, and whose protection has the
-- executable bit, has neither the writable bit nor the anonymous flag.
pub mmap-never_both :
    (arm : Bool) (promises sockets pid held : ℕ) (c : Made)
    → has_bit promises 2 ≡ false
    → Makes arm Call.mmap c
    → run c (program_for arm promises sockets pid held).0 ≡ some return_allow
    → any_set (argument_of c 2) 4 ≡ true
    → (any_set (argument_of c 2) 2 ≡ false) × (any_set (argument_of c 3) 0x20 ≡ false)
mmap-never_both arm promises sockets pid held c no_jit m allowed executable =
    let ruled : rules_for promises sockets held Call.mmap ≡ rule_mmap =
      rules_for-plain Call.mmap mmap-IsPlain rule_mmap promises sockets held (rw no_jit refl)
        mmap_calm mmap-basic in
    let answered : policy arm promises sockets pid held c ≡ answer rule_mmap pid arm c =
      policy-Makes arm promises sockets pid held Call.mmap c m ∙ rw (ruled, mmap_part) refl in
    let decided : policy arm promises sockets pid held c ≡ return_allow =
      some-eq (sym (program_for-policy arm promises sockets pid held c) ∙ allowed) in
    mmap-answer pid arm c (sym answered ∙ decided) executable
  where
    some-eq : {a b : ℕ} → some a ≡ some b → a ≡ b
    some-eq h = cc
