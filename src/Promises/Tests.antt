-- ===== src/Promises/Tests.antt =====
-- The theorems about core/promises.c at concrete inputs, and runs of its filter.
use cosmic.Prelude.{
  ◌++◌, Option, none, ℕ, ◌%◌, ◌^◌, ◌≤◌, ◌<◌, ◌≡◌, refl, ap, ◌∙◌, true, false, some, List, [], ◌∷◌,
  arith, if◌then◌else◌, length, ◌==◌, bit_or,
}
use cosmic.Prelude.Results.{ok}
use cosmic.Prelude.Text.{codes}
use cosmic.Connector.Bpf.{Insn, Call as Made, run, run_at, run_rest, word, step}
use cosmic.Promises.Block.{
  return_allow, rule_block, emit, finish, perform, load_step, mask_step, test_step, repoint_all,
  repoint,
}
use cosmic.Promises.Block.Performed.{ready}
use cosmic.Promises.Block.Permits.{permits, any_set, argument_of}
use cosmic.Promises.Block.Steps.{errno, rule_denial, rule_steps}
use cosmic.Promises.Calls.{Call}
use cosmic.Promises.Calls.Numbers.{x86_64_number, same_call}
use cosmic.Promises.Rules.{rule_none, rule_mmap, rule_allow, rank, same_rule}
use cosmic.Promises.Rules.Tables.{basics, nest_calls, fork_calls, jit_calls, fattr_calls}
use cosmic.Promises.Program.{
  add, raised, update, with_sockets, with_promises, with_signals, with_limits, with_pids, with_held,
  rules_for, program_for, entries_for, numbers_of, assemble, head, blocks, block_round,
  point_pending, needed, collect, entered, shift_in,
}
use cosmic.Promises.Program.Entries.{numbered}
use cosmic.Promises.Handler.{text, absent, natural, Options, promise_filter, promises_apply}
use cosmic.Promises.Handler.Answers.{
  promise_filter-errors, promises_apply-policy, failure, fault, never_large,
}
use cosmic.Promises.Handler.Asked.{Promise, fork, nest, given, promise_filter-policy}
use cosmic.Promises.Program.Entries.{entries_for-Ascending}
use cosmic.Promises.Program.Grants.{named}
use cosmic.Promises.Program.Added.{add_comm}
use cosmic.Promises.Program.Guarantees.{
  Makes, IsUngranted, mmap-never_both, ungranted-refused, rule_block-permits, program_for-fits,
}
use cosmic.Promises.Tree.{tree, leaves, leaf, set_k}
use cosmic.Promises.Tree.Sorted.{Ascending}
use cosmic.Promises.Program.Policy.{policy, answer, program_for-policy}

-- A private mapping of a file, readable and executable.
abbrev text_mmap : Made
text_mmap = record {
  number = 9;
  architecture = 0xc000003e;
  args = λ n. if n == 2 then 5 else if n == 3 then 2 else 0;
}

mapped : policy false 1 0 77 0 text_mmap ≡ return_allow
unfolding policy answer permits rules_for with_held with_promises with_sockets with_signals
    with_limits with_pids update add raised same_call x86_64_number rank same_rule basics fork_calls
    numbered
mapped = refl

-- The same, anonymous.
anonymous_refused :
    policy false 1 0 77 0
      (record text_mmap { args = λ n. if n == 2 then 5 else if n == 3 then 0x22 else 0 })
    ≡ errno 1
unfolding policy answer permits rules_for with_held with_promises with_sockets with_signals
    with_limits with_pids update add raised same_call x86_64_number rank same_rule basics fork_calls
    numbered
anonymous_refused = refl

-- A number of x32's.
x32_unknown : policy false 15 3 77 15 (record text_mmap { number = 0x40000000 }) ≡ errno 38
unfolding policy
x32_unknown = refl

program_for-policy_example :
    run text_mmap (program_for false 1 0 77 0).0 ≡ some (policy false 1 0 77 0 text_mmap)
program_for-policy_example = program_for-policy false 1 0 77 0 text_mmap

text_mmap-Makes : Makes false Call.mmap text_mmap
unfolding numbered x86_64_number
text_mmap-Makes = record { architecture = refl; reviewed = omega arith; number = refl }

text_mmap_allowed : run text_mmap (program_for false 1 0 77 0).0 ≡ some return_allow
text_mmap_allowed = program_for-policy false 1 0 77 0 text_mmap ∙ ap some mapped

mmap-never_both_example :
    (any_set (argument_of text_mmap 2) 2 ≡ false) × (any_set (argument_of text_mmap 3) 0x20 ≡ false)
mmap-never_both_example =
    mmap-never_both false 1 0 77 0 text_mmap refl text_mmap-Makes text_mmap_allowed refl

abbrev traced : Made
traced = record { number = 101; architecture = 0xc000003e; args = λ n. 0 }

traced-Makes : Makes false Call.ptrace traced
unfolding numbered x86_64_number
traced-Makes = record { architecture = refl; reviewed = omega arith; number = refl }

ptrace-IsUngranted : IsUngranted Call.ptrace
unfolding named same_call x86_64_number basics fork_calls jit_calls fattr_calls nest_calls
ptrace-IsUngranted = record {
  plain = record {
    socket = refl;
    clone = refl;
    pidfd = refl;
    rlimit = refl;
    prlimit = refl;
    pgid = refl;
    sid = refl;
    set_pgid = refl;
    caps = refl;
    fork = refl;
    fattr = refl;
    nest = refl;
  };
  basic = refl;
  jit = refl;
}

ungranted-refused_example : run traced (program_for false 15 3 77 15).0 ≡ some (errno 1)
ungranted-refused_example =
    ungranted-refused false 15 3 77 15 Call.ptrace traced ptrace-IsUngranted traced-Makes

rule_block-permits_example :
    run_rest text_mmap (rule_block (ready []) rule_mmap 77 false).code 0 9
    ≡ some (if permits rule_mmap 77 false text_mmap then return_allow else rule_denial rule_mmap)
rule_block-permits_example = rule_block-permits [] rule_mmap 77 false text_mmap 9 (omega arith)

add_comm_example :
    add (add (λ call. rule_none) fork_calls) nest_calls Call.clone
    ≡ add (add (λ call. rule_none) nest_calls) fork_calls Call.clone
add_comm_example = add_comm (λ call. rule_none) fork_calls nest_calls Call.clone

entries_for-Ascending_example : Ascending (entries_for (λ call. rule_allow) (numbers_of true))
entries_for-Ascending_example = entries_for-Ascending (λ call. rule_allow) true

program_for-fits_example :
    ((program_for true 15 3 77 15).1 ≡ length (program_for true 15 3 77 15).0)
    × (0 < (program_for true 15 3 77 15).1)
    × ((program_for true 15 3 77 15).1 ≤ 4096)
program_for-fits_example = program_for-fits true 15 3 77 15

-- `fork` and `nest`, the second with bytes after a zero, for process 77 in its own domain.
abbrev fork_and_nest : List (Promise × Option (List ℕ))
fork_and_nest = (fork, none) ∷ (nest, some (codes "x")) ∷ []

abbrev of_77 : Options
of_77 = record absent { pid = natural 77; unix = true; scoped = true }

promise_filter-policy_example :
    (code : List Insn) × (promise_filter
        (text (codes "fork") ∷ text (codes "nest" ++ 0 ∷ codes "x") ∷ [])
        (codes "aarch64")
        of_77
      ≡ ok code)
    × ((c : Made) → run c code ≡ some (policy true 9 1 77 1 c))
promise_filter-policy_example =
    promise_filter-policy fork_and_nest true none of_77 77 (given (omega arith) (omega arith))

promise_filter-errors_example :
    failure (promise_filter (text (codes "exec") ∷ []) (codes "arm") absent)
    ≡ fault (text (codes "exec") ∷ []) (codes "arm") absent.pid
promise_filter-errors_example =
    promise_filter-errors (text (codes "exec") ∷ []) (codes "arm") absent

-- A kernel that takes any filter.
abbrev takes_all : List Insn → ℕ
takes_all code = 0

applied : (promises_apply false 1 0 0 77 0 true takes_all).0 ≡ 0
unfolding promises_apply
applied = rw (never_large false 1 0 (77 % 2 ^ 32) 4) refl

promises_apply-policy_example :
    (◌≡◌ {A = ℕ} 0 0)
    × ((code : List Insn) × ((promises_apply false 1 0 0 77 0 true takes_all).1 ≡ some code)
        × (takes_all code ≡ 0)
        × ((c : Made)
            → run c code
              ≡ some (policy false 1 0 (77 % 2 ^ 32) (if true then bit_or 0 4 else 0) c)))
promises_apply-policy_example = promises_apply-policy false 1 0 0 77 0 true takes_all applied

-- The filter itself, built and run.
built_answers : run traced (program_for false 1 0 77 0).0 ≡ some (errno 1)
unfolding run run_at step word program_for assemble head tree leaves leaf set_k emit blocks
    block_round rule_block perform finish rule_steps rule_denial load_step mask_step test_step
    repoint_all repoint point_pending needed entries_for collect entered shift_in policy answer
    permits rules_for with_held with_promises with_sockets with_signals with_limits with_pids update
    add raised same_call x86_64_number rank same_rule basics fork_calls numbered
built_answers = refl
