-- ===== src/Promises/Handler/Answers.antt =====
-- What promise_filter and cosmic_promises_apply of core/promises.c answer.
use cosmic.Prelude.{
  ℕ, ◌-◌, ◌%◌, ◌^◌, ◌≡◌, refl, sym, ◌∙◌, Bool, true, false, not, ◌||◌, Option, none, some, List, [],
  ◌∷◌, arith, ◌==◌, ltb, if◌then◌else◌, bit_or, Bool-cases, inl, inr, ==_iff,
}
use cosmic.Prelude.Results.{Result, ok, err, ◌>>=◌}
use cosmic.Prelude.Text.{codes}
use cosmic.Connector.Address.{same_bytes}
use cosmic.Connector.Bpf.{Insn, Call as Made, run}
use cosmic.Promises.Program.{program_for}
use cosmic.Promises.Program.Guarantees.{program_for-fits}
use cosmic.Promises.Program.Policy.{policy, program_for-policy}
use cosmic.Promises.Handler.{
  text, other, bad_promise, bad_architecture, bad_pid, too_large, missing, odd, natural,
  promise_named, c_string, Listed, Refused, bit_of, promises_from, architecture_of, PidField,
  Options, pid_of, sockets_of, held_of, promise_filter, promises_apply,
}

-- The program that is built is never refused for its size.
pub never_large :
    (arm : Bool) (promises sockets pid held : ℕ)
    → (program_for arm promises sockets pid held).1 == 0 ≡ false
never_large arm promises sockets pid held =
    let fits = program_for-fits arm promises sockets pid held in ground arith

-- The names of the promises.
abbrev is_promise : Listed → Bool
is_promise other = false
is_promise (text name) =
    same_bytes (c_string name) (codes "fork")
    || same_bytes (c_string name) (codes "jit")
    || same_bytes (c_string name) (codes "fattr")
    || same_bytes (c_string name) (codes "nest")

bit_of-is_promise : (value : Listed) → bit_of value == 0 ≡ not (is_promise value)
unfolding promise_named
bit_of-is_promise other = refl
bit_of-is_promise (text name) =
    first (same_bytes (c_string name) (codes "fork")) (same_bytes (c_string name) (codes "jit"))
      (same_bytes (c_string name) (codes "fattr")) (same_bytes (c_string name) (codes "nest"))
  where
    first :
        (a b c d : Bool)
        → (if a then 1 else if b then 2 else if c then 4 else if d then 8 else 0) == 0
          ≡ not (a || b || c || d)
    first true b c d = refl
    first false true c d = refl
    first false false true d = refl
    first false false false true = refl
    first false false false false = refl

-- A list with a value that is no promise's name.
abbrev pub any_unnamed : List Listed → Bool
any_unnamed [] = false
any_unnamed (value ∷ listed) = not (is_promise value) || any_unnamed listed

promises_from-unnamed :
    (promises : ℕ) (listed : List Listed)
    → any_unnamed listed ≡ true
    → promises_from promises listed ≡ err bad_promise
unfolding promises_from
promises_from-unnamed promises [] bad = cc
promises_from-unnamed promises (value ∷ listed) bad = elim (Bool-cases (bit_of value == 0)) [
  | inl unnamed ↦ rw unnamed refl
  | inr named ↦ rw named (
      promises_from-unnamed (bit_or promises (bit_of value)) listed
        (rw (sym (bit_of-is_promise value) ∙ named) at bad))
]

-- The promises of a list of names.
abbrev pub all_promises : ℕ → List Listed → ℕ
all_promises promises [] = promises
all_promises promises (value ∷ listed) = all_promises (bit_or promises (bit_of value)) listed

promises_from-named :
    (promises : ℕ) (listed : List Listed)
    → any_unnamed listed ≡ false
    → promises_from promises listed ≡ ok (all_promises promises listed)
unfolding promises_from
promises_from-named promises [] good = refl
promises_from-named promises (value ∷ listed) good = elim (Bool-cases (bit_of value == 0)) [
  | inl unnamed ↦ absurd (no_name (rw (sym (bit_of-is_promise value) ∙ unnamed) at good))
  | inr named ↦ rw named (
      promises_from-named (bit_or promises (bit_of value)) listed
        (rw (sym (bit_of-is_promise value) ∙ named) at good))
]
  where
    no_name : true ≡ false → ⊥
    no_name h = cc

-- Where cosmic_promises_apply answers 0, no_new_privs was set, and it gave the kernel a program
-- that the kernel took and that decides every call as the policy says, with its limits held
-- where the process lacks the capability.
pub promises_apply-policy :
    (arm : Bool) (promises sockets held pid no_new_privs : ℕ) (lacks : Bool)
    (install : List Insn → ℕ)
    → (promises_apply arm promises sockets held pid no_new_privs lacks install).0 ≡ 0
    → (no_new_privs ≡ 0)
      × ((code : List Insn) × ((promises_apply arm promises sockets held pid no_new_privs lacks
              install).1
            ≡ some code)
          × (install code ≡ 0)
          × ((c : Made)
              → run c code
                ≡ some (
                    policy arm promises sockets
                      (pid % 2 ^ 32)
                      (if lacks then bit_or held 4 else held)
                      c)))
unfolding promises_apply
promises_apply-policy arm promises sockets held pid no_new_privs lacks install done =
    let held' = if lacks then bit_or held 4 else held in
    let built = program_for arm promises sockets (pid % 2 ^ 32) held' in
    let large = never_large arm promises sockets (pid % 2 ^ 32) held' in
    elim (Bool-cases (no_new_privs == 0)) [
      | inr failed ↦ let zero : no_new_privs ≡ 0 = rw failed at done in absurd (ground arith)
      | inl set ↦
          let installed : install built.0 ≡ 0 = rw (set, large) at done in
          (
            (==_iff no_new_privs 0).0 set,
            (
              built.0,
              rw (set, large) refl,
              installed,
              λ c. program_for-policy arm promises sockets (pid % 2 ^ 32) held' c,
            ),
          )
    ]

-- What stops a call of promise_filter, if anything does.
abbrev pub failure : Result Refused (List Insn) → Option Refused
failure (ok code) = none
failure (err e) = some e

-- The first fault of its arguments: a value that is no promise, then a name that is no architecture,
-- then a pid that no process of 31 bits has.
abbrev odd_pid : PidField → Option Refused
odd_pid missing = none
odd_pid odd = some bad_pid
odd_pid (natural n) = if n == 0 || ltb (2 ^ 31 - 1) n then some bad_pid else none

abbrev pub fault : List Listed → List ℕ → PidField → Option Refused
fault listed name pid =
    if any_unnamed listed
    then some bad_promise
    else if not (
        same_bytes (c_string name) (codes "x86_64") || same_bytes (c_string name) (codes "aarch64"))
    then some bad_architecture
    else odd_pid pid

-- The last part of the call, once the promises and the architecture are known.
by_pid :
    (listed : List Listed) (options : Options) (arm : Bool) (field : PidField)
    → failure (
        pid_of field >>= λ pid.
        let built =
          program_for arm
            (all_promises 0 listed)
            (sockets_of options)
            (pid % 2 ^ 32)
            (held_of options) in
        if built.1 == 0 then err too_large else ok built.0)
      ≡ odd_pid field
unfolding pid_of
by_pid listed options arm missing =
    rw (never_large arm (all_promises 0 listed) (sockets_of options) 1 (held_of options)) refl
by_pid listed options arm odd = refl
by_pid listed options arm (natural n) = elim (Bool-cases (ltb n 1 || ltb (2 ^ 31 - 1) n)) [
  | inl out ↦ let same : (n == 0 || ltb (2 ^ 31 - 1) n) ≡ true = ground arith in rw (out, same) refl
  | inr in_range ↦
      let same : (n == 0 || ltb (2 ^ 31 - 1) n) ≡ false = ground arith in
      rw
        (
          in_range,
          same,
          never_large arm (all_promises 0 listed) (sockets_of options) (n % 2 ^ 32)
              (held_of options),
        )
        refl
]

-- A call of promise_filter fails exactly with the first fault of its arguments: a value that is
-- no promise, then a name that is no architecture, then a pid that is not between 1 and 2^31 -
-- 1; it never fails for the size of the filter.
pub promise_filter-errors :
    (listed : List Listed) (name : List ℕ) (options : Options)
    → failure (promise_filter listed name options) ≡ fault listed name options.pid
unfolding promise_filter architecture_of
promise_filter-errors listed name options = elim (Bool-cases (any_unnamed listed)) [
  | inl bad ↦ rw (promises_from-unnamed 0 listed bad, bad, promise_filter) refl
  | inr good ↦ elim (Bool-cases (same_bytes (c_string name) (codes "x86_64"))) [
    | inl x86 ↦
        rw (promises_from-named 0 listed good, good, promise_filter, architecture_of, x86)
          (by_pid listed options false options.pid)
    | inr not_x86 ↦ elim (Bool-cases (same_bytes (c_string name) (codes "aarch64"))) [
      | inl arm ↦
          rw
            (promises_from-named 0 listed good, good, promise_filter, architecture_of, not_x86, arm)
            (by_pid listed options true options.pid)
      | inr neither ↦
          rw
            (
              promises_from-named 0 listed good,
              good,
              promise_filter,
              architecture_of,
              not_x86,
              neither,
            )
            refl
    ]
  ]
]
