-- ===== src/Promises/Handler.antt =====
-- cosmic_promise_named, promise_filter and cosmic_promises_apply of core/promises.c: what a program
-- asks for, and the filter that it is given.
pub mod Answers
pub mod Asked
use cosmic.Prelude.{
  ℕ, ◌-◌, ◌%◌, ◌^◌, ◌≡◌, refl, sym, ◌∙◌, Bool, true, false, not, ◌||◌, Option, none, some, List, [],
  ◌∷◌, arith, ◌==◌, ltb, if◌then◌else◌, bit_or, Bool-cases, inl, inr, ==_iff,
}
use cosmic.Prelude.Results.{Result, ok, err, ◌>>=◌}
use cosmic.Prelude.Text.{codes}
use cosmic.Connector.Address.{same_bytes}
use cosmic.Connector.Bpf.{Insn, Call as Made, run}
use cosmic.Promises.Program.{program_for}
use cosmic.Promises.Program.Guarantees.{program_for-fits}
use cosmic.Promises.Program.Policy.{policy, program_for-policy}

-- cosmic_promise_named: the promise's bit, or 0.
unfoldable pub promise_named : List ℕ → ℕ
promise_named name =
    if same_bytes name (codes "fork")
    then 1
    else if same_bytes name (codes "jit")
    then 2
    else if same_bytes name (codes "fattr")
    then 4
    else if same_bytes name (codes "nest")
    then 8
    else 0

-- A string of Lua's as C reads it: up to its first zero byte.
abbrev pub c_string : List ℕ → List ℕ
c_string [] = []
c_string (b ∷ bytes) = if b == 0 then [] else b ∷ c_string bytes

-- A value of the list, a string or not.
pub data Listed : Type 0 where
  text : List ℕ → Listed
  other : Listed

pub data Refused : Type 0 where
  bad_promise : Refused
  bad_architecture : Refused
  bad_pid : Refused
  too_large : Refused

abbrev pub bit_of : Listed → ℕ
bit_of (text name) = promise_named (c_string name)
bit_of other = 0

-- The loop over the list.
unfoldable pub promises_from : ℕ → List Listed → Result Refused ℕ
promises_from promises [] = ok promises
promises_from promises (value ∷ listed) =
    let more = promises_from (bit_or promises (bit_of value)) listed in
    if bit_of value == 0 then err bad_promise else more

-- Whether the architecture is aarch64.
unfoldable pub architecture_of : List ℕ → Result Refused Bool
architecture_of name =
    if same_bytes name (codes "x86_64")
    then ok false
    else if same_bytes name (codes "aarch64")
    then ok true
    else err bad_architecture

-- The field `pid` of the options. A negative integer is no natural number.
pub data PidField : Type 0 where
  missing : PidField
  natural : ℕ → PidField
  odd : PidField

pub record Options : Type 0 where
  pub pid : PidField
  pub unix : Bool
  pub inet : Bool
  pub scoped : Bool
  pub unix_held : Bool
  pub limits_held : Bool
  pub pids_held : Bool

unfoldable pub pid_of : PidField → Result Refused ℕ
pid_of missing = ok 1
pid_of odd = err bad_pid
pid_of (natural n) = if ltb n 1 || ltb (2 ^ 31 - 1) n then err bad_pid else ok n

abbrev pub bit_if : Bool → ℕ → ℕ → ℕ
bit_if set bit flags = if set then bit_or flags bit else flags

unfoldable pub sockets_of : Options → ℕ
sockets_of options = bit_if options.inet 2 (bit_if options.unix 1 0)

unfoldable pub held_of : Options → ℕ
held_of options =
    bit_if options.pids_held 8
      (bit_if options.limits_held 4 (bit_if options.unix_held 2 (bit_if options.scoped 1 0)))

-- The call's third argument, which may be left out.
abbrev pub absent : Options
absent = record {
  pid = missing;
  unix = false;
  inet = false;
  scoped = false;
  unix_held = false;
  limits_held = false;
  pids_held = false;
}

-- promise_filter, of arguments that are a table, a string, and a table or none.
unfoldable pub promise_filter : List Listed → List ℕ → Options → Result Refused (List Insn)
promise_filter listed name options = do
  promises ← promises_from 0 listed
  arm ← architecture_of (c_string name)
  pid ← pid_of options.pid
  let built = program_for arm promises (sockets_of options) (pid % 2 ^ 32) (held_of options)
  if built.1 == 0 then err too_large else ok built.0

-- cosmic_promises_apply: what it answers, and the program that it gives to the kernel. The answers of
-- its two calls of prctl are 0 or an errno.
unfoldable pub promises_apply :
    Bool → ℕ → ℕ → ℕ → ℕ → ℕ → Bool → (List Insn → ℕ) → ℕ × Option (List Insn)
promises_apply arm promises sockets held pid no_new_privs lacks_capability install =
    if not (no_new_privs == 0)
    then (no_new_privs, none)
    else (let held' = if lacks_capability then bit_or held 4 else held in
        let built = program_for arm promises sockets (pid % 2 ^ 32) held' in
        if built.1 == 0 then (28, none) else (install built.0, some built.0))
