-- ===== src/Promises/Block/Permits.antt =====
-- What each rule of core/promises.c lets a call do, read from its arguments.
use cosmic.Prelude.{
  ℕ, ◌%◌, ◌^◌, ◌≡◌, refl, Bool, true, false, not, ◌&&◌, ◌||◌, List, [], ◌∷◌, ◌++◌, arith, ◌==◌,
  if◌then◌else◌, bit_and, bit_or,
}
use cosmic.Connector.Bpf.{Call, word, low_word}
use cosmic.Promises.Block.{return_allow}
use cosmic.Promises.Block.Verdict.{meaning}
use cosmic.Promises.Block.Steps.{
  rule_steps, rule_denial, allow_one_of, complement, clone_forbidden, clone_forbidden_nest,
  clone_thread_required, nest_namespaces, fcntl_commands, ioctl_commands, nest_ioctl_commands,
  prctl_options, nest_prctl_options, sched_policies, madvise_advice,
}
use cosmic.Promises.Rules.{
  Rule, rule_none, rule_enosys, rule_mmap, rule_mprotect, rule_memfd, rule_clone_thread,
  rule_clone_fork, rule_clone_nest, rule_signal, rule_pid_self_or_zero, rule_prlimit,
  rule_prlimit_nest, rule_priority, rule_sched_policy, rule_madvise, rule_fcntl, rule_ioctl,
  rule_ioctl_nest, rule_prctl, rule_prctl_nest, rule_unshare_nest, rule_socket_unix,
  rule_socket_inet, rule_socket_unix_inet, rule_open, rule_openat, rule_mode1, rule_mode2,
  rule_mknod1, rule_mknod2, rule_allow,
}

-- An argument, as an `int` or an `unsigned` is read from it.
abbrev pub argument_of : Call → ℕ → ℕ
argument_of c n = low_word (c.args n)

abbrev pub any_set : ℕ → ℕ → Bool
any_set v bits = not (bit_and v bits == 0)

unfoldable pub one_of : List ℕ → ℕ → Bool
one_of [] v = false
one_of (value ∷ values) v = v == value || one_of values v

-- A mode with no set-id or sticky bit.
abbrev plain_mode : ℕ → Bool
plain_mode mode = not (any_set mode 0xe00)

-- A call of open: its mode counts only where it creates a file.
abbrev opens : ℕ → ℕ → Bool
opens flags mode = not (any_set flags (bit_or 0x40 0x400000)) || plain_mode mode

-- A call of mknod: a regular file, a fifo or a socket.
abbrev makes : ℕ → Bool
makes mode = plain_mode mode && one_of (0 ∷ 0x8000 ∷ 0x1000 ∷ 0xc000 ∷ []) (bit_and mode 0xf000)

unfoldable pub permits : Rule → ℕ → Bool → Call → Bool
unfolding one_of
permits rule_mmap pid arm c =
    not (any_set (argument_of c 2) 4)
    || (not (any_set (argument_of c 2) 2) && not (any_set (argument_of c 3) 0x20))
permits rule_mprotect pid arm c =
    not (any_set (argument_of c 2) 4)
    || (arm && not (any_set (argument_of c 2) 2) && any_set (argument_of c 2) 0x10)
permits rule_memfd pid arm c = bit_and (argument_of c 1) 8 == 8
permits rule_clone_thread pid arm c =
    not (any_set (argument_of c 0) clone_forbidden)
    && bit_and (argument_of c 0) clone_thread_required == clone_thread_required
permits rule_clone_fork pid arm c = not (any_set (argument_of c 0) clone_forbidden)
permits rule_clone_nest pid arm c = not (any_set (argument_of c 0) clone_forbidden_nest)
permits rule_unshare_nest pid arm c = bit_and (argument_of c 0) (complement nest_namespaces) == 0
permits rule_signal pid arm c = argument_of c 0 == pid
permits rule_pid_self_or_zero pid arm c = argument_of c 0 == 0 || argument_of c 0 == pid
permits rule_prlimit pid arm c =
    (argument_of c 0 == 0 || argument_of c 0 == pid) && c.args 2 % 2 ^ 64 == 0
permits rule_prlimit_nest pid arm c = argument_of c 0 == 0 || argument_of c 0 == pid
permits rule_priority pid arm c = argument_of c 0 == 0 && argument_of c 1 == 0
permits rule_sched_policy pid arm c =
    (argument_of c 0 == 0 || argument_of c 0 == pid)
    && one_of sched_policies (bit_and (argument_of c 1) (complement 0x40000000))
permits rule_madvise pid arm c = one_of madvise_advice (argument_of c 2)
permits rule_fcntl pid arm c = one_of fcntl_commands (argument_of c 1)
permits rule_ioctl pid arm c = one_of ioctl_commands (argument_of c 1)
permits rule_ioctl_nest pid arm c = one_of (ioctl_commands ++ nest_ioctl_commands) (argument_of c 1)
permits rule_prctl pid arm c = one_of prctl_options (argument_of c 0)
permits rule_prctl_nest pid arm c = one_of (prctl_options ++ nest_prctl_options) (argument_of c 0)
permits rule_socket_unix pid arm c = argument_of c 0 == 1
permits rule_socket_inet pid arm c = argument_of c 0 == 2 || argument_of c 0 == 10
permits rule_socket_unix_inet pid arm c =
    argument_of c 0 == 1 || argument_of c 0 == 2 || argument_of c 0 == 10
permits rule_open pid arm c = opens (argument_of c 1) (argument_of c 2)
permits rule_openat pid arm c = opens (argument_of c 2) (argument_of c 3)
permits rule_mode1 pid arm c = plain_mode (argument_of c 1)
permits rule_mode2 pid arm c = plain_mode (argument_of c 2)
permits rule_mknod1 pid arm c = makes (argument_of c 1)
permits rule_mknod2 pid arm c = makes (argument_of c 2)
permits rule_none pid arm c = false
permits rule_enosys pid arm c = false
permits rule_allow pid arm c = false

one_of-meaning :
    (c : Call) (denial : ℕ) (values : List ℕ) (v : ℕ)
    → meaning c denial (allow_one_of values) false v
      ≡ (if one_of values v then return_allow else denial)
unfolding meaning allow_one_of one_of
one_of-meaning c denial [] v = refl
one_of-meaning c denial (value ∷ values) v = ground (arith, one_of-meaning c denial values v)

sched_meaning :
    (c : Call) (denial pid v : ℕ) (values : List ℕ) (rest : Bool)
    → rest ≡ one_of values v
    → (if argument_of c 0 == 0
        then meaning c denial (allow_one_of values) false v
        else if argument_of c 0 == pid
        then meaning c denial (allow_one_of values) false v
        else denial)
      ≡ (if (argument_of c 0 == 0 || argument_of c 0 == pid) && rest then return_allow else denial)
sched_meaning c denial pid v values rest e = ground (arith, one_of-meaning c denial values v)

-- The block of each rule allows exactly what the rule permits, and answers its denial otherwise.
pub rule_steps-permits :
    (rule : Rule) (pid : ℕ) (arm : Bool) (c : Call) (a : ℕ)
    → meaning c (rule_denial rule) (rule_steps rule pid arm) false a
      ≡ (if permits rule pid arm c then return_allow else rule_denial rule)
unfolding meaning rule_steps permits word rule_denial
rule_steps-permits rule_mprotect pid true c a = ground arith
rule_steps-permits rule_mprotect pid false c a = ground arith
rule_steps-permits rule_sched_policy pid arm c a =
    sched_meaning c _ pid (bit_and (argument_of c 1) (complement 0x40000000)) sched_policies _ refl
rule_steps-permits rule_madvise pid arm c a = one_of-meaning c _ madvise_advice (argument_of c 2)
rule_steps-permits rule_fcntl pid arm c a = one_of-meaning c _ fcntl_commands (argument_of c 1)
rule_steps-permits rule_ioctl pid arm c a = one_of-meaning c _ ioctl_commands (argument_of c 1)
rule_steps-permits rule_ioctl_nest pid arm c a =
    one_of-meaning c _ (ioctl_commands ++ nest_ioctl_commands) (argument_of c 1)
rule_steps-permits rule_prctl pid arm c a = one_of-meaning c _ prctl_options (argument_of c 0)
rule_steps-permits rule_prctl_nest pid arm c a =
    one_of-meaning c _ (prctl_options ++ nest_prctl_options) (argument_of c 0)
rule_steps-permits rule pid arm c a = ground arith
