-- ===== src/Promises/Block/Steps.antt =====
-- The tests of each rule: the calls of `load`, `mask` and `test` in rule_block of core/promises.c, in
-- their order, with the lists that allow_one_of is given.
use cosmic.Prelude.{
  ℕ, ◌+◌, ◌-◌, ◌*◌, ◌^◌, Bool, List, [], ◌∷◌, ◌++◌, if◌then◌else◌, bit_or, bit_and,
}
use cosmic.Promises.Rules.{
  Rule, rule_none, rule_enosys, rule_mmap, rule_mprotect, rule_memfd, rule_clone_thread,
  rule_clone_fork, rule_clone_nest, rule_signal, rule_pid_self_or_zero, rule_prlimit,
  rule_prlimit_nest, rule_priority, rule_sched_policy, rule_madvise, rule_fcntl, rule_ioctl,
  rule_ioctl_nest, rule_prctl, rule_prctl_nest, rule_unshare_nest, rule_socket_unix,
  rule_socket_inet, rule_socket_unix_inet, rule_open, rule_openat, rule_mode1, rule_mode2,
  rule_mknod1, rule_mknod2, rule_allow,
}

-- enum target
pub data Target : Type 0 where
  next skip allowed denied : Target

-- One call on a block.
pub data Step : Type 0 where
  load : ℕ → Step
  mask : ℕ → Step
  test : ℕ → ℕ → Target → Target → Step

abbrev pub op_eq : ℕ
op_eq = 0x15

abbrev pub op_any_set : ℕ
op_any_set = 0x45

-- DATA_ARGUMENT(n) + DATA_LOW and + DATA_HIGH
abbrev pub argument : ℕ → ℕ
argument n = 16 + 8 * n

abbrev pub argument_high : ℕ → ℕ
argument_high n = 16 + 8 * n + 4

-- RETURN_ERRNO
abbrev pub errno : ℕ → ℕ
errno number = bit_or 0x50000 number

-- The bits of 32 that a constant does not set.
abbrev pub complement : ℕ → ℕ
complement n = 2 ^ 32 - 1 - n

abbrev pub clone_namespaces : ℕ
clone_namespaces = 0x7e020000

abbrev pub clone_forbidden : ℕ
clone_forbidden = bit_or clone_namespaces (bit_or 0x2000 0x8000)

abbrev pub nest_namespaces : ℕ
nest_namespaces = 0x78020000

abbrev pub clone_forbidden_nest : ℕ
clone_forbidden_nest = bit_or (bit_and clone_namespaces (complement nest_namespaces)) 0x2000

abbrev pub clone_thread_required : ℕ
clone_thread_required = bit_or 0x100 (bit_or 0x400 (bit_or 0x800 0x10000))

abbrev pub fcntl_commands : List ℕ
fcntl_commands =
    0 ∷ 1 ∷ 2 ∷ 3 ∷ 4 ∷ 5 ∷ 6 ∷ 7 ∷ 9 ∷ 36 ∷ 37 ∷ 38 ∷ 1030 ∷ 1031 ∷ 1032 ∷ 1033 ∷ 1034 ∷ []

abbrev pub ioctl_commands : List ℕ
ioctl_commands =
    0x541b ∷ 0x5421 ∷ 0x5451 ∷ 0x5450 ∷ 0x5401 ∷ 0x5405 ∷ 0x802c542a ∷ 0x5413 ∷ 0x540f ∷ 0x5429
    ∷ 0x5411 ∷ []

abbrev pub nest_ioctl_commands : List ℕ
nest_ioctl_commands = 0x8913 ∷ 0x8914 ∷ []

abbrev pub prctl_options : List ℕ
prctl_options =
    1 ∷ 2 ∷ 3 ∷ 4 ∷ 15 ∷ 16 ∷ 21 ∷ 22 ∷ 23 ∷ 29 ∷ 30 ∷ 36 ∷ 37 ∷ 38 ∷ 39 ∷ 40 ∷ 41 ∷ 42 ∷ 65 ∷ 66
    ∷ 0x53564d41 ∷ []

abbrev pub nest_prctl_options : List ℕ
nest_prctl_options = 24 ∷ 47 ∷ []

abbrev pub sched_policies : List ℕ
sched_policies = 0 ∷ 3 ∷ 5 ∷ []

abbrev pub madvise_advice : List ℕ
madvise_advice =
    0 ∷ 1 ∷ 2 ∷ 3 ∷ 4 ∷ 8 ∷ 10 ∷ 11 ∷ 14 ∷ 15 ∷ 16 ∷ 17 ∷ 18 ∷ 19 ∷ 20 ∷ 21 ∷ 22 ∷ 23 ∷ []

unfoldable pub allow_one_of : List ℕ → List Step
allow_one_of [] = []
allow_one_of (value ∷ values) = test op_eq value allowed next ∷ allow_one_of values

-- RULE_OPEN and RULE_OPENAT, by the argument that holds the flags.
abbrev pub open_steps : ℕ → List Step
open_steps flags =
    load (argument flags)
    ∷ test op_any_set (bit_or 0x40 0x400000) next allowed
    ∷ load (argument (flags + 1))
    ∷ test op_any_set 0xe00 denied allowed
    ∷ []

-- RULE_MODE1 and RULE_MODE2
abbrev pub mode_steps : ℕ → List Step
mode_steps mode = load (argument mode) ∷ test op_any_set 0xe00 denied allowed ∷ []

-- RULE_MKNOD1 and RULE_MKNOD2
abbrev pub mknod_steps : ℕ → List Step
mknod_steps mode =
    load (argument mode)
    ∷ test op_any_set 0xe00 denied next
    ∷ mask 0xf000
    ∷ test op_eq 0 allowed next
    ∷ test op_eq 0x8000 allowed next
    ∷ test op_eq 0x1000 allowed next
    ∷ test op_eq 0xc000 allowed denied
    ∷ []

-- The switch of rule_block. `arm` is whether the architecture is aarch64.
unfoldable pub rule_steps : Rule → ℕ → Bool → List Step
unfolding allow_one_of
rule_steps rule_mmap pid arm =
    load (argument 2)
    ∷ test op_any_set 4 next allowed
    ∷ test op_any_set 2 denied next
    ∷ load (argument 3)
    ∷ test op_any_set 0x20 denied allowed
    ∷ []
rule_steps rule_mprotect pid arm =
    load (argument 2)
    ∷ (if arm
        then test op_any_set 4 next allowed
          ∷ test op_any_set 2 denied next
          ∷ test op_any_set 0x10 allowed denied
          ∷ []
        else test op_any_set 4 denied allowed ∷ [])
rule_steps rule_memfd pid arm = load (argument 1) ∷ mask 8 ∷ test op_eq 8 allowed denied ∷ []
rule_steps rule_clone_thread pid arm =
    load (argument 0)
    ∷ test op_any_set clone_forbidden denied next
    ∷ mask clone_thread_required
    ∷ test op_eq clone_thread_required allowed denied
    ∷ []
rule_steps rule_clone_fork pid arm =
    load (argument 0) ∷ test op_any_set clone_forbidden denied allowed ∷ []
rule_steps rule_clone_nest pid arm =
    load (argument 0) ∷ test op_any_set clone_forbidden_nest denied allowed ∷ []
rule_steps rule_unshare_nest pid arm =
    load (argument 0) ∷ mask (complement nest_namespaces) ∷ test op_eq 0 allowed denied ∷ []
rule_steps rule_signal pid arm = load (argument 0) ∷ test op_eq pid allowed denied ∷ []
rule_steps rule_pid_self_or_zero pid arm =
    load (argument 0) ∷ test op_eq 0 allowed next ∷ test op_eq pid allowed denied ∷ []
rule_steps rule_prlimit pid arm =
    load (argument 0)
    ∷ test op_eq 0 skip next
    ∷ test op_eq pid next denied
    ∷ load (argument 2)
    ∷ test op_eq 0 next denied
    ∷ load (argument_high 2)
    ∷ test op_eq 0 allowed denied
    ∷ []
rule_steps rule_prlimit_nest pid arm =
    load (argument 0) ∷ test op_eq 0 allowed next ∷ test op_eq pid allowed denied ∷ []
rule_steps rule_priority pid arm =
    load (argument 0)
    ∷ test op_eq 0 next denied
    ∷ load (argument 1)
    ∷ test op_eq 0 allowed denied
    ∷ []
rule_steps rule_sched_policy pid arm =
    load (argument 0)
    ∷ test op_eq 0 skip next
    ∷ test op_eq pid next denied
    ∷ load (argument 1)
    ∷ mask (complement 0x40000000)
    ∷ allow_one_of sched_policies
rule_steps rule_madvise pid arm = load (argument 2) ∷ allow_one_of madvise_advice
rule_steps rule_fcntl pid arm = load (argument 1) ∷ allow_one_of fcntl_commands
rule_steps rule_ioctl pid arm = load (argument 1) ∷ allow_one_of ioctl_commands
rule_steps rule_ioctl_nest pid arm =
    load (argument 1) ∷ (allow_one_of ioctl_commands ++ allow_one_of nest_ioctl_commands)
rule_steps rule_prctl pid arm = load (argument 0) ∷ allow_one_of prctl_options
rule_steps rule_prctl_nest pid arm =
    load (argument 0) ∷ (allow_one_of prctl_options ++ allow_one_of nest_prctl_options)
rule_steps rule_socket_unix pid arm = load (argument 0) ∷ test op_eq 1 allowed denied ∷ []
rule_steps rule_socket_inet pid arm =
    load (argument 0) ∷ test op_eq 2 allowed next ∷ test op_eq 10 allowed denied ∷ []
rule_steps rule_socket_unix_inet pid arm =
    load (argument 0)
    ∷ test op_eq 1 allowed next
    ∷ test op_eq 2 allowed next
    ∷ test op_eq 10 allowed denied
    ∷ []
rule_steps rule_open pid arm = open_steps 1
rule_steps rule_openat pid arm = open_steps 2
rule_steps rule_mode1 pid arm = mode_steps 1
rule_steps rule_mode2 pid arm = mode_steps 2
rule_steps rule_mknod1 pid arm = mknod_steps 1
rule_steps rule_mknod2 pid arm = mknod_steps 2
rule_steps rule_none pid arm = []
rule_steps rule_enosys pid arm = []
rule_steps rule_allow pid arm = []

-- What a rule's block answers where it does not allow: EPERM, and ENOTTY for ioctl.
unfoldable pub rule_denial : Rule → ℕ
rule_denial rule_ioctl = errno 25
rule_denial rule_ioctl_nest = errno 25
rule_denial _ = errno 1
