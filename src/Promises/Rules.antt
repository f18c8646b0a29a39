-- ===== src/Promises/Rules.antt =====
-- enum rule of core/promises.c.
pub mod Tables
use cosmic.Prelude.{ℕ, List, [], ◌∷◌, Bool, ◌==◌}

-- How a call is granted, ordered by how much it allows.
pub data Rule : Type 0 where
  rule_none : Rule
  rule_enosys : Rule
  rule_mmap : Rule
  rule_mprotect : Rule
  rule_memfd : Rule
  rule_clone_thread : Rule
  rule_clone_fork : Rule
  rule_clone_nest : Rule
  rule_signal : Rule
  rule_pid_self_or_zero : Rule
  rule_prlimit : Rule
  rule_prlimit_nest : Rule
  rule_priority : Rule
  rule_sched_policy : Rule
  rule_madvise : Rule
  rule_fcntl : Rule
  rule_ioctl : Rule
  rule_ioctl_nest : Rule
  rule_prctl : Rule
  rule_prctl_nest : Rule
  rule_unshare_nest : Rule
  rule_socket_unix : Rule
  rule_socket_inet : Rule
  rule_socket_unix_inet : Rule
  rule_open : Rule
  rule_openat : Rule
  rule_mode1 : Rule
  rule_mode2 : Rule
  rule_mknod1 : Rule
  rule_mknod2 : Rule
  rule_allow : Rule

-- The enum's value.
unfoldable pub rank : Rule → ℕ
rank rule_none = 0
rank rule_enosys = 1
rank rule_mmap = 2
rank rule_mprotect = 3
rank rule_memfd = 4
rank rule_clone_thread = 5
rank rule_clone_fork = 6
rank rule_clone_nest = 7
rank rule_signal = 8
rank rule_pid_self_or_zero = 9
rank rule_prlimit = 10
rank rule_prlimit_nest = 11
rank rule_priority = 12
rank rule_sched_policy = 13
rank rule_madvise = 14
rank rule_fcntl = 15
rank rule_ioctl = 16
rank rule_ioctl_nest = 17
rank rule_prctl = 18
rank rule_prctl_nest = 19
rank rule_unshare_nest = 20
rank rule_socket_unix = 21
rank rule_socket_inet = 22
rank rule_socket_unix_inet = 23
rank rule_open = 24
rank rule_openat = 25
rank rule_mode1 = 26
rank rule_mode2 = 27
rank rule_mknod1 = 28
rank rule_mknod2 = 29
rank rule_allow = 30

unfoldable pub same_rule : Rule → Rule → Bool
unfolding rank
same_rule a b = rank a == rank b

-- The rules from 0 to RULE_COUNT.
abbrev pub all_rules : List Rule
all_rules =
    rule_none ∷ rule_enosys ∷ rule_mmap ∷ rule_mprotect ∷ rule_memfd ∷ rule_clone_thread
    ∷ rule_clone_fork ∷ rule_clone_nest ∷ rule_signal ∷ rule_pid_self_or_zero ∷ rule_prlimit
    ∷ rule_prlimit_nest ∷ rule_priority ∷ rule_sched_policy ∷ rule_madvise ∷ rule_fcntl ∷ rule_ioctl
    ∷ rule_ioctl_nest ∷ rule_prctl ∷ rule_prctl_nest ∷ rule_unshare_nest ∷ rule_socket_unix
    ∷ rule_socket_inet ∷ rule_socket_unix_inet ∷ rule_open ∷ rule_openat ∷ rule_mode1 ∷ rule_mode2
    ∷ rule_mknod1 ∷ rule_mknod2 ∷ rule_allow ∷ []
