-- ===== src/Promises/Rules/Tables.antt =====
-- The tables of grants of core/promises.c.
use cosmic.Prelude.{List, [], ◌∷◌}
use cosmic.Promises.Calls.{Call}
use cosmic.Promises.Rules.{
  Rule, rule_enosys, rule_mmap, rule_mprotect, rule_memfd, rule_clone_thread, rule_clone_fork,
  rule_signal, rule_pid_self_or_zero, rule_prlimit, rule_prlimit_nest, rule_priority,
  rule_sched_policy, rule_madvise, rule_fcntl, rule_ioctl, rule_ioctl_nest, rule_prctl,
  rule_prctl_nest, rule_unshare_nest, rule_socket_unix, rule_open, rule_openat, rule_mode1,
  rule_mode2, rule_mknod1, rule_mknod2, rule_allow,
}

-- struct grant, and the macros A and R.
pub record Grant : Type 0 where
  pub call : Call
  pub rule : Rule

abbrev allow : Call → Grant
allow call = record { call = call; rule = rule_allow }

abbrev hold : Call → Rule → Grant
hold call rule = record { call = call; rule = rule }

-- What every program has.
unfoldable pub basics : List Grant
basics =
    hold Call.mmap rule_mmap
    ∷ hold Call.mprotect rule_mprotect
    ∷ allow Call.munmap
    ∷ allow Call.mremap
    ∷ allow Call.brk
    ∷ hold Call.madvise rule_madvise
    ∷ allow Call.mlock
    ∷ allow Call.mlock2
    ∷ allow Call.munlock
    ∷ allow Call.mlockall
    ∷ allow Call.munlockall
    ∷ allow Call.mincore
    ∷ allow Call.msync
    ∷ allow Call.membarrier
    ∷ allow Call.mseal
    ∷ allow Call.map_shadow_stack
    ∷ allow Call.cachestat
    ∷ hold Call.memfd_create rule_memfd
    ∷ allow Call.clock_gettime
    ∷ allow Call.clock_getres
    ∷ allow Call.clock_nanosleep
    ∷ allow Call.gettimeofday
    ∷ allow Call.nanosleep
    ∷ allow Call.time
    ∷ allow Call.times
    ∷ allow Call.getitimer
    ∷ allow Call.setitimer
    ∷ allow Call.alarm
    ∷ allow Call.timer_create
    ∷ allow Call.timer_settime
    ∷ allow Call.timer_gettime
    ∷ allow Call.timer_getoverrun
    ∷ allow Call.timer_delete
    ∷ allow Call.timerfd_create
    ∷ allow Call.timerfd_settime
    ∷ allow Call.timerfd_gettime
    ∷ allow Call.rt_sigaction
    ∷ allow Call.rt_sigprocmask
    ∷ allow Call.rt_sigreturn
    ∷ allow Call.rt_sigpending
    ∷ allow Call.rt_sigsuspend
    ∷ allow Call.rt_sigtimedwait
    ∷ allow Call.sigaltstack
    ∷ allow Call.signalfd
    ∷ allow Call.signalfd4
    ∷ allow Call.pause
    ∷ allow Call.restart_syscall
    ∷ hold Call.kill rule_signal
    ∷ hold Call.tgkill rule_signal
    ∷ hold Call.tkill rule_signal
    ∷ hold Call.rt_sigqueueinfo rule_signal
    ∷ hold Call.rt_tgsigqueueinfo rule_signal
    ∷ hold Call.clone rule_clone_thread
    ∷ hold Call.clone3 rule_enosys
    ∷ allow Call.set_tid_address
    ∷ allow Call.set_robust_list
    ∷ hold Call.get_robust_list rule_pid_self_or_zero
    ∷ allow Call.futex
    ∷ allow Call.futex_waitv
    ∷ allow Call.futex_wake
    ∷ allow Call.futex_wait
    ∷ allow Call.futex_requeue
    ∷ allow Call.gettid
    ∷ allow Call.getpid
    ∷ allow Call.getppid
    ∷ hold Call.getpgid rule_pid_self_or_zero
    ∷ allow Call.getpgrp
    ∷ hold Call.getsid rule_pid_self_or_zero
    ∷ allow Call.setsid
    ∷ hold Call.setpgid rule_pid_self_or_zero
    ∷ allow Call.exit
    ∷ allow Call.exit_group
    ∷ allow Call.sched_yield
    ∷ hold Call.sched_getaffinity rule_pid_self_or_zero
    ∷ hold Call.sched_setaffinity rule_pid_self_or_zero
    ∷ hold Call.sched_getparam rule_pid_self_or_zero
    ∷ hold Call.sched_setparam rule_pid_self_or_zero
    ∷ hold Call.sched_getscheduler rule_pid_self_or_zero
    ∷ hold Call.sched_setscheduler rule_sched_policy
    ∷ hold Call.sched_rr_get_interval rule_pid_self_or_zero
    ∷ hold Call.sched_getattr rule_pid_self_or_zero
    ∷ allow Call.sched_get_priority_max
    ∷ allow Call.sched_get_priority_min
    ∷ allow Call.getcpu
    ∷ hold Call.getpriority rule_priority
    ∷ hold Call.setpriority rule_priority
    ∷ allow Call.getuid
    ∷ allow Call.geteuid
    ∷ allow Call.getgid
    ∷ allow Call.getegid
    ∷ allow Call.getgroups
    ∷ allow Call.getresuid
    ∷ allow Call.getresgid
    ∷ allow Call.umask
    ∷ allow Call.uname
    ∷ allow Call.sysinfo
    ∷ allow Call.getrusage
    ∷ allow Call.getrlimit
    ∷ hold Call.prlimit64 rule_prlimit
    ∷ hold Call.prctl rule_prctl
    ∷ allow Call.arch_prctl
    ∷ allow Call.rseq
    ∷ allow Call.getrandom
    ∷ allow Call.wait4
    ∷ allow Call.waitid
    ∷ allow Call.seccomp
    ∷ allow Call.landlock_create_ruleset
    ∷ allow Call.landlock_add_rule
    ∷ allow Call.landlock_restrict_self
    ∷ allow Call.execve
    ∷ allow Call.execveat
    ∷ allow Call.read
    ∷ allow Call.write
    ∷ allow Call.readv
    ∷ allow Call.writev
    ∷ allow Call.pread64
    ∷ allow Call.pwrite64
    ∷ allow Call.preadv
    ∷ allow Call.pwritev
    ∷ allow Call.preadv2
    ∷ allow Call.pwritev2
    ∷ allow Call.close
    ∷ allow Call.close_range
    ∷ allow Call.dup
    ∷ allow Call.dup2
    ∷ allow Call.dup3
    ∷ hold Call.fcntl rule_fcntl
    ∷ hold Call.ioctl rule_ioctl
    ∷ allow Call.lseek
    ∷ allow Call.pipe
    ∷ allow Call.pipe2
    ∷ allow Call.poll
    ∷ allow Call.ppoll
    ∷ allow Call.select
    ∷ allow Call.pselect6
    ∷ allow Call.epoll_create
    ∷ allow Call.epoll_create1
    ∷ allow Call.epoll_ctl
    ∷ allow Call.epoll_wait
    ∷ allow Call.epoll_pwait
    ∷ allow Call.epoll_pwait2
    ∷ allow Call.eventfd
    ∷ allow Call.eventfd2
    ∷ allow Call.sendfile
    ∷ allow Call.splice
    ∷ allow Call.tee
    ∷ allow Call.copy_file_range
    ∷ allow Call.readahead
    ∷ allow Call.fadvise64
    ∷ allow Call.fallocate
    ∷ allow Call.fsync
    ∷ allow Call.fdatasync
    ∷ allow Call.sync_file_range
    ∷ allow Call.sync
    ∷ allow Call.syncfs
    ∷ allow Call.flock
    ∷ allow Call.ftruncate
    ∷ allow Call.truncate
    ∷ allow Call.inotify_init
    ∷ allow Call.inotify_init1
    ∷ allow Call.inotify_add_watch
    ∷ allow Call.inotify_rm_watch
    ∷ hold Call.socketpair rule_socket_unix
    ∷ allow Call.bind
    ∷ allow Call.connect
    ∷ allow Call.listen
    ∷ allow Call.accept
    ∷ allow Call.accept4
    ∷ allow Call.getsockname
    ∷ allow Call.getpeername
    ∷ allow Call.sendto
    ∷ allow Call.recvfrom
    ∷ allow Call.sendmsg
    ∷ allow Call.recvmsg
    ∷ allow Call.sendmmsg
    ∷ allow Call.recvmmsg
    ∷ allow Call.shutdown
    ∷ allow Call.setsockopt
    ∷ allow Call.getsockopt
    ∷ hold Call.open_call rule_open
    ∷ hold Call.openat rule_openat
    ∷ hold Call.creat rule_mode1
    ∷ hold Call.openat2 rule_enosys
    ∷ allow Call.stat
    ∷ allow Call.fstat
    ∷ allow Call.lstat
    ∷ allow Call.newfstatat
    ∷ allow Call.statx
    ∷ allow Call.statfs
    ∷ allow Call.fstatfs
    ∷ allow Call.access
    ∷ allow Call.faccessat
    ∷ allow Call.faccessat2
    ∷ allow Call.readlink
    ∷ allow Call.readlinkat
    ∷ allow Call.getcwd
    ∷ allow Call.chdir
    ∷ allow Call.fchdir
    ∷ allow Call.rename
    ∷ allow Call.renameat
    ∷ allow Call.renameat2
    ∷ hold Call.mkdir rule_mode1
    ∷ hold Call.mkdirat rule_mode2
    ∷ allow Call.rmdir
    ∷ allow Call.link
    ∷ allow Call.linkat
    ∷ allow Call.unlink
    ∷ allow Call.unlinkat
    ∷ allow Call.symlink
    ∷ allow Call.symlinkat
    ∷ hold Call.mknod rule_mknod1
    ∷ hold Call.mknodat rule_mknod2
    ∷ allow Call.getdents
    ∷ allow Call.getdents64
    ∷ allow Call.getxattr
    ∷ allow Call.lgetxattr
    ∷ allow Call.fgetxattr
    ∷ allow Call.listxattr
    ∷ allow Call.llistxattr
    ∷ allow Call.flistxattr
    ∷ allow Call.getxattrat
    ∷ allow Call.listxattrat
    ∷ allow Call.file_getattr
    ∷ []

-- What `nest` adds.
unfoldable pub nest_calls : List Grant
nest_calls =
    hold Call.unshare rule_unshare_nest
    ∷ allow Call.mount
    ∷ allow Call.umount2
    ∷ allow Call.pivot_root
    ∷ allow Call.mount_setattr
    ∷ allow Call.open_tree
    ∷ allow Call.move_mount
    ∷ allow Call.setrlimit
    ∷ hold Call.prlimit64 rule_prlimit_nest
    ∷ hold Call.prctl rule_prctl_nest
    ∷ allow Call.kill
    ∷ allow Call.tgkill
    ∷ allow Call.tkill
    ∷ allow Call.rt_sigqueueinfo
    ∷ allow Call.rt_tgsigqueueinfo
    ∷ hold Call.ioctl rule_ioctl_nest
    ∷ []

-- What `fork` adds.
unfoldable pub fork_calls : List Grant
fork_calls =
    allow Call.fork
    ∷ allow Call.vfork
    ∷ hold Call.clone rule_clone_fork
    ∷ allow Call.pidfd_open
    ∷ []

-- What `jit` adds.
unfoldable pub jit_calls : List Grant
jit_calls =
    allow Call.mmap
    ∷ allow Call.mprotect
    ∷ allow Call.pkey_mprotect
    ∷ allow Call.pkey_alloc
    ∷ allow Call.pkey_free
    ∷ allow Call.memfd_create
    ∷ []

-- What `fattr` adds.
unfoldable pub fattr_calls : List Grant
fattr_calls =
    hold Call.chmod rule_mode1
    ∷ hold Call.fchmod rule_mode1
    ∷ hold Call.fchmodat rule_mode2
    ∷ hold Call.fchmodat2 rule_mode2
    ∷ allow Call.chown
    ∷ allow Call.fchown
    ∷ allow Call.lchown
    ∷ allow Call.fchownat
    ∷ allow Call.utime
    ∷ allow Call.utimes
    ∷ allow Call.futimesat
    ∷ allow Call.utimensat
    ∷ allow Call.setxattr
    ∷ allow Call.lsetxattr
    ∷ allow Call.fsetxattr
    ∷ allow Call.removexattr
    ∷ allow Call.lremovexattr
    ∷ allow Call.fremovexattr
    ∷ allow Call.setxattrat
    ∷ allow Call.removexattrat
    ∷ []
