-- ===== src/Promises/Calls.antt =====
-- enum call of core/promises.c: every call, by the name that X86_64_CALLS of core/promises_calls.h
-- gives it and in that order. `open` is a word of the language and stands as open_call.
pub mod Numbers
use cosmic.Prelude.{List, [], ◌∷◌}

pub data Call : Type 0 where
  read write open_call close stat : Call
  fstat lstat poll lseek mmap : Call
  mprotect munmap brk rt_sigaction rt_sigprocmask : Call
  rt_sigreturn ioctl pread64 pwrite64 readv : Call
  writev access pipe select sched_yield : Call
  mremap msync mincore madvise shmget : Call
  shmat shmctl dup dup2 pause : Call
  nanosleep getitimer alarm setitimer getpid : Call
  sendfile socket connect accept sendto : Call
  recvfrom sendmsg recvmsg shutdown bind : Call
  listen getsockname getpeername socketpair setsockopt : Call
  getsockopt clone fork vfork execve : Call
  exit wait4 kill uname semget : Call
  semop semctl shmdt msgget msgsnd : Call
  msgrcv msgctl fcntl flock fsync : Call
  fdatasync truncate ftruncate getdents getcwd : Call
  chdir fchdir rename mkdir rmdir : Call
  creat link unlink symlink readlink : Call
  chmod fchmod chown fchown lchown : Call
  umask gettimeofday getrlimit getrusage sysinfo : Call
  times ptrace getuid syslog getgid : Call
  setuid setgid geteuid getegid setpgid : Call
  getppid getpgrp setsid setreuid setregid : Call
  getgroups setgroups setresuid getresuid setresgid : Call
  getresgid getpgid setfsuid setfsgid getsid : Call
  capget capset rt_sigpending rt_sigtimedwait rt_sigqueueinfo : Call
  rt_sigsuspend sigaltstack utime mknod uselib : Call
  personality ustat statfs fstatfs sysfs : Call
  getpriority setpriority sched_setparam sched_getparam sched_setscheduler : Call
  sched_getscheduler sched_get_priority_max sched_get_priority_min sched_rr_get_interval mlock :
      Call
  munlock mlockall munlockall vhangup modify_ldt : Call
  pivot_root _sysctl prctl arch_prctl adjtimex : Call
  setrlimit chroot sync acct settimeofday : Call
  mount umount2 swapon swapoff reboot : Call
  sethostname setdomainname iopl ioperm create_module : Call
  init_module delete_module get_kernel_syms query_module quotactl : Call
  nfsservctl getpmsg putpmsg afs_syscall tuxcall : Call
  security gettid readahead setxattr lsetxattr : Call
  fsetxattr getxattr lgetxattr fgetxattr listxattr : Call
  llistxattr flistxattr removexattr lremovexattr fremovexattr : Call
  tkill time futex sched_setaffinity sched_getaffinity : Call
  set_thread_area io_setup io_destroy io_getevents io_submit : Call
  io_cancel get_thread_area lookup_dcookie epoll_create epoll_ctl_old : Call
  epoll_wait_old remap_file_pages getdents64 set_tid_address restart_syscall : Call
  semtimedop fadvise64 timer_create timer_settime timer_gettime : Call
  timer_getoverrun timer_delete clock_settime clock_gettime clock_getres : Call
  clock_nanosleep exit_group epoll_wait epoll_ctl tgkill : Call
  utimes vserver mbind set_mempolicy get_mempolicy : Call
  mq_open mq_unlink mq_timedsend mq_timedreceive mq_notify : Call
  mq_getsetattr kexec_load waitid add_key request_key : Call
  keyctl ioprio_set ioprio_get inotify_init inotify_add_watch : Call
  inotify_rm_watch migrate_pages openat mkdirat mknodat : Call
  fchownat futimesat newfstatat unlinkat renameat : Call
  linkat symlinkat readlinkat fchmodat faccessat : Call
  pselect6 ppoll unshare set_robust_list get_robust_list : Call
  splice tee sync_file_range vmsplice move_pages : Call
  utimensat epoll_pwait signalfd timerfd_create eventfd : Call
  fallocate timerfd_settime timerfd_gettime accept4 signalfd4 : Call
  eventfd2 epoll_create1 dup3 pipe2 inotify_init1 : Call
  preadv pwritev rt_tgsigqueueinfo perf_event_open recvmmsg : Call
  fanotify_init fanotify_mark prlimit64 name_to_handle_at open_by_handle_at : Call
  clock_adjtime syncfs sendmmsg setns getcpu : Call
  process_vm_readv process_vm_writev kcmp finit_module sched_setattr : Call
  sched_getattr renameat2 seccomp getrandom memfd_create : Call
  kexec_file_load bpf execveat userfaultfd membarrier : Call
  mlock2 copy_file_range preadv2 pwritev2 pkey_mprotect : Call
  pkey_alloc pkey_free statx io_pgetevents rseq : Call
  uretprobe uprobe pidfd_send_signal io_uring_setup io_uring_enter : Call
  io_uring_register open_tree move_mount fsopen fsconfig : Call
  fsmount fspick pidfd_open clone3 close_range : Call
  openat2 pidfd_getfd faccessat2 process_madvise epoll_pwait2 : Call
  mount_setattr quotactl_fd landlock_create_ruleset landlock_add_rule landlock_restrict_self : Call
  memfd_secret process_mrelease futex_waitv set_mempolicy_home_node cachestat : Call
  fchmodat2 map_shadow_stack futex_wake futex_wait futex_requeue : Call
  statmount listmount lsm_get_self_attr lsm_set_self_attr lsm_list_modules : Call
  mseal setxattrat getxattrat listxattrat removexattrat : Call
  open_tree_attr file_getattr file_setattr listns rseq_slice_yield : Call

-- The calls from 0 to CALL_COUNT.
abbrev pub all_calls : List Call
all_calls =
    read ∷ write ∷ open_call ∷ close ∷ stat ∷ fstat ∷ lstat ∷ poll ∷ lseek ∷ mmap ∷ mprotect
    ∷ munmap ∷ brk ∷ rt_sigaction ∷ rt_sigprocmask ∷ rt_sigreturn ∷ ioctl ∷ pread64 ∷ pwrite64
    ∷ readv ∷ writev ∷ access ∷ pipe ∷ select ∷ sched_yield ∷ mremap ∷ msync ∷ mincore ∷ madvise
    ∷ shmget ∷ shmat ∷ shmctl ∷ dup ∷ dup2 ∷ pause ∷ nanosleep ∷ getitimer ∷ alarm ∷ setitimer
    ∷ getpid ∷ sendfile ∷ socket ∷ connect ∷ accept ∷ sendto ∷ recvfrom ∷ sendmsg ∷ recvmsg
    ∷ shutdown ∷ bind ∷ listen ∷ getsockname ∷ getpeername ∷ socketpair ∷ setsockopt ∷ getsockopt
    ∷ clone ∷ fork ∷ vfork ∷ execve ∷ exit ∷ wait4 ∷ kill ∷ uname ∷ semget ∷ semop ∷ semctl ∷ shmdt
    ∷ msgget ∷ msgsnd ∷ msgrcv ∷ msgctl ∷ fcntl ∷ flock ∷ fsync ∷ fdatasync ∷ truncate ∷ ftruncate
    ∷ getdents ∷ getcwd ∷ chdir ∷ fchdir ∷ rename ∷ mkdir ∷ rmdir ∷ creat ∷ link ∷ unlink ∷ symlink
    ∷ readlink ∷ chmod ∷ fchmod ∷ chown ∷ fchown ∷ lchown ∷ umask ∷ gettimeofday ∷ getrlimit
    ∷ getrusage ∷ sysinfo ∷ times ∷ ptrace ∷ getuid ∷ syslog ∷ getgid ∷ setuid ∷ setgid ∷ geteuid
    ∷ getegid ∷ setpgid ∷ getppid ∷ getpgrp ∷ setsid ∷ setreuid ∷ setregid ∷ getgroups ∷ setgroups
    ∷ setresuid ∷ getresuid ∷ setresgid ∷ getresgid ∷ getpgid ∷ setfsuid ∷ setfsgid ∷ getsid
    ∷ capget ∷ capset ∷ rt_sigpending ∷ rt_sigtimedwait ∷ rt_sigqueueinfo ∷ rt_sigsuspend
    ∷ sigaltstack ∷ utime ∷ mknod ∷ uselib ∷ personality ∷ ustat ∷ statfs ∷ fstatfs ∷ sysfs
    ∷ getpriority ∷ setpriority ∷ sched_setparam ∷ sched_getparam ∷ sched_setscheduler
    ∷ sched_getscheduler ∷ sched_get_priority_max ∷ sched_get_priority_min ∷ sched_rr_get_interval
    ∷ mlock ∷ munlock ∷ mlockall ∷ munlockall ∷ vhangup ∷ modify_ldt ∷ pivot_root ∷ _sysctl ∷ prctl
    ∷ arch_prctl ∷ adjtimex ∷ setrlimit ∷ chroot ∷ sync ∷ acct ∷ settimeofday ∷ mount ∷ umount2
    ∷ swapon ∷ swapoff ∷ reboot ∷ sethostname ∷ setdomainname ∷ iopl ∷ ioperm ∷ create_module
    ∷ init_module ∷ delete_module ∷ get_kernel_syms ∷ query_module ∷ quotactl ∷ nfsservctl ∷ getpmsg
    ∷ putpmsg ∷ afs_syscall ∷ tuxcall ∷ security ∷ gettid ∷ readahead ∷ setxattr ∷ lsetxattr
    ∷ fsetxattr ∷ getxattr ∷ lgetxattr ∷ fgetxattr ∷ listxattr ∷ llistxattr ∷ flistxattr
    ∷ removexattr ∷ lremovexattr ∷ fremovexattr ∷ tkill ∷ time ∷ futex ∷ sched_setaffinity
    ∷ sched_getaffinity ∷ set_thread_area ∷ io_setup ∷ io_destroy ∷ io_getevents ∷ io_submit
    ∷ io_cancel ∷ get_thread_area ∷ lookup_dcookie ∷ epoll_create ∷ epoll_ctl_old ∷ epoll_wait_old
    ∷ remap_file_pages ∷ getdents64 ∷ set_tid_address ∷ restart_syscall ∷ semtimedop ∷ fadvise64
    ∷ timer_create ∷ timer_settime ∷ timer_gettime ∷ timer_getoverrun ∷ timer_delete ∷ clock_settime
    ∷ clock_gettime ∷ clock_getres ∷ clock_nanosleep ∷ exit_group ∷ epoll_wait ∷ epoll_ctl ∷ tgkill
    ∷ utimes ∷ vserver ∷ mbind ∷ set_mempolicy ∷ get_mempolicy ∷ mq_open ∷ mq_unlink ∷ mq_timedsend
    ∷ mq_timedreceive ∷ mq_notify ∷ mq_getsetattr ∷ kexec_load ∷ waitid ∷ add_key ∷ request_key
    ∷ keyctl ∷ ioprio_set ∷ ioprio_get ∷ inotify_init ∷ inotify_add_watch ∷ inotify_rm_watch
    ∷ migrate_pages ∷ openat ∷ mkdirat ∷ mknodat ∷ fchownat ∷ futimesat ∷ newfstatat ∷ unlinkat
    ∷ renameat ∷ linkat ∷ symlinkat ∷ readlinkat ∷ fchmodat ∷ faccessat ∷ pselect6 ∷ ppoll ∷ unshare
    ∷ set_robust_list ∷ get_robust_list ∷ splice ∷ tee ∷ sync_file_range ∷ vmsplice ∷ move_pages
    ∷ utimensat ∷ epoll_pwait ∷ signalfd ∷ timerfd_create ∷ eventfd ∷ fallocate ∷ timerfd_settime
    ∷ timerfd_gettime ∷ accept4 ∷ signalfd4 ∷ eventfd2 ∷ epoll_create1 ∷ dup3 ∷ pipe2
    ∷ inotify_init1 ∷ preadv ∷ pwritev ∷ rt_tgsigqueueinfo ∷ perf_event_open ∷ recvmmsg
    ∷ fanotify_init ∷ fanotify_mark ∷ prlimit64 ∷ name_to_handle_at ∷ open_by_handle_at
    ∷ clock_adjtime ∷ syncfs ∷ sendmmsg ∷ setns ∷ getcpu ∷ process_vm_readv ∷ process_vm_writev
    ∷ kcmp ∷ finit_module ∷ sched_setattr ∷ sched_getattr ∷ renameat2 ∷ seccomp ∷ getrandom
    ∷ memfd_create ∷ kexec_file_load ∷ bpf ∷ execveat ∷ userfaultfd ∷ membarrier ∷ mlock2
    ∷ copy_file_range ∷ preadv2 ∷ pwritev2 ∷ pkey_mprotect ∷ pkey_alloc ∷ pkey_free ∷ statx
    ∷ io_pgetevents ∷ rseq ∷ uretprobe ∷ uprobe ∷ pidfd_send_signal ∷ io_uring_setup
    ∷ io_uring_enter ∷ io_uring_register ∷ open_tree ∷ move_mount ∷ fsopen ∷ fsconfig ∷ fsmount
    ∷ fspick ∷ pidfd_open ∷ clone3 ∷ close_range ∷ openat2 ∷ pidfd_getfd ∷ faccessat2
    ∷ process_madvise ∷ epoll_pwait2 ∷ mount_setattr ∷ quotactl_fd ∷ landlock_create_ruleset
    ∷ landlock_add_rule ∷ landlock_restrict_self ∷ memfd_secret ∷ process_mrelease ∷ futex_waitv
    ∷ set_mempolicy_home_node ∷ cachestat ∷ fchmodat2 ∷ map_shadow_stack ∷ futex_wake ∷ futex_wait
    ∷ futex_requeue ∷ statmount ∷ listmount ∷ lsm_get_self_attr ∷ lsm_set_self_attr
    ∷ lsm_list_modules ∷ mseal ∷ setxattrat ∷ getxattrat ∷ listxattrat ∷ removexattrat
    ∷ open_tree_attr ∷ file_getattr ∷ file_setattr ∷ listns ∷ rseq_slice_yield ∷ []
