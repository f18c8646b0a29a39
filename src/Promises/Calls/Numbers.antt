-- ===== src/Promises/Calls/Numbers.antt =====
-- x86_64_numbers and aarch64_numbers of core/promises.c, from the lists of core/promises_calls.h. The
-- source stores a number plus one, and 0 for a call that the architecture has no number for.
use cosmic.Prelude.{ℕ, Bool, Option, none, some, ◌==◌}
use cosmic.Promises.Calls.{Call}

-- X86_64_CALLS: it numbers every call.
unfoldable pub x86_64_number : Call → ℕ
x86_64_number Call.read = 0
x86_64_number Call.write = 1
x86_64_number Call.open_call = 2
x86_64_number Call.close = 3
x86_64_number Call.stat = 4
x86_64_number Call.fstat = 5
x86_64_number Call.lstat = 6
x86_64_number Call.poll = 7
x86_64_number Call.lseek = 8
x86_64_number Call.mmap = 9
x86_64_number Call.mprotect = 10
x86_64_number Call.munmap = 11
x86_64_number Call.brk = 12
x86_64_number Call.rt_sigaction = 13
x86_64_number Call.rt_sigprocmask = 14
x86_64_number Call.rt_sigreturn = 15
x86_64_number Call.ioctl = 16
x86_64_number Call.pread64 = 17
x86_64_number Call.pwrite64 = 18
x86_64_number Call.readv = 19
x86_64_number Call.writev = 20
x86_64_number Call.access = 21
x86_64_number Call.pipe = 22
x86_64_number Call.select = 23
x86_64_number Call.sched_yield = 24
x86_64_number Call.mremap = 25
x86_64_number Call.msync = 26
x86_64_number Call.mincore = 27
x86_64_number Call.madvise = 28
x86_64_number Call.shmget = 29
x86_64_number Call.shmat = 30
x86_64_number Call.shmctl = 31
x86_64_number Call.dup = 32
x86_64_number Call.dup2 = 33
x86_64_number Call.pause = 34
x86_64_number Call.nanosleep = 35
x86_64_number Call.getitimer = 36
x86_64_number Call.alarm = 37
x86_64_number Call.setitimer = 38
x86_64_number Call.getpid = 39
x86_64_number Call.sendfile = 40
x86_64_number Call.socket = 41
x86_64_number Call.connect = 42
x86_64_number Call.accept = 43
x86_64_number Call.sendto = 44
x86_64_number Call.recvfrom = 45
x86_64_number Call.sendmsg = 46
x86_64_number Call.recvmsg = 47
x86_64_number Call.shutdown = 48
x86_64_number Call.bind = 49
x86_64_number Call.listen = 50
x86_64_number Call.getsockname = 51
x86_64_number Call.getpeername = 52
x86_64_number Call.socketpair = 53
x86_64_number Call.setsockopt = 54
x86_64_number Call.getsockopt = 55
x86_64_number Call.clone = 56
x86_64_number Call.fork = 57
x86_64_number Call.vfork = 58
x86_64_number Call.execve = 59
x86_64_number Call.exit = 60
x86_64_number Call.wait4 = 61
x86_64_number Call.kill = 62
x86_64_number Call.uname = 63
x86_64_number Call.semget = 64
x86_64_number Call.semop = 65
x86_64_number Call.semctl = 66
x86_64_number Call.shmdt = 67
x86_64_number Call.msgget = 68
x86_64_number Call.msgsnd = 69
x86_64_number Call.msgrcv = 70
x86_64_number Call.msgctl = 71
x86_64_number Call.fcntl = 72
x86_64_number Call.flock = 73
x86_64_number Call.fsync = 74
x86_64_number Call.fdatasync = 75
x86_64_number Call.truncate = 76
x86_64_number Call.ftruncate = 77
x86_64_number Call.getdents = 78
x86_64_number Call.getcwd = 79
x86_64_number Call.chdir = 80
x86_64_number Call.fchdir = 81
x86_64_number Call.rename = 82
x86_64_number Call.mkdir = 83
x86_64_number Call.rmdir = 84
x86_64_number Call.creat = 85
x86_64_number Call.link = 86
x86_64_number Call.unlink = 87
x86_64_number Call.symlink = 88
x86_64_number Call.readlink = 89
x86_64_number Call.chmod = 90
x86_64_number Call.fchmod = 91
x86_64_number Call.chown = 92
x86_64_number Call.fchown = 93
x86_64_number Call.lchown = 94
x86_64_number Call.umask = 95
x86_64_number Call.gettimeofday = 96
x86_64_number Call.getrlimit = 97
x86_64_number Call.getrusage = 98
x86_64_number Call.sysinfo = 99
x86_64_number Call.times = 100
x86_64_number Call.ptrace = 101
x86_64_number Call.getuid = 102
x86_64_number Call.syslog = 103
x86_64_number Call.getgid = 104
x86_64_number Call.setuid = 105
x86_64_number Call.setgid = 106
x86_64_number Call.geteuid = 107
x86_64_number Call.getegid = 108
x86_64_number Call.setpgid = 109
x86_64_number Call.getppid = 110
x86_64_number Call.getpgrp = 111
x86_64_number Call.setsid = 112
x86_64_number Call.setreuid = 113
x86_64_number Call.setregid = 114
x86_64_number Call.getgroups = 115
x86_64_number Call.setgroups = 116
x86_64_number Call.setresuid = 117
x86_64_number Call.getresuid = 118
x86_64_number Call.setresgid = 119
x86_64_number Call.getresgid = 120
x86_64_number Call.getpgid = 121
x86_64_number Call.setfsuid = 122
x86_64_number Call.setfsgid = 123
x86_64_number Call.getsid = 124
x86_64_number Call.capget = 125
x86_64_number Call.capset = 126
x86_64_number Call.rt_sigpending = 127
x86_64_number Call.rt_sigtimedwait = 128
x86_64_number Call.rt_sigqueueinfo = 129
x86_64_number Call.rt_sigsuspend = 130
x86_64_number Call.sigaltstack = 131
x86_64_number Call.utime = 132
x86_64_number Call.mknod = 133
x86_64_number Call.uselib = 134
x86_64_number Call.personality = 135
x86_64_number Call.ustat = 136
x86_64_number Call.statfs = 137
x86_64_number Call.fstatfs = 138
x86_64_number Call.sysfs = 139
x86_64_number Call.getpriority = 140
x86_64_number Call.setpriority = 141
x86_64_number Call.sched_setparam = 142
x86_64_number Call.sched_getparam = 143
x86_64_number Call.sched_setscheduler = 144
x86_64_number Call.sched_getscheduler = 145
x86_64_number Call.sched_get_priority_max = 146
x86_64_number Call.sched_get_priority_min = 147
x86_64_number Call.sched_rr_get_interval = 148
x86_64_number Call.mlock = 149
x86_64_number Call.munlock = 150
x86_64_number Call.mlockall = 151
x86_64_number Call.munlockall = 152
x86_64_number Call.vhangup = 153
x86_64_number Call.modify_ldt = 154
x86_64_number Call.pivot_root = 155
x86_64_number Call._sysctl = 156
x86_64_number Call.prctl = 157
x86_64_number Call.arch_prctl = 158
x86_64_number Call.adjtimex = 159
x86_64_number Call.setrlimit = 160
x86_64_number Call.chroot = 161
x86_64_number Call.sync = 162
x86_64_number Call.acct = 163
x86_64_number Call.settimeofday = 164
x86_64_number Call.mount = 165
x86_64_number Call.umount2 = 166
x86_64_number Call.swapon = 167
x86_64_number Call.swapoff = 168
x86_64_number Call.reboot = 169
x86_64_number Call.sethostname = 170
x86_64_number Call.setdomainname = 171
x86_64_number Call.iopl = 172
x86_64_number Call.ioperm = 173
x86_64_number Call.create_module = 174
x86_64_number Call.init_module = 175
x86_64_number Call.delete_module = 176
x86_64_number Call.get_kernel_syms = 177
x86_64_number Call.query_module = 178
x86_64_number Call.quotactl = 179
x86_64_number Call.nfsservctl = 180
x86_64_number Call.getpmsg = 181
x86_64_number Call.putpmsg = 182
x86_64_number Call.afs_syscall = 183
x86_64_number Call.tuxcall = 184
x86_64_number Call.security = 185
x86_64_number Call.gettid = 186
x86_64_number Call.readahead = 187
x86_64_number Call.setxattr = 188
x86_64_number Call.lsetxattr = 189
x86_64_number Call.fsetxattr = 190
x86_64_number Call.getxattr = 191
x86_64_number Call.lgetxattr = 192
x86_64_number Call.fgetxattr = 193
x86_64_number Call.listxattr = 194
x86_64_number Call.llistxattr = 195
x86_64_number Call.flistxattr = 196
x86_64_number Call.removexattr = 197
x86_64_number Call.lremovexattr = 198
x86_64_number Call.fremovexattr = 199
x86_64_number Call.tkill = 200
x86_64_number Call.time = 201
x86_64_number Call.futex = 202
x86_64_number Call.sched_setaffinity = 203
x86_64_number Call.sched_getaffinity = 204
x86_64_number Call.set_thread_area = 205
x86_64_number Call.io_setup = 206
x86_64_number Call.io_destroy = 207
x86_64_number Call.io_getevents = 208
x86_64_number Call.io_submit = 209
x86_64_number Call.io_cancel = 210
x86_64_number Call.get_thread_area = 211
x86_64_number Call.lookup_dcookie = 212
x86_64_number Call.epoll_create = 213
x86_64_number Call.epoll_ctl_old = 214
x86_64_number Call.epoll_wait_old = 215
x86_64_number Call.remap_file_pages = 216
x86_64_number Call.getdents64 = 217
x86_64_number Call.set_tid_address = 218
x86_64_number Call.restart_syscall = 219
x86_64_number Call.semtimedop = 220
x86_64_number Call.fadvise64 = 221
x86_64_number Call.timer_create = 222
x86_64_number Call.timer_settime = 223
x86_64_number Call.timer_gettime = 224
x86_64_number Call.timer_getoverrun = 225
x86_64_number Call.timer_delete = 226
x86_64_number Call.clock_settime = 227
x86_64_number Call.clock_gettime = 228
x86_64_number Call.clock_getres = 229
x86_64_number Call.clock_nanosleep = 230
x86_64_number Call.exit_group = 231
x86_64_number Call.epoll_wait = 232
x86_64_number Call.epoll_ctl = 233
x86_64_number Call.tgkill = 234
x86_64_number Call.utimes = 235
x86_64_number Call.vserver = 236
x86_64_number Call.mbind = 237
x86_64_number Call.set_mempolicy = 238
x86_64_number Call.get_mempolicy = 239
x86_64_number Call.mq_open = 240
x86_64_number Call.mq_unlink = 241
x86_64_number Call.mq_timedsend = 242
x86_64_number Call.mq_timedreceive = 243
x86_64_number Call.mq_notify = 244
x86_64_number Call.mq_getsetattr = 245
x86_64_number Call.kexec_load = 246
x86_64_number Call.waitid = 247
x86_64_number Call.add_key = 248
x86_64_number Call.request_key = 249
x86_64_number Call.keyctl = 250
x86_64_number Call.ioprio_set = 251
x86_64_number Call.ioprio_get = 252
x86_64_number Call.inotify_init = 253
x86_64_number Call.inotify_add_watch = 254
x86_64_number Call.inotify_rm_watch = 255
x86_64_number Call.migrate_pages = 256
x86_64_number Call.openat = 257
x86_64_number Call.mkdirat = 258
x86_64_number Call.mknodat = 259
x86_64_number Call.fchownat = 260
x86_64_number Call.futimesat = 261
x86_64_number Call.newfstatat = 262
x86_64_number Call.unlinkat = 263
x86_64_number Call.renameat = 264
x86_64_number Call.linkat = 265
x86_64_number Call.symlinkat = 266
x86_64_number Call.readlinkat = 267
x86_64_number Call.fchmodat = 268
x86_64_number Call.faccessat = 269
x86_64_number Call.pselect6 = 270
x86_64_number Call.ppoll = 271
x86_64_number Call.unshare = 272
x86_64_number Call.set_robust_list = 273
x86_64_number Call.get_robust_list = 274
x86_64_number Call.splice = 275
x86_64_number Call.tee = 276
x86_64_number Call.sync_file_range = 277
x86_64_number Call.vmsplice = 278
x86_64_number Call.move_pages = 279
x86_64_number Call.utimensat = 280
x86_64_number Call.epoll_pwait = 281
x86_64_number Call.signalfd = 282
x86_64_number Call.timerfd_create = 283
x86_64_number Call.eventfd = 284
x86_64_number Call.fallocate = 285
x86_64_number Call.timerfd_settime = 286
x86_64_number Call.timerfd_gettime = 287
x86_64_number Call.accept4 = 288
x86_64_number Call.signalfd4 = 289
x86_64_number Call.eventfd2 = 290
x86_64_number Call.epoll_create1 = 291
x86_64_number Call.dup3 = 292
x86_64_number Call.pipe2 = 293
x86_64_number Call.inotify_init1 = 294
x86_64_number Call.preadv = 295
x86_64_number Call.pwritev = 296
x86_64_number Call.rt_tgsigqueueinfo = 297
x86_64_number Call.perf_event_open = 298
x86_64_number Call.recvmmsg = 299
x86_64_number Call.fanotify_init = 300
x86_64_number Call.fanotify_mark = 301
x86_64_number Call.prlimit64 = 302
x86_64_number Call.name_to_handle_at = 303
x86_64_number Call.open_by_handle_at = 304
x86_64_number Call.clock_adjtime = 305
x86_64_number Call.syncfs = 306
x86_64_number Call.sendmmsg = 307
x86_64_number Call.setns = 308
x86_64_number Call.getcpu = 309
x86_64_number Call.process_vm_readv = 310
x86_64_number Call.process_vm_writev = 311
x86_64_number Call.kcmp = 312
x86_64_number Call.finit_module = 313
x86_64_number Call.sched_setattr = 314
x86_64_number Call.sched_getattr = 315
x86_64_number Call.renameat2 = 316
x86_64_number Call.seccomp = 317
x86_64_number Call.getrandom = 318
x86_64_number Call.memfd_create = 319
x86_64_number Call.kexec_file_load = 320
x86_64_number Call.bpf = 321
x86_64_number Call.execveat = 322
x86_64_number Call.userfaultfd = 323
x86_64_number Call.membarrier = 324
x86_64_number Call.mlock2 = 325
x86_64_number Call.copy_file_range = 326
x86_64_number Call.preadv2 = 327
x86_64_number Call.pwritev2 = 328
x86_64_number Call.pkey_mprotect = 329
x86_64_number Call.pkey_alloc = 330
x86_64_number Call.pkey_free = 331
x86_64_number Call.statx = 332
x86_64_number Call.io_pgetevents = 333
x86_64_number Call.rseq = 334
x86_64_number Call.uretprobe = 335
x86_64_number Call.uprobe = 336
x86_64_number Call.pidfd_send_signal = 424
x86_64_number Call.io_uring_setup = 425
x86_64_number Call.io_uring_enter = 426
x86_64_number Call.io_uring_register = 427
x86_64_number Call.open_tree = 428
x86_64_number Call.move_mount = 429
x86_64_number Call.fsopen = 430
x86_64_number Call.fsconfig = 431
x86_64_number Call.fsmount = 432
x86_64_number Call.fspick = 433
x86_64_number Call.pidfd_open = 434
x86_64_number Call.clone3 = 435
x86_64_number Call.close_range = 436
x86_64_number Call.openat2 = 437
x86_64_number Call.pidfd_getfd = 438
x86_64_number Call.faccessat2 = 439
x86_64_number Call.process_madvise = 440
x86_64_number Call.epoll_pwait2 = 441
x86_64_number Call.mount_setattr = 442
x86_64_number Call.quotactl_fd = 443
x86_64_number Call.landlock_create_ruleset = 444
x86_64_number Call.landlock_add_rule = 445
x86_64_number Call.landlock_restrict_self = 446
x86_64_number Call.memfd_secret = 447
x86_64_number Call.process_mrelease = 448
x86_64_number Call.futex_waitv = 449
x86_64_number Call.set_mempolicy_home_node = 450
x86_64_number Call.cachestat = 451
x86_64_number Call.fchmodat2 = 452
x86_64_number Call.map_shadow_stack = 453
x86_64_number Call.futex_wake = 454
x86_64_number Call.futex_wait = 455
x86_64_number Call.futex_requeue = 456
x86_64_number Call.statmount = 457
x86_64_number Call.listmount = 458
x86_64_number Call.lsm_get_self_attr = 459
x86_64_number Call.lsm_set_self_attr = 460
x86_64_number Call.lsm_list_modules = 461
x86_64_number Call.mseal = 462
x86_64_number Call.setxattrat = 463
x86_64_number Call.getxattrat = 464
x86_64_number Call.listxattrat = 465
x86_64_number Call.removexattrat = 466
x86_64_number Call.open_tree_attr = 467
x86_64_number Call.file_getattr = 468
x86_64_number Call.file_setattr = 469
x86_64_number Call.listns = 470
x86_64_number Call.rseq_slice_yield = 471

-- AARCH64_CALLS.
unfoldable pub aarch64_number : Call → Option ℕ
aarch64_number Call.io_setup = some 0
aarch64_number Call.io_destroy = some 1
aarch64_number Call.io_submit = some 2
aarch64_number Call.io_cancel = some 3
aarch64_number Call.io_getevents = some 4
aarch64_number Call.setxattr = some 5
aarch64_number Call.lsetxattr = some 6
aarch64_number Call.fsetxattr = some 7
aarch64_number Call.getxattr = some 8
aarch64_number Call.lgetxattr = some 9
aarch64_number Call.fgetxattr = some 10
aarch64_number Call.listxattr = some 11
aarch64_number Call.llistxattr = some 12
aarch64_number Call.flistxattr = some 13
aarch64_number Call.removexattr = some 14
aarch64_number Call.lremovexattr = some 15
aarch64_number Call.fremovexattr = some 16
aarch64_number Call.getcwd = some 17
aarch64_number Call.lookup_dcookie = some 18
aarch64_number Call.eventfd2 = some 19
aarch64_number Call.epoll_create1 = some 20
aarch64_number Call.epoll_ctl = some 21
aarch64_number Call.epoll_pwait = some 22
aarch64_number Call.dup = some 23
aarch64_number Call.dup3 = some 24
aarch64_number Call.fcntl = some 25
aarch64_number Call.inotify_init1 = some 26
aarch64_number Call.inotify_add_watch = some 27
aarch64_number Call.inotify_rm_watch = some 28
aarch64_number Call.ioctl = some 29
aarch64_number Call.ioprio_set = some 30
aarch64_number Call.ioprio_get = some 31
aarch64_number Call.flock = some 32
aarch64_number Call.mknodat = some 33
aarch64_number Call.mkdirat = some 34
aarch64_number Call.unlinkat = some 35
aarch64_number Call.symlinkat = some 36
aarch64_number Call.linkat = some 37
aarch64_number Call.renameat = some 38
aarch64_number Call.umount2 = some 39
aarch64_number Call.mount = some 40
aarch64_number Call.pivot_root = some 41
aarch64_number Call.nfsservctl = some 42
aarch64_number Call.statfs = some 43
aarch64_number Call.fstatfs = some 44
aarch64_number Call.truncate = some 45
aarch64_number Call.ftruncate = some 46
aarch64_number Call.fallocate = some 47
aarch64_number Call.faccessat = some 48
aarch64_number Call.chdir = some 49
aarch64_number Call.fchdir = some 50
aarch64_number Call.chroot = some 51
aarch64_number Call.fchmod = some 52
aarch64_number Call.fchmodat = some 53
aarch64_number Call.fchownat = some 54
aarch64_number Call.fchown = some 55
aarch64_number Call.openat = some 56
aarch64_number Call.close = some 57
aarch64_number Call.vhangup = some 58
aarch64_number Call.pipe2 = some 59
aarch64_number Call.quotactl = some 60
aarch64_number Call.getdents64 = some 61
aarch64_number Call.lseek = some 62
aarch64_number Call.read = some 63
aarch64_number Call.write = some 64
aarch64_number Call.readv = some 65
aarch64_number Call.writev = some 66
aarch64_number Call.pread64 = some 67
aarch64_number Call.pwrite64 = some 68
aarch64_number Call.preadv = some 69
aarch64_number Call.pwritev = some 70
aarch64_number Call.sendfile = some 71
aarch64_number Call.pselect6 = some 72
aarch64_number Call.ppoll = some 73
aarch64_number Call.signalfd4 = some 74
aarch64_number Call.vmsplice = some 75
aarch64_number Call.splice = some 76
aarch64_number Call.tee = some 77
aarch64_number Call.readlinkat = some 78
aarch64_number Call.newfstatat = some 79
aarch64_number Call.fstat = some 80
aarch64_number Call.sync = some 81
aarch64_number Call.fsync = some 82
aarch64_number Call.fdatasync = some 83
aarch64_number Call.sync_file_range = some 84
aarch64_number Call.timerfd_create = some 85
aarch64_number Call.timerfd_settime = some 86
aarch64_number Call.timerfd_gettime = some 87
aarch64_number Call.utimensat = some 88
aarch64_number Call.acct = some 89
aarch64_number Call.capget = some 90
aarch64_number Call.capset = some 91
aarch64_number Call.personality = some 92
aarch64_number Call.exit = some 93
aarch64_number Call.exit_group = some 94
aarch64_number Call.waitid = some 95
aarch64_number Call.set_tid_address = some 96
aarch64_number Call.unshare = some 97
aarch64_number Call.futex = some 98
aarch64_number Call.set_robust_list = some 99
aarch64_number Call.get_robust_list = some 100
aarch64_number Call.nanosleep = some 101
aarch64_number Call.getitimer = some 102
aarch64_number Call.setitimer = some 103
aarch64_number Call.kexec_load = some 104
aarch64_number Call.init_module = some 105
aarch64_number Call.delete_module = some 106
aarch64_number Call.timer_create = some 107
aarch64_number Call.timer_gettime = some 108
aarch64_number Call.timer_getoverrun = some 109
aarch64_number Call.timer_settime = some 110
aarch64_number Call.timer_delete = some 111
aarch64_number Call.clock_settime = some 112
aarch64_number Call.clock_gettime = some 113
aarch64_number Call.clock_getres = some 114
aarch64_number Call.clock_nanosleep = some 115
aarch64_number Call.syslog = some 116
aarch64_number Call.ptrace = some 117
aarch64_number Call.sched_setparam = some 118
aarch64_number Call.sched_setscheduler = some 119
aarch64_number Call.sched_getscheduler = some 120
aarch64_number Call.sched_getparam = some 121
aarch64_number Call.sched_setaffinity = some 122
aarch64_number Call.sched_getaffinity = some 123
aarch64_number Call.sched_yield = some 124
aarch64_number Call.sched_get_priority_max = some 125
aarch64_number Call.sched_get_priority_min = some 126
aarch64_number Call.sched_rr_get_interval = some 127
aarch64_number Call.restart_syscall = some 128
aarch64_number Call.kill = some 129
aarch64_number Call.tkill = some 130
aarch64_number Call.tgkill = some 131
aarch64_number Call.sigaltstack = some 132
aarch64_number Call.rt_sigsuspend = some 133
aarch64_number Call.rt_sigaction = some 134
aarch64_number Call.rt_sigprocmask = some 135
aarch64_number Call.rt_sigpending = some 136
aarch64_number Call.rt_sigtimedwait = some 137
aarch64_number Call.rt_sigqueueinfo = some 138
aarch64_number Call.rt_sigreturn = some 139
aarch64_number Call.setpriority = some 140
aarch64_number Call.getpriority = some 141
aarch64_number Call.reboot = some 142
aarch64_number Call.setregid = some 143
aarch64_number Call.setgid = some 144
aarch64_number Call.setreuid = some 145
aarch64_number Call.setuid = some 146
aarch64_number Call.setresuid = some 147
aarch64_number Call.getresuid = some 148
aarch64_number Call.setresgid = some 149
aarch64_number Call.getresgid = some 150
aarch64_number Call.setfsuid = some 151
aarch64_number Call.setfsgid = some 152
aarch64_number Call.times = some 153
aarch64_number Call.setpgid = some 154
aarch64_number Call.getpgid = some 155
aarch64_number Call.getsid = some 156
aarch64_number Call.setsid = some 157
aarch64_number Call.getgroups = some 158
aarch64_number Call.setgroups = some 159
aarch64_number Call.uname = some 160
aarch64_number Call.sethostname = some 161
aarch64_number Call.setdomainname = some 162
aarch64_number Call.getrlimit = some 163
aarch64_number Call.setrlimit = some 164
aarch64_number Call.getrusage = some 165
aarch64_number Call.umask = some 166
aarch64_number Call.prctl = some 167
aarch64_number Call.getcpu = some 168
aarch64_number Call.gettimeofday = some 169
aarch64_number Call.settimeofday = some 170
aarch64_number Call.adjtimex = some 171
aarch64_number Call.getpid = some 172
aarch64_number Call.getppid = some 173
aarch64_number Call.getuid = some 174
aarch64_number Call.geteuid = some 175
aarch64_number Call.getgid = some 176
aarch64_number Call.getegid = some 177
aarch64_number Call.gettid = some 178
aarch64_number Call.sysinfo = some 179
aarch64_number Call.mq_open = some 180
aarch64_number Call.mq_unlink = some 181
aarch64_number Call.mq_timedsend = some 182
aarch64_number Call.mq_timedreceive = some 183
aarch64_number Call.mq_notify = some 184
aarch64_number Call.mq_getsetattr = some 185
aarch64_number Call.msgget = some 186
aarch64_number Call.msgctl = some 187
aarch64_number Call.msgrcv = some 188
aarch64_number Call.msgsnd = some 189
aarch64_number Call.semget = some 190
aarch64_number Call.semctl = some 191
aarch64_number Call.semtimedop = some 192
aarch64_number Call.semop = some 193
aarch64_number Call.shmget = some 194
aarch64_number Call.shmctl = some 195
aarch64_number Call.shmat = some 196
aarch64_number Call.shmdt = some 197
aarch64_number Call.socket = some 198
aarch64_number Call.socketpair = some 199
aarch64_number Call.bind = some 200
aarch64_number Call.listen = some 201
aarch64_number Call.accept = some 202
aarch64_number Call.connect = some 203
aarch64_number Call.getsockname = some 204
aarch64_number Call.getpeername = some 205
aarch64_number Call.sendto = some 206
aarch64_number Call.recvfrom = some 207
aarch64_number Call.setsockopt = some 208
aarch64_number Call.getsockopt = some 209
aarch64_number Call.shutdown = some 210
aarch64_number Call.sendmsg = some 211
aarch64_number Call.recvmsg = some 212
aarch64_number Call.readahead = some 213
aarch64_number Call.brk = some 214
aarch64_number Call.munmap = some 215
aarch64_number Call.mremap = some 216
aarch64_number Call.add_key = some 217
aarch64_number Call.request_key = some 218
aarch64_number Call.keyctl = some 219
aarch64_number Call.clone = some 220
aarch64_number Call.execve = some 221
aarch64_number Call.mmap = some 222
aarch64_number Call.fadvise64 = some 223
aarch64_number Call.swapon = some 224
aarch64_number Call.swapoff = some 225
aarch64_number Call.mprotect = some 226
aarch64_number Call.msync = some 227
aarch64_number Call.mlock = some 228
aarch64_number Call.munlock = some 229
aarch64_number Call.mlockall = some 230
aarch64_number Call.munlockall = some 231
aarch64_number Call.mincore = some 232
aarch64_number Call.madvise = some 233
aarch64_number Call.remap_file_pages = some 234
aarch64_number Call.mbind = some 235
aarch64_number Call.get_mempolicy = some 236
aarch64_number Call.set_mempolicy = some 237
aarch64_number Call.migrate_pages = some 238
aarch64_number Call.move_pages = some 239
aarch64_number Call.rt_tgsigqueueinfo = some 240
aarch64_number Call.perf_event_open = some 241
aarch64_number Call.accept4 = some 242
aarch64_number Call.recvmmsg = some 243
aarch64_number Call.wait4 = some 260
aarch64_number Call.prlimit64 = some 261
aarch64_number Call.fanotify_init = some 262
aarch64_number Call.fanotify_mark = some 263
aarch64_number Call.name_to_handle_at = some 264
aarch64_number Call.open_by_handle_at = some 265
aarch64_number Call.clock_adjtime = some 266
aarch64_number Call.syncfs = some 267
aarch64_number Call.setns = some 268
aarch64_number Call.sendmmsg = some 269
aarch64_number Call.process_vm_readv = some 270
aarch64_number Call.process_vm_writev = some 271
aarch64_number Call.kcmp = some 272
aarch64_number Call.finit_module = some 273
aarch64_number Call.sched_setattr = some 274
aarch64_number Call.sched_getattr = some 275
aarch64_number Call.renameat2 = some 276
aarch64_number Call.seccomp = some 277
aarch64_number Call.getrandom = some 278
aarch64_number Call.memfd_create = some 279
aarch64_number Call.bpf = some 280
aarch64_number Call.execveat = some 281
aarch64_number Call.userfaultfd = some 282
aarch64_number Call.membarrier = some 283
aarch64_number Call.mlock2 = some 284
aarch64_number Call.copy_file_range = some 285
aarch64_number Call.preadv2 = some 286
aarch64_number Call.pwritev2 = some 287
aarch64_number Call.pkey_mprotect = some 288
aarch64_number Call.pkey_alloc = some 289
aarch64_number Call.pkey_free = some 290
aarch64_number Call.statx = some 291
aarch64_number Call.io_pgetevents = some 292
aarch64_number Call.rseq = some 293
aarch64_number Call.kexec_file_load = some 294
aarch64_number Call.pidfd_send_signal = some 424
aarch64_number Call.io_uring_setup = some 425
aarch64_number Call.io_uring_enter = some 426
aarch64_number Call.io_uring_register = some 427
aarch64_number Call.open_tree = some 428
aarch64_number Call.move_mount = some 429
aarch64_number Call.fsopen = some 430
aarch64_number Call.fsconfig = some 431
aarch64_number Call.fsmount = some 432
aarch64_number Call.fspick = some 433
aarch64_number Call.pidfd_open = some 434
aarch64_number Call.clone3 = some 435
aarch64_number Call.close_range = some 436
aarch64_number Call.openat2 = some 437
aarch64_number Call.pidfd_getfd = some 438
aarch64_number Call.faccessat2 = some 439
aarch64_number Call.process_madvise = some 440
aarch64_number Call.epoll_pwait2 = some 441
aarch64_number Call.mount_setattr = some 442
aarch64_number Call.quotactl_fd = some 443
aarch64_number Call.landlock_create_ruleset = some 444
aarch64_number Call.landlock_add_rule = some 445
aarch64_number Call.landlock_restrict_self = some 446
aarch64_number Call.memfd_secret = some 447
aarch64_number Call.process_mrelease = some 448
aarch64_number Call.futex_waitv = some 449
aarch64_number Call.set_mempolicy_home_node = some 450
aarch64_number Call.cachestat = some 451
aarch64_number Call.fchmodat2 = some 452
aarch64_number Call.map_shadow_stack = some 453
aarch64_number Call.futex_wake = some 454
aarch64_number Call.futex_wait = some 455
aarch64_number Call.futex_requeue = some 456
aarch64_number Call.statmount = some 457
aarch64_number Call.listmount = some 458
aarch64_number Call.lsm_get_self_attr = some 459
aarch64_number Call.lsm_set_self_attr = some 460
aarch64_number Call.lsm_list_modules = some 461
aarch64_number Call.mseal = some 462
aarch64_number Call.setxattrat = some 463
aarch64_number Call.getxattrat = some 464
aarch64_number Call.listxattrat = some 465
aarch64_number Call.removexattrat = some 466
aarch64_number Call.open_tree_attr = some 467
aarch64_number Call.file_getattr = some 468
aarch64_number Call.file_setattr = some 469
aarch64_number Call.listns = some 470
aarch64_number Call.rseq_slice_yield = some 471
aarch64_number _ = none

-- Two calls are one where x86-64 numbers them alike.
unfoldable pub same_call : Call → Call → Bool
unfolding x86_64_number
same_call a b = x86_64_number a == x86_64_number b
