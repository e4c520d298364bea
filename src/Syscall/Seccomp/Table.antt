-- ===== src/Syscall/Seccomp/Table.antt =====
-- `proot_sysnums` of proot/src/syscall/seccomp.c, as it is built for Android on ARM64. The value of
-- an entry is the index of the name above it in proot/src/syscall/sysnums.list, from 1.
use proot_termux.Base.{List, [], ◌∷◌}
use proot_termux.Syscall.Seccomp.{FilteredSysnum, filtered, filter_sysexit}

abbrev pub proot_sysnums : List FilteredSysnum
proot_sysnums =
    -- accept
    filtered 11 filter_sysexit
    ∷
        -- accept4
        filtered 12 filter_sysexit
    ∷
        -- access
        filtered 13 0
    ∷
        -- acct
        filtered 14 0
    ∷
        -- bind
        filtered 24 0
    ∷
        -- brk
        filtered 27 filter_sysexit
    ∷
        -- chdir
        filtered 31 filter_sysexit
    ∷
        -- chmod
        filtered 32 0
    ∷
        -- chown
        filtered 33 0
    ∷
        -- chown32
        filtered 34 0
    ∷
        -- chroot
        filtered 35 0
    ∷
        -- clone
        filtered 41 0
    ∷
        -- clone3
        filtered 42 0
    ∷
        -- close
        filtered 43 0
    ∷
        -- connect
        filtered 44 0
    ∷
        -- creat
        filtered 46 0
    ∷
        -- recvfrom
        filtered 274 0
    ∷
        -- recvmsg
        filtered 276 0
    ∷
        -- sendmmsg
        filtered 315 0
    ∷
        -- sendmsg
        filtered 316 0
    ∷
        -- sendto
        filtered 317 0
    ∷
        -- socket
        filtered 366 0
    ∷
        -- execve
        filtered 61 filter_sysexit
    ∷
        -- execveat
        filtered 62 filter_sysexit
    ∷
        -- faccessat
        filtered 65 0
    ∷
        -- faccessat2
        filtered 66 0
    ∷
        -- fchdir
        filtered 72 filter_sysexit
    ∷
        -- fchmodat
        filtered 74 0
    ∷
        -- fchmodat2
        filtered 75 0
    ∷
        -- fchownat
        filtered 78 0
    ∷
        -- fsconfig
        filtered 88 0
    ∷
        -- fsmount
        filtered 90 0
    ∷
        -- fsopen
        filtered 91 0
    ∷
        -- fspick
        filtered 92 0
    ∷
        -- fstatat64
        filtered 95 0
    ∷
        -- futimesat
        filtered 103 0
    ∷
        -- getcwd
        filtered 109 filter_sysexit
    ∷
        -- getpeername
        filtered 121 filter_sysexit
    ∷
        -- getsockname
        filtered 136 filter_sysexit
    ∷
        -- getxattr
        filtered 142 0
    ∷
        -- inotify_add_watch
        filtered 146 0
    ∷
        -- ioctl
        filtered 155 0
    ∷
        -- lchown
        filtered 166 0
    ∷
        -- lchown32
        filtered 167 0
    ∷
        -- lgetxattr
        filtered 168 0
    ∷
        -- link
        filtered 169 0
    ∷
        -- linkat
        filtered 170 0
    ∷
        -- listxattr
        filtered 172 0
    ∷
        -- llistxattr
        filtered 173 0
    ∷
        -- lremovexattr
        filtered 176 0
    ∷
        -- lsetxattr
        filtered 178 0
    ∷
        -- lstat
        filtered 179 0
    ∷
        -- lstat64
        filtered 180 0
    ∷
        -- memfd_create
        filtered 184 0
    ∷
        -- mkdir
        filtered 187 0
    ∷
        -- mkdirat
        filtered 188 0
    ∷
        -- mknod
        filtered 189 0
    ∷
        -- mknodat
        filtered 190 0
    ∷
        -- mount
        filtered 197 filter_sysexit
    ∷
        -- mount_setattr
        filtered 198 0
    ∷
        -- move_mount
        filtered 199 0
    ∷
        -- name_to_handle_at
        filtered 218 0
    ∷
        -- newfstatat
        filtered 220 0
    ∷
        -- oldlstat
        filtered 224 0
    ∷
        -- oldstat
        filtered 226 0
    ∷
        -- open
        filtered 228 0
    ∷
        -- open_tree
        filtered 230 0
    ∷
        -- open_tree_attr
        filtered 231 0
    ∷
        -- openat
        filtered 232 0
    ∷
        -- openat2
        filtered 233 0
    ∷
        -- pivot_root
        filtered 243 filter_sysexit
    ∷
        -- prctl
        filtered 249 0
    ∷
        -- prlimit64
        filtered 253 filter_sysexit
    ∷
        -- ptrace
        filtered 259 filter_sysexit
    ∷
        -- readlink
        filtered 269 filter_sysexit
    ∷
        -- readlinkat
        filtered 270 filter_sysexit
    ∷
        -- removexattr
        filtered 278 0
    ∷
        -- rename
        filtered 279 filter_sysexit
    ∷
        -- renameat
        filtered 280 filter_sysexit
    ∷
        -- renameat2
        filtered 281 0
    ∷
        -- rmdir
        filtered 284 0
    ∷
        -- setrlimit
        filtered 344 filter_sysexit
    ∷
        -- setxattr
        filtered 350 0
    ∷
        -- socketcall
        filtered 367 filter_sysexit
    ∷
        -- stat
        filtered 371 0
    ∷
        -- stat64
        filtered 372 0
    ∷
        -- statfs
        filtered 373 filter_sysexit
    ∷
        -- statfs64
        filtered 374 filter_sysexit
    ∷
        -- statx
        filtered 375 filter_sysexit
    ∷
        -- swapoff
        filtered 378 0
    ∷
        -- swapon
        filtered 379 0
    ∷
        -- symlink
        filtered 380 0
    ∷
        -- symlinkat
        filtered 381 0
    ∷
        -- truncate
        filtered 402 0
    ∷
        -- truncate64
        filtered 403 0
    ∷
        -- umount
        filtered 408 filter_sysexit
    ∷
        -- umount2
        filtered 409 filter_sysexit
    ∷
        -- uname
        filtered 410 0
    ∷
        -- unshare
        filtered 413 filter_sysexit
    ∷
        -- setns
        filtered 333 filter_sysexit
    ∷
        -- unlink
        filtered 411 0
    ∷
        -- unlinkat
        filtered 412 0
    ∷
        -- uselib
        filtered 414 0
    ∷
        -- utime
        filtered 417 filter_sysexit
    ∷
        -- utimensat
        filtered 418 0
    ∷
        -- utimes
        filtered 419 0
    ∷
        -- wait4
        filtered 426 filter_sysexit
    ∷
        -- waitpid
        filtered 428 filter_sysexit
    ∷ []
