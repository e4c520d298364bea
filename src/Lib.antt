-- ===== src/Lib.antt =====
-- A model of PRoot for Termux: a user-space chroot and bind mount that traces the processes of a
-- guest with ptrace(2) and rewrites their system calls.
--
-- The program's parts, and the files that model them:
--   * Path: the strings of paths, of proot/src/path/path.c. Path/Compare models compare_paths(),
--     Path/Join models join_paths(), chop_finality() and substitute_path_prefix(), and Path/Normalize
--     normalize_guest_path(). A `char[PATH_MAX]` is the list of its bytes before the NUL.
--   * Binding: the bind mounts of a guest, of proot/src/path/binding.c and binding.h. The three queues
--     `pending`, `guest` and `host` are lists of bindings; a binding carries its address, by which it is
--     found in each queue that holds it. Lookup (proofs in Binding/Lookup) and insertion (proofs in
--     Binding/Search, Insert and Order) compare paths by Path/Compare and move them by Path/Join.
--   * Tracee: the cached registers and the state of a tracee that the system call layer keeps, of
--     proot/src/tracee/reg.c and tracee.h, for a 64-bit process on ARM64. A bank of registers is a
--     function from the index of a word to its value.
--   * Syscall: of proot/src/syscall, the numbers (Sysnum, sysnum.c), the queue of inserted calls (Chain,
--     chain.c), the emulated heap (Brk, heap.c) and the seccomp filter (Seccomp, seccomp.c, with the
--     table in Seccomp/Table, the merge of the lists in Seccomp/Merge, and the BPF program in
--     Seccomp/Filter). They read and write a tracee by peek_reg() and poke_reg().
--   * Extension: of proot/src/extension, the list of extensions and its cache (Registry, extension.c),
--     the limits on CPUs and processes (ResourceLimit, resource_limit.c), and the System V semaphores
--     (SysvIpc and SysvIpc/Sem, sysvipc_sem.c and the parts of sysvipc.c and sysvipc_internal.h that
--     they use), the message queues (SysvIpc/Msg, sysvipc_msg.c, with msgget() in Msg/Get and the other calls in
--     Msg/Calls), the stops of a tracee that waits for such an object (SysvIpc/Wait, sysvipc.c, with the retry of
--     msgrcv() in Wait/Retry), and the
--     network policy (NetPolicy, net_policy.c: the names in DNS packets in NetPolicy/Dns, the strings
--     and rules in NetPolicy/Text, Rules and Match, the table of bound ports in NetPolicy/Binds,
--     dns_prepare_response() in NetPolicy/Answer, and check_operation() in NetPolicy/Decision). An
--     extension gives the filter its list of system calls and changes a tracee by Syscall.Sysnum and
--     Tracee.Regs.
--   * Execve: of proot/src/execve, the first line of a script (Execve/Shebang, extract_shebang() of
--     shebang.c) and the replacement of scripts by their interpreters (Execve/Expand, expand_shebang(),
--     with the array of aoxp.c). Its loop runs MAXSYMLINKS times at most, as the source's.
--   * Base: the names, lists, tests and word arithmetic that the parts share.
--   * Tests: runs on concrete inputs.
--
-- State is passed explicitly. A status that is -errno on error is a Result; a failed assertion, a
-- read behind a table and fuel that runs out are none of an Option. Words are natural numbers, with
-- the wrap-around at 2 ^ 64 or 2 ^ 32 written out. The loop of normalize_guest_path() runs on fuel, one
-- more than the length of the path, and its theorem gives a result, so this is enough. dns_read_name()
-- runs on fuel 17 * (length + 1) and dns_skip_name() on length + 1, which a theorem shows to be enough.
-- All other loops are structural, over lists. The stops of a waiting tracee are a step relation, with
-- the handlers of the system calls left open.
--
-- Arguments of the model are the answers of ptrace(2), the result that the kernel leaves after a system
-- call, the memory of a tracee, the page size, qsort(3) and the kernel's BPF machine, of which IsBpf
-- states what is relied on, the C library's inet_pton() and inet_ntop(), and the files of the host.
-- Allocation with talloc does not fail, and messages are left out.
--
-- Not modelled: the translation of paths against the file system (canon.c, glue.c, proc.c and
-- translate_path()), the entry and exit of system calls (enter.c, exit.c, syscall.c, socket.c), the
-- event loop and the memory of tracees, the rest of execve and the loader, the emulated ptrace, the
-- other extensions, the shared memory of System V, the chained calls of sysvipc.c, and of net_policy.c
-- the resolution of domains, the tables of DNS queries and the dialogue with a controller; the command
-- line and the supervisor. They are for the most part calls of the host, and need a model of its files
-- and processes first.
pub mod Base
pub mod Path
pub mod Binding
pub mod Tracee
pub mod Syscall
pub mod Extension
pub mod Execve
mod Tests
