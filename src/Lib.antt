-- ===== src/Lib.antt =====
-- jail runs a program of a container for a user outside it. A server (`jaild`, server/) enters the
-- container and listens on a socket; each connection is served by a process of its own
-- (server/child.c). A client (`jail`, client/jail.c) connects, sends a request with its arguments
-- and environment, relays its input and the size of its terminal, and is sent the output and the
-- exit status. Both sides use common/: a list of strings with a wire form (array.c), a receive
-- buffer that cuts a stream into messages (buffer.c, message.h), a filter on environment variables
-- (environ.c), helpers (utility.c) and the title of the process (cmdline.c).
--
-- The files:
--   Base          names shared by all modules: tests on numbers, lists over native numbers, C's
--                 signed results as ℤ
--   Posix         system calls as a state monad: the kernel is an arbitrary function from calls to
--                 answers, and the world records the calls; Posix/Rules has the rules on results
--   Array         common/array.c; the wire form as a specification in Array/Format, and theorems on
--                 parsing (Parse), serialising (Write) and appending (Push)
--   Message       common/message.h: types, sizes, headers, memory of bytes
--   Buffer        common/buffer.c; Contents and Framing have the bytes in use and the messages in
--                 them, Drain the receive loop of child_process_remote and client_process_remote
--   Environ       common/environ.c; its policy is in Environ/Policy
--   Utility       common/utility.c: atoi32, add_to_set, set_alarm_timer; Utility/Files has the flags
--                 of descriptors and the limit on open files
--   Cmdline       common/cmdline.c: cmdline_setup and cmdline_set_process_name, with the addresses
--                 of the strings
--   Child         server/child.c: Signals and Exec prepare the program, Fork starts it, Execute
--                 handles a message, Loop is child_run, child_process_output, child_sigchld,
--                 child_loop and child_main
--   Client        client/jail.c: Prepare is client_prepare and client_execute, Remote handles what
--                 the server sends, Loop is client_loop, Main is client_initialize, client_start,
--                 client_atexit and main
--   Server        server/jaild.c: Args is parse_args; Signals, Socket (server_start, server_stop),
--                 Loop (server_sigchld, server_loop), Mounts (server_bind_mount, server_mount_dev
--                 and the server_daemonize functions); Main is server_main, server_fork,
--                 server_wait_for_child and main
--   Tests         concrete kernels and applications of the theorems
--
-- The functions keep the sources' names without the prefix of their file: `child_execute` is
-- `Child.Execute.execute`. A function that the model splits has parts named for what they do, above
-- it in its module. Numbers are natural numbers; subtraction and addition of `size_t` wrap at 2^64
-- where the sources rely on it or could be hurt by it, a message's fields hold 16 bits, and a result
-- that can be negative is a ℤ. Memory of the receive buffer is a function from indices to bytes; a
-- parsed array holds offsets into the buffer. Failed assertions, accesses out of bounds and exhausted
-- fuel stop the model, which is told apart from every result.
--
-- A process is followed through its calls. After `fork` and `clone` that is the process that the
-- answer selects, and what runs in the other is another answer. A signal's handler runs where the
-- sources let signals in, in `pselect` and `sigsuspend`, and whether it does is a part of the answer.
--
-- What a theorem says of the calls of a process it says of the recorded trace: the open sockets and
-- the bound name are followed along it (Server/Socket/Ledger), the calls on the terminal are selected
-- from it (Client/Main/Steady), and the steps that make a container are a plan (Server/Mounts/Plan).
--
-- Fuel: the receive loop has `buflen + 1` rounds, enough since a message that a handler accepts has
-- at least one byte. `child_loop`, `client_loop`, `server_loop` and the wait of
-- `server_wait_for_child` run as long as their peers do; they take a number of rounds and tell when
-- they are still running after them. The loop over `waitpid` takes fuel, which is enough where it
-- exceeds the number of children that are reported in a row.
--
-- Not modelled: what the kernel and the C library do (parameters: `strtol`, `basename`, the texts of
-- `snprintf`, the options that `getopt` finds, the macros on a status and a file mode, the raw form of
-- a terminal's attributes, the answers of all system calls); print_usage and print_version of
-- server/jaild.c, which only print. In the other files cmdline_set_process_name is a call with its
-- format, without the title's memory of Cmdline. Freed memory is not tracked.
pub mod Base
pub mod Posix
pub mod Array
pub mod Message
pub mod Buffer
pub mod Environ
pub mod Utility
pub mod Child
pub mod Client
pub mod Server
mod Tests
pub mod Cmdline
