-- ===== src/Posix.antt =====
-- What the programs see of the operating system. A process makes calls, and the kernel, which is
-- not part of the sources, answers them: it is an arbitrary function of the moment and the call.
-- The world records every call with its answer, the newest first.
--
-- A handler is an action over a state `S` (the static variables of its file) and the world. It
-- returns, ends the process (`_exit`), replaces the program (`execve`), or stops where an assertion
-- fails, memory is accessed out of bounds, or the fuel of a loop runs out.
pub mod Rules
use jail.Base.{ℕ, ◌+◌, Bool, Option, List, ◌∷◌, ℤ}

-- The signals that the sources name; `number` is one of a loop over all of them.
pub data Signal : Type 0 where
  number : ℕ → Signal
  sighup sigint sigquit sigterm sigchld sigalrm sigpipe sigwinch sigkill sigcont : Signal

pub data Disposition : Type 0 where
  default ignore handler : Disposition

-- The flags of `mount`: `MS_BIND` and so on.
pub data MountFlag : Type 0 where
  bind_flag rec_flag private_flag nosuid noexec nodev : MountFlag

-- The calls of the sources, with the arguments that matter. A `winsize` or a `termios` is the list
-- of its bytes, and so is a string.
pub data Call : Type 0 where
  read : ℤ → ℕ → Call
  write : ℤ → List ℕ → Call
  close dup : ℤ → Call
  dup2 : ℤ → ℕ → Call
  socketpair pipe fork setsid geteuid waitpid : Call
  setgroups setgid setuid getpwuid : ℕ → Call
  set_winsize : ℤ → List ℕ → Call
  get_winsize set_controlling : ℤ → Call
  set_attributes : ℤ → List ℕ → Call
  posix_openpt : Call
  ptsname unlockpt ttyname shutdown : ℤ → Call
  open_file chdir : List ℕ → Call
  fchown : ℤ → ℕ → ℕ → Call
  fchmod : ℤ → Call
  setitimer : ℕ → ℕ → Call
  pselect : ℤ → (ℤ → Bool) → Call
  set_process_name : List ℕ → ℤ → List ℕ → Call
  set_process_ids : List ℕ → ℕ → ℕ → Call
  sigemptyset : Call
  sigaddset : Signal → Call
  sigprocmask : List Signal → Call
  sigaction : Signal → Disposition → Call
  clear_environ : Call
  setenv : List ℕ → List ℕ → Call
  putenv unsetenv getenv : List ℕ → Call
  malloc : ℕ → Call
  execve : List ℕ → List (List ℕ) → Call
  get_flags get_fd_flags set_reuse_address : ℤ → Call
  getrlimit : Call
  set_flags set_fd_flags : ℤ → ℕ → Call
  setrlimit : ℕ → ℕ → Call
  open_socket : Call
  bind connect : ℤ → List ℕ → ℕ → Call
  chown : List ℕ → ℕ → ℕ → Call
  chmod : List ℕ → ℕ → Call
  listen : ℤ → ℕ → Call
  accept : ℤ → Call
  unlink umount chroot : List ℕ → Call
  mount : List ℕ → List ℕ → Option (List ℕ) → List MountFlag → Call
  clone sigsuspend getuid getgid atexit : Call
  kill : ℤ → Signal → Call
  umask : ℕ → Call
  sigunblock : List Signal → Call
  isatty fstat get_attributes : ℤ → Call
  flush_attributes : ℤ → List ℕ → Call

-- `struct passwd`, where the sources read it. `none` is a null `pw_shell`.
pub record Passwd : Type 0 where
  pub name : List ℕ
  pub home : List ℕ
  pub shell : Option (List ℕ)

pub data Errno : Type 0 where
  eintr einval echild other : Errno

-- The answer: the value returned and `errno`, and what comes back through pointers: bytes, a pair
-- of descriptors, the descriptors that are ready, a record of the user database, and whether each
-- of the two handlers that a process installs ran during the call. A call that returns a
-- pointer returns 0 for the null pointer.
pub record Reply : Type 0 where
  pub ret : ℤ
  pub errno : Errno
  pub bytes : List ℕ
  pub first : ℤ
  pub second : ℤ
  pub ready : ℤ → Bool
  pub passwd : Option Passwd
  pub handled_first : Bool
  pub handled_second : Bool

pub record World : Type 0 where
  pub kernel : ℕ → Call → Reply
  pub now : ℕ
  pub trace : List (Call × Reply)

-- What the sources use of the C library besides calls: the macros on a status of `wait` and on a
-- file's mode, the raw form of a terminal's attributes, and the text that `snprintf` makes of
-- `"%s-%d-%d.sock"`.
pub record Libc : Type 0 where
  pub is_exited : ℤ → Bool
  pub exit_status : ℤ → ℕ
  pub is_socket : List ℕ → Bool
  pub is_fifo : List ℕ → Bool
  pub make_raw : List ℕ → List ℕ
  pub format : List ℕ → ℤ → ℤ → List ℕ

pub data Outcome (S A : Type 0) : Type 0 where
  done : A → S → World → Outcome S A
  exited : ℕ → S → World → Outcome S A
  replaced : S → World → Outcome S A
  stopped : Outcome S A

abbrev pub M : Type 0 → Type 0 → Type 0
M S A = S → World → Outcome S A

-- What follows an action, from its outcome on.
abbrev pub continue : {S A B : Type 0} → Outcome S A → (A → M S B) → Outcome S B
continue (done a s w) f = f a s w
continue (exited code s w) f = exited code s w
continue (replaced s w) f = replaced s w
continue stopped f = stopped

pub pure : {S A : Type 0} → A → M S A
pure a s w = done a s w

pub get : {S : Type 0} → M S S
get s w = done s s w

pub modify : {S : Type 0} → (S → S) → M S (Unit {0})
modify f s w = done tt (f s) w

pub exit : {S A : Type 0} → ℕ → M S A
exit code s w = exited code s w

pub replace : {S A : Type 0} → M S A
replace s w = replaced s w

pub stop : {S A : Type 0} → M S A
stop s w = stopped

-- One system call.
abbrev pub answer : World → Call → Reply
answer w c = w.kernel w.now c

abbrev pub after : World → Call → World
after w c = record w { now = w.now + 1; trace = (c, answer w c) ∷ w.trace }

pub sys : {S : Type 0} → Call → M S Reply
sys c s w = done (answer w c) s (after w c)

pub call : {S : Type 0} → Call → M S ℤ
call c s w = done (answer w c).ret s (after w c)

infixl 5 ◌>>=◌ ◌>>◌
-- To unfold this is to unfold all actions above.
unfoldable pub ◌>>=◌ : {S A B : Type 0} → M S A → (A → M S B) → M S B
unfolding pure get modify exit replace stop sys call
◌>>=◌ m f s w = continue (m s w) f

abbrev pub ◌>>◌ : {S A B : Type 0} → M S A → M S B → M S B
m >> k = m >>= λ _. k

-- The outcome of a part of a program with static variables of its own.
abbrev pub outside : {S T A : Type 0} → Outcome T A → S → Outcome S A
outside (done a t w) s = done a s w
outside (exited code t w) s = exited code s w
outside (replaced t w) s = replaced s w
outside stopped s = stopped

-- Such a part, whose variables start as `t`.
unfoldable pub run_in : {S T A : Type 0} → T → M T A → M S A
run_in t m s w = outside (m t w) s
