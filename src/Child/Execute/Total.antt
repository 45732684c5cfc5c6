-- ===== src/Child/Execute/Total.antt =====
-- `child_execute` and `child_process_remote` of server/child.c: assertions, fuel and the buffer.
use jail.Base.{
  ◌<◌, ◌≡◌, true, false, Option, some, refl, arith, ℤ, pos, minus_one, ltb, ◌==◌, not,
  if◌then◌else◌, Bool,
}
use jail.Posix.{World, M, ◌>>=◌, pure}
use jail.Posix.Rules.{Ends, Ends-map, Safe, safe_rules, ReadFits}
use jail.Message.{
  Abi, Message, MessageType, message_at, of_code, fork_socket, fork_pipe, fork_tty, winsize, std_in,
  sizeof_message, sizeof_message_fork_tty, sizeof_message_winsize, offsetof_fork_tty_env,
}
use jail.Buffer.{Buffer}
use jail.Buffer.Contents.{IsValid}
use jail.Buffer.Drain.{process_remote}
use jail.Buffer.Drain.Safety.{Progresses, Processed, process_remote_lem}
use jail.Child.{Args, Child}
use jail.Child.Exec.Safety.{ShellHasSlash}
use jail.Child.Fork.{socket, pipes}
use jail.Child.Execute.{execute_winsize, execute_stdin, terminal_of, execute_case, execute}
use jail.Child.Execute.Safety.{Any, execute_fork_lem}

-- The message has at least one byte if it was accepted.
abbrev Accepted : Message → ℤ → Child → World → Type 0
Accepted msg ret s w = ret ≡ pos 0 → 0 < msg.length

-- A case of the `switch`: the guard fails, or the body runs on a message that is long enough.
guarded :
    (msg : Message) (refused : Bool) (m : M Child ℤ) (s : Child) (w : World)
    → (refused ≡ false → (0 < msg.length) × Ends Any (m s w))
    → Ends (Accepted msg) ((if refused then pure minus_one else m) s w)
unfolding ◌>>=◌
guarded msg true m s w k = λ e. cc e
guarded msg false m s w k =
    let (h, ends) = k refl in Ends-map (Accepted msg) (m s w) ends (λ ret s' w' _ _. h)

module _ (abi : Abi) (args : Args) (shell : ShellHasSlash args) where
  winsize-Safe : (msg : Message) → Safe (execute_winsize abi msg)
  unfolding execute_winsize
  winsize-Safe msg = search safe_rules depth 12

  stdin-Safe : (msg : Message) → Safe (execute_stdin abi msg)
  unfolding execute_stdin
  stdin-Safe msg = search safe_rules depth 12

  execute_case_lem :
      (t : Option MessageType) (msg : Message) (s : Child) (w : World)
      → msg.length < 65536
      → Ends (Accepted msg) (execute_case abi args t msg s w)
  unfolding execute_case
  execute_case_lem (some fork_socket) msg s w k =
      guarded msg (ltb msg.length sizeof_message) _ s w
        (λ g. (ground arith, execute_fork_lem args shell msg 4 socket s w (ground arith) k))
  execute_case_lem (some fork_pipe) msg s w k =
      guarded msg (ltb msg.length sizeof_message) _ s w
        (λ g. (ground arith, execute_fork_lem args shell msg 4 pipes s w (ground arith) k))
  execute_case_lem (some fork_tty) msg s w k =
      guarded msg (ltb msg.length (sizeof_message_fork_tty abi)) _ s w (λ g. (
        ground arith,
        execute_fork_lem args shell msg (offsetof_fork_tty_env abi) (terminal_of abi msg) s w
            (ground arith) k,
      ))
  execute_case_lem (some winsize) msg s w k =
      guarded msg (not (msg.length == sizeof_message_winsize abi)) _ s w
        (λ g. (ground arith, (winsize-Safe msg).on s w tt))
  execute_case_lem (some std_in) msg s w k =
      guarded msg (ltb msg.length sizeof_message) _ s w
        (λ g. (ground arith, (stdin-Safe msg).on s w tt))
  execute_case_lem _ msg s w k = unfold ◌>>=◌ in λ e. cc e

  execute-Progresses : Progresses (execute abi args)
  unfolding execute
  execute-Progresses = record {
    on = λ m s w.
        execute_case_lem (of_code (message_at m).type) (message_at m) s w
          (unfold message_at in omega arith);
  }

  -- From a valid buffer, whatever a fitting read brings and whatever the kernel answers,
  -- `child_process_remote` ends within its fuel and breaks no assertion, in the handlers and in the
  -- process that they fork too, provided that the shell to start has a directory part. The buffer
  -- is valid afterwards, and if the result is 0 there is space for the next read.
  pub child_process_remote_lem :
      (c : ℤ) (b : Buffer) (s : Child) (w : World)
      → ReadFits w.kernel
      → IsValid b
      → Ends Processed (process_remote (execute abi args) c b s w)
  child_process_remote_lem c b s w reads v =
      process_remote_lem (execute abi args) execute-Progresses c b s w reads v
