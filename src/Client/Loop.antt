-- ===== src/Client/Loop.antt =====
-- `client_process_input`, `client_sigwinch` and `client_loop` of client/jail.c. The loop takes a
-- number of rounds, and `none` means that it is still running after them.
use jail.Base.{
  ℕ, zero, suc, ◌+◌, ◌-◌, Bool, true, false, Option, none, some, List, ◌++◌, if◌then◌else◌, not,
  ◌==ℤ◌, ℤ, pos, negsuc, minus_one, is_zero, is_neg,
}
use jail.Posix.{
  M, ◌>>=◌, ◌>>◌, pure, get, modify, call, sys, read, write, get_winsize, pselect, Reply, Errno,
  eintr,
}
use jail.Message.{Abi, std_in, winsize, header, sizeof_message, sizeof_message_winsize}
use jail.Buffer.{Buffer}
use jail.Utility.{FdSet, fd_set}
use jail.Client.{Client}
use jail.Client.Prepare.{nonzero}
use jail.Client.Remote.{process_remote}

-- `sizeof(buffer) - sizeof(msg) + 1`, where `msg` is a pointer of 8 bytes.
abbrev pub input_space : ℕ
input_space = 8185

-- `client_process_input` after `read`.
unfoldable pub send_input : ℤ → ℤ → List ℕ → M Client ℤ
send_input s (negsuc n) bytes = pure minus_one
send_input s (pos zero) bytes = pure minus_one
send_input s (pos (suc n)) bytes = do
  let len = sizeof_message + suc n - 1
  sent ← call (write s (header std_in len ++ bytes))
  pure (if not (sent ==ℤ pos len) then minus_one else pos 0)

unfoldable pub process_input : ℤ → M Client ℤ
unfolding send_input
process_input s = do size ← sys (read (pos 0) input_space); send_input s size.ret size.bytes

-- The handlers `sigterm_handler` and `sigwinch_handler`, which run while `pselect` waits. Whether
-- they run is the answer's two flags, in this order.
unfoldable pub run_handlers : Reply → Client → Client
run_handlers r c =
    let c' = if r.handled_first then record c { sigterm = true } else c in
    if r.handled_second then record c' { sigwinch = true } else c'

unfoldable pub send_winsize : Abi → ℤ → M Client ℤ
send_winsize abi s = do
  c ← get
  if not c.sigwinch then pure (pos 0) else do
    winp ← sys (get_winsize (pos 0))
    if nonzero winp.ret then pure minus_one else do
      let len = sizeof_message_winsize abi
      sent ← call (write s (header winsize len ++ winp.bytes))
      if not (sent ==ℤ pos len)
          then pure minus_one
          else do modify (λ t. record t { sigwinch = false }); pure (pos 0)

pub data Round : Type 0 where
  finish : ℤ → Round
  again : FdSet → Buffer → Round

unfoldable pub is_eintr : Errno → Bool
is_eintr eintr = true
is_eintr _ = false

-- `s + 1` for a descriptor
unfoldable pub successor : ℤ → ℤ
successor (pos n) = pos (n + 1)
successor (negsuc n) = pos 0

unfoldable pub serve_ready : ℤ → FdSet → Buffer → M Client Round
unfolding process_input
serve_ready s ready b = do
  remote ← (if ready s then process_remote s b else pure (pos 0, b))
  if nonzero remote.0 then pure (finish minus_one) else do
    input ← (if ready (pos 0) then process_input s else pure (pos 0))
    if nonzero input then pure (finish minus_one) else pure (again ready remote.1)

unfoldable pub round : Abi → ℤ → FdSet → Buffer → M Client Round
unfolding serve_ready send_winsize run_handlers is_eintr successor
round abi s fds b = do
  c ← get
  if c.sigterm then pure (finish (pos 0)) else do
    sized ← send_winsize abi s
    if nonzero sized then pure (finish minus_one) else do
      let set = fd_set (pos 0) (fd_set s fds)
      r ← sys (pselect (successor s) set)
      modify (run_handlers r)
      if is_neg r.ret
          then pure (if is_eintr r.errno then again set b else finish minus_one)
          else if is_zero r.ret
          then pure (again r.ready b)
          else serve_ready s r.ready b

unfoldable pub loop : Abi → ℕ → ℤ → FdSet → Buffer → M Client (Option ℤ)
unfolding round
loop abi zero s fds b = pure none
loop abi (suc rounds) s fds b = do
  r ← round abi s fds b
  elim r [ finish ret ↦ pure (some ret) | again fds' b' ↦ loop abi rounds s fds' b' ]
