-- ===== src/Child/Loop.antt =====
-- The service of one connection: `child_run`, `child_process_output`, `child_sigchld`,
-- `child_loop` and `child_main` of server/child.c.
--
-- The loop runs as long as its peer and its program do, so it takes a number of rounds, and `none`
-- means that it is still running after them. The loop over `waitpid` takes fuel, and stops the
-- model if the kernel has more exited children to report than that.
pub mod Timeout
pub mod Output
pub mod Exit
pub mod Steps
pub mod Closed
use jail.Base.{
  ℕ, zero, suc, ◌+◌, ◌-◌, Bool, true, false, Option, none, some, List, [], ◌∷◌, ◌++◌, ◌==◌,
  if◌then◌else◌, not, ◌||◌, ◌&&◌, ◌==ℤ◌, length, ℤ, pos, negsuc, minus_one, is_zero, is_neg,
}
use jail.Posix.{
  M, ◌>>=◌, ◌>>◌, pure, get, modify, call, sys, stop, exit, read, write, close, waitpid, pselect,
  shutdown, Errno, eintr, echild,
}
use jail.Message.{
  Abi, MessageType, std_out, std_err, status, header, sizeof_message, sizeof_message_status,
}
use jail.Buffer
use jail.Buffer.{Buffer}
use jail.Buffer.Drain.{process_remote}
use jail.Utility.{FdSet, fd_zero, add_to_set, set_alarm_timer}
use jail.Child.{Args, Child, nonzero}
use jail.Child.Signals.{initialize_signals, run_handlers}
use jail.Child.Exec.{exit_failure}
use jail.Child.Execute.{execute}

-- The end of `child_run`: whether there is output to relay or a program to wait for.
unfoldable pub has_work : Child → Bool
has_work s = if not (is_neg s.stdout) || not (is_neg s.stderr) then true else not (is_zero s.pid)

-- `child_run`
unfoldable pub run : M Child Bool
unfolding has_work
run = do
  s ← get
  if not s.sigalrm then pure (has_work s) else do
    timer ←
        (if s.handshaking
          then (do modify (λ t. record t { handshaking = false }); set_alarm_timer (pos 0))
          else pure (pos 0))
    if nonzero timer then pure false else if is_neg s.pid then pure false else pure (has_work s)

-- The two streams that are relayed, and the variables `*fd` that hold their descriptors.
pub data Stream : Type 0 where
  out err : Stream

unfoldable pub fd_of : Stream → Child → ℤ
fd_of out s = s.stdout
fd_of err s = s.stderr

unfoldable pub close_stream : Stream → Child → Child
close_stream out s = record s { stdout = minus_one }
close_stream err s = record s { stderr = minus_one }

unfoldable pub type_of : Stream → MessageType
type_of out = std_out
type_of err = std_err

-- `sizeof(buffer) - sizeof(msg) + 1`, where `msg` is a pointer of 8 bytes.
abbrev pub output_space : ℕ
output_space = 8185

-- `child_process_output` after `read`: `size` and the bytes stored behind the header.
unfoldable pub relay : ℤ → Stream → ℤ → List ℕ → M Child ℤ
unfolding fd_of close_stream type_of
relay c stream (negsuc n) bytes = do
  s ← get
  call (close (fd_of stream s))
  modify (close_stream stream)
  pure (pos 0)
relay c stream (pos zero) bytes = do
  s ← get
  call (close (fd_of stream s))
  modify (close_stream stream)
  pure (pos 0)
relay c stream (pos (suc n)) bytes = do
  let len = sizeof_message + suc n - 1
  sent ← call (write c (header (type_of stream) len ++ bytes))
  pure (if not (sent ==ℤ pos len) then minus_one else pos 0)

unfoldable pub process_output : ℤ → Stream → M Child ℤ
unfolding relay
process_output c stream = do
  s ← get
  size ← sys (read (fd_of stream s) output_space)
  relay c stream size.ret size.bytes

-- `errno == …`
unfoldable pub is_echild : Errno → Bool
is_echild echild = true
is_echild _ = false

unfoldable pub is_eintr : Errno → Bool
is_eintr eintr = true
is_eintr _ = false

-- The loop of `child_sigchld`, with `ret` so far. The answer's bytes are the status.
unfoldable pub reap : ℕ → ℤ → M Child ℤ
unfolding is_echild
reap zero ret = stop
reap (suc fuel) ret = do
  child ← sys waitpid
  s ← get
  let again = reap fuel ret
  let reported = reap fuel (pos 1)
  let stop_reaping = (do modify (λ t. record t { sigchld = false }); pure ret)
  if is_neg child.ret
      then (if is_echild child.errno then stop_reaping else pure minus_one)
      else if is_zero child.ret
      then stop_reaping
      else if child.ret ==ℤ s.pid
      then (do
        modify (λ t. record t { pid = pos 0 })
        sent ← call (write s.remote (header status sizeof_message_status ++ child.bytes))
        if not (sent ==ℤ pos sizeof_message_status) then pure minus_one else reported)
      else again

unfoldable pub handle_sigchld : ℕ → M Child ℤ
unfolding reap
handle_sigchld fuel = do s ← get; if not s.sigchld then pure (pos 0) else reap fuel (pos 0)

-- The set that is given to `pselect`, built on what the last call left in the variable `fds`.
unfoldable pub watch : ℤ → Child → FdSet → ℤ × FdSet
watch c s fds =
    let (max1, fds1) = add_to_set minus_one c fds in
    let (max2, fds2) = add_to_set max1 s.stdout fds1 in add_to_set max2 s.stderr fds2

-- One round ends the loop with a result, or leaves the variables `fds` and `g_child_buffer`.
pub data Round : Type 0 where
  finish : ℤ → Round
  again : FdSet → Buffer → Round

-- `x + 1` for `x` from -1 on
unfoldable pub successor : ℤ → ℤ
successor (pos n) = pos (n + 1)
successor (negsuc n) = pos 0

-- `if (fd >= 0 && FD_ISSET(fd, &fds)) if (child_process_output(…)) return -1;`
unfoldable pub output_if_ready : ℤ → Stream → FdSet → M Child ℤ
unfolding process_output
output_if_ready c stream ready = do
  s ← get
  if not (is_neg (fd_of stream s)) && ready (fd_of stream s)
      then process_output c stream
      else pure (pos 0)

module _ (abi : Abi) (args : Args) where
  -- `if (FD_ISSET(c, &fds)) child_process_remote(c)`
  unfoldable pub remote_if_ready : ℤ → FdSet → Buffer → M Child (ℤ × Buffer)
  remote_if_ready c ready b =
      if ready c then process_remote (execute abi args) c b else pure (pos 0, b)

  -- The body of the loop behind a `pselect` that found descriptors.
  unfoldable pub serve_ready : ℤ → FdSet → Buffer → M Child Round
  unfolding remote_if_ready output_if_ready
  serve_ready c ready b = do
    remote ← remote_if_ready c ready b
    if nonzero remote.0 then pure (finish minus_one) else do
      stdout ← output_if_ready c out ready
      if nonzero stdout then pure (finish minus_one) else do
        stderr ← output_if_ready c err ready
        if nonzero stderr then pure (finish minus_one) else pure (again ready remote.1)

  -- From `pselect` on.
  unfoldable pub wait : ℤ → FdSet → Buffer → M Child Round
  unfolding serve_ready watch successor is_eintr
  wait c fds b = do
    s ← get
    let (max, set) = watch c s fds
    r ← sys (pselect (successor max) set)
    modify (run_handlers r)
    if is_neg r.ret
        then pure (if is_eintr r.errno then again set b else finish minus_one)
        else if is_zero r.ret
        then pure (again r.ready b)
        else serve_ready c r.ready b

  -- One round of `child_loop`, its test included.
  unfoldable pub round : ℕ → ℤ → FdSet → Buffer → M Child Round
  unfolding wait
  round fuel c fds b = do
    running ← run
    if not running then pure (finish (pos 0)) else do
      dead ← handle_sigchld fuel
      if nonzero dead then pure (finish minus_one) else wait c fds b

  unfoldable pub loop : ℕ → ℕ → ℤ → FdSet → Buffer → M Child (Option ℤ)
  unfolding round
  loop zero fuel c fds b = pure none
  loop (suc rounds) fuel c fds b = do
    r ← round fuel c fds b
    elim r [ finish ret ↦ pure (some ret) | again fds' b' ↦ loop rounds fuel c fds' b' ]

  -- The variables as `child_main` sets them.
  unfoldable pub initial : ℤ → Child
  initial c = record {
    remote = c;
    pid = minus_one;
    pty = false;
    stdin = minus_one;
    stdout = minus_one;
    stderr = minus_one;
    handshaking = true;
    sigalrm = false;
    sigchld = false;
  }

  -- What follows the loop.
  unfoldable pub leave : ℤ → ℤ → M Child Unit
  leave c ret = do call (shutdown c); call (close c); exit (if is_zero ret then 0 else exit_failure)

  -- `child_main`, on the buffer as it was in the parent; `none` as for `loop`.
  unfoldable pub main : ℕ → ℕ → ℤ → Buffer → M Child (Option Unit)
  unfolding loop initial leave
  main rounds fuel c b = do
    modify (λ _. initial c)
    signals ← initialize_signals
    if nonzero signals then exit exit_failure else do
      timer ← set_alarm_timer (pos 10000)
      if nonzero timer then exit exit_failure else do
        ret ← loop rounds fuel c fd_zero (Buffer.initialize b)
        elim ret [ none ↦ pure none | some r ↦ do leave c r; pure none ]
