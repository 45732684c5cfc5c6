-- ===== src/Server/Loop.antt =====
-- `server_sigchld` and `server_loop` of server/jaild.c.
--
-- The loop runs until a signal ends it, so it takes a number of rounds. After `fork` the model
-- follows whichever process the answer selects. The new process leaves the loop for `child_main`,
-- which does not return: `became` is its connection. The loop over `waitpid` takes fuel.
pub mod Descriptors
use jail.Base.{
  ℕ, zero, suc, ◌+◌, Bool, true, false, not, if◌then◌else◌, ℤ, pos, minus_one, is_neg, is_zero,
}
use jail.Posix.{
  M, ◌>>=◌, ◌>>◌, pure, get, modify, call, sys, stop, waitpid, pselect, accept, fork, close,
}
use jail.Utility.{FdSet, fd_set}
use jail.Child.Loop.{is_echild, is_eintr, successor}
use jail.Server.{Server, run_handlers}

-- The loop of `server_sigchld`, with `ret` so far.
unfoldable pub reap : ℕ → ℕ → M Server ℤ
unfolding is_echild
reap zero ret = stop
reap (suc fuel) ret = do
  child ← sys waitpid
  let reported = reap fuel (ret + 1)
  let reaped = (do modify (λ t. record t { sigchld = false }); pure (pos ret))
  if is_neg child.ret
      then (if is_echild child.errno then reaped else pure minus_one)
      else if is_zero child.ret
      then reaped
      else reported

unfoldable pub handle_sigchld : ℕ → M Server ℤ
unfolding reap
handle_sigchld fuel = do s ← get; if not s.sigchld then pure (pos 0) else reap fuel 0

pub data Round : Type 0 where
  finish : ℤ → Round
  again : FdSet → Round
  became : ℤ → Round

-- The body of the loop behind a `pselect` that found the socket ready.
unfoldable pub take_connection : ℤ → FdSet → M Server Round
take_connection s ready = do
  c ← call (accept s)
  if is_neg c then pure (again ready) else do
    pid ← call fork
    if is_zero pid
        then (do call (close s); pure (became c))
        else (do call (close c); pure (again ready))

unfoldable pub wait : ℤ → FdSet → M Server Round
unfolding take_connection run_handlers is_eintr successor
wait s fds = do
  let set = fd_set s fds
  r ← sys (pselect (successor s) set)
  modify (run_handlers r)
  if is_neg r.ret
      then pure (if is_eintr r.errno then again set else finish minus_one)
      else if is_zero r.ret
      then pure (again r.ready)
      else take_connection s r.ready

-- One round of the loop, its test included.
unfoldable pub round : ℕ → ℤ → FdSet → M Server Round
unfolding wait
round fuel s fds = do
  g ← get
  if g.sigterm then pure (finish (pos 0)) else do
    reaped ← handle_sigchld fuel
    if is_neg reaped then pure (finish minus_one) else wait s fds

-- How the loop is left: with its result, as the process of a connection, or not yet.
pub data Left : Type 0 where
  finished : ℤ → Left
  connection : ℤ → Left
  running : Left

-- What follows a round, with the further rounds.
unfoldable pub follow : (FdSet → M Server Left) → Round → M Server Left
follow further (finish ret) = pure (finished ret)
follow further (became c) = pure (connection c)
follow further (again fds) = further fds

unfoldable pub loop : ℕ → ℕ → ℤ → FdSet → M Server Left
unfolding round follow
loop zero fuel s fds = pure running
loop (suc rounds) fuel s fds = do r ← round fuel s fds; follow (loop rounds fuel s) r
