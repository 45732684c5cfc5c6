-- ===== src/Child/Fork.antt =====
-- Starting the program in the container: `child_fork` of server/child.c and the three kinds of
-- channel. After `fork` the model follows whichever process the kernel's answer selects; the new
-- process ends in `exec_child`. `fork` in the parent returns the process id.
pub mod Safety
use jail.Base.{
  ℕ, ◌+◌, Bool, true, false, Option, none, some, List, [], ◌∷◌, if◌then◌else◌, not, ◌||◌, ◌&&◌, ℤ,
  pos, negsuc, minus_one, is_zero, is_neg, ◌==ℤ◌,
}
use jail.Posix.{
  M, ◌>>=◌, ◌>>◌, pure, get, modify, call, sys, exit, Call, Reply, fork, pipe, socketpair, close,
  dup, dup2, setsid, set_controlling, posix_openpt, ptsname, unlockpt, open_file, set_attributes,
  set_winsize, fchown, fchmod, ttyname, set_process_name,
}
use jail.Array.{Bytes, Array}
use jail.Environ.{ascii}
use jail.Child.{Args, Child, any_fails, nonzero, status_of, drop_privileges}
use jail.Child.Exec.{exec_child, exit_failure}

-- Calls whose results the source does not look at.
unfoldable pub run_all : List Call → M Child Unit
run_all [] = pure tt
run_all (c ∷ cs) = do call c; run_all cs

-- `child_openpty`: the master and the slave.
unfoldable pub openpty : Bytes → Bytes → M Child (Option (ℤ × ℤ))
unfolding any_fails run_all
openpty termp winp = do
  master ← call posix_openpt
  if is_neg master then pure none else do
    pts ← sys (ptsname master)
    locked ←
        (if is_zero pts.ret then pure true else (do r ← call (unlockpt master); pure (nonzero r)))
    if locked then (do run_all (close master ∷ []); pure none) else do
      slave ← call (open_file pts.bytes)
      if is_neg slave then (do run_all (close master ∷ []); pure none) else do
        unset ←
            any_fails
              ((nonzero, set_attributes master termp) ∷ (nonzero, set_winsize slave winp) ∷ [])
        if unset
            then (do run_all (close slave ∷ close master ∷ []); pure none)
            else pure (some (master, slave))

-- `child_login_tty`
unfoldable pub login_tty : ℤ → M Child ℤ
unfolding any_fails
login_tty slave = do
  failed ← any_fails (
      (is_neg, setsid)
      ∷ (nonzero, set_controlling slave)
      ∷ (is_neg, dup2 slave 0)
      ∷ (is_neg, dup2 slave 1)
      ∷ (is_neg, dup2 slave 2)
      ∷ [])
  if failed
      then pure minus_one
      else if slave ==ℤ pos 0 || slave ==ℤ pos 1 || slave ==ℤ pos 2
      then pure (pos 0)
      else (do ret ← call (close slave); pure (status_of (nonzero ret)))

-- What the parent keeps of a channel.
unfoldable pub set_streams : ℤ → ℤ → ℤ → Child → Child
set_streams stdin stdout stderr s = record s { stdin = stdin; stdout = stdout; stderr = stderr }

-- The part of `child_fork_pty` from `fork` on.
unfoldable pub fork_on_pty : Args → ℤ → ℤ → Array Bytes → Array Bytes → M Child ℤ
unfolding run_all set_streams
fork_on_pty args amaster aslave argv env = do
  pid ← call fork
  if is_neg pid
      then (do run_all (close amaster ∷ close aslave ∷ []); pure minus_one)
      else if is_zero pid
      then (do
        s ← get
        run_all (close amaster ∷ close s.remote ∷ [])
        logged_in ← login_tty aslave
        if nonzero logged_in then exit exit_failure else exec_child args argv env)
      else (do
        tty ← sys (ttyname aslave)
        run_all (set_process_name (ascii "[%d] %s") pid tty.bytes ∷ [])
        stdout ← call (dup amaster)
        modify (set_streams amaster stdout minus_one)
        run_all (close aslave ∷ [])
        pure pid)

-- `child_fork_pty` after `child_openpty`. 5 is the group of terminals; `fchmod` is to
-- `S_IRUSR | S_IWUSR | S_IWGRP`.
unfoldable pub fork_opened : Args → Option (ℤ × ℤ) → Array Bytes → Array Bytes → M Child ℤ
unfolding run_all any_fails
fork_opened args none argv env = pure minus_one
fork_opened args (some (amaster, aslave)) argv env = do
  unowned ← any_fails ((nonzero, fchown aslave args.uid 5) ∷ (nonzero, fchmod aslave) ∷ [])
  if unowned then (do run_all (close amaster ∷ close aslave ∷ []); pure minus_one) else do
    kept ← drop_privileges args
    if nonzero kept then exit exit_failure else fork_on_pty args amaster aslave argv env

-- `child_fork_pty`
unfoldable pub fork_pty : Args → Bytes → Bytes → Array Bytes → Array Bytes → M Child ℤ
unfolding fork_opened
fork_pty args termp winp argv env = do
  modify (λ s. record s { pty = true })
  opened ← openpty termp winp
  fork_opened args opened argv env

-- The part of `child_fork_socket` from `fork` on, with the pairs `sio` and `eio`.
unfoldable pub fork_on_sockets : Args → Reply → Reply → Array Bytes → Array Bytes → M Child ℤ
unfolding run_all set_streams
fork_on_sockets args sio eio argv env = do
  pid ← call fork
  if is_neg pid
      then (do
        run_all (close sio.first ∷ close sio.second ∷ close eio.first ∷ close eio.second ∷ [])
        pure minus_one)
      else if is_zero pid
      then (do
        run_all (dup2 sio.first 0 ∷ dup2 sio.first 1 ∷ dup2 eio.first 2 ∷ [])
        s ← get
        run_all (
            close s.remote
            ∷ close sio.first
            ∷ close sio.second
            ∷ close eio.first
            ∷ close eio.second
            ∷ [])
        exec_child args argv env)
      else (do
        stdout ← call (dup sio.second)
        modify (set_streams sio.second stdout eio.second)
        run_all (close sio.first ∷ close eio.first ∷ [])
        run_all (set_process_name (ascii "[%d] socket") pid [] ∷ [])
        pure pid)

unfoldable pub fork_socket : Args → Array Bytes → Array Bytes → M Child ℤ
unfolding run_all
fork_socket args argv env = do
  sio ← sys socketpair
  if nonzero sio.ret then pure minus_one else do
    eio ← sys socketpair
    if nonzero eio.ret
        then (do run_all (close sio.first ∷ close sio.second ∷ []); pure minus_one)
        else (do
          kept ← drop_privileges args
          if nonzero kept then exit exit_failure else fork_on_sockets args sio eio argv env)

-- The part of `child_fork_pipe` from `fork` on, with the pipes `pin`, `pout` and `perr`.
unfoldable pub fork_on_pipes : Args → Reply → Reply → Reply → Array Bytes → Array Bytes → M Child ℤ
unfolding run_all set_streams
fork_on_pipes args pin pout perr argv env = do
  pid ← call fork
  if is_neg pid
      then (do
        run_all (
            close perr.first
            ∷ close perr.second
            ∷ close pout.first
            ∷ close pout.second
            ∷ close pin.first
            ∷ close pin.second
            ∷ [])
        pure minus_one)
      else if is_zero pid
      then (do
        run_all (dup2 pin.first 0 ∷ dup2 pout.second 1 ∷ dup2 perr.second 2 ∷ [])
        s ← get
        run_all (
            close s.remote
            ∷ close perr.first
            ∷ close perr.second
            ∷ close pout.first
            ∷ close pout.second
            ∷ close pin.first
            ∷ close pin.second
            ∷ [])
        exec_child args argv env)
      else (do
        modify (set_streams pin.second pout.first perr.first)
        run_all (close perr.second ∷ close pout.second ∷ close pin.first ∷ [])
        run_all (set_process_name (ascii "[%d] pipe") pid [] ∷ [])
        pure pid)

unfoldable pub fork_pipe : Args → Array Bytes → Array Bytes → M Child ℤ
unfolding run_all
fork_pipe args argv env = do
  pin ← sys pipe
  if nonzero pin.ret then pure minus_one else do
    pout ← sys pipe
    if nonzero pout.ret
        then (do run_all (close pin.first ∷ close pin.second ∷ []); pure minus_one)
        else (do
          perr ← sys pipe
          if nonzero perr.ret
              then (do
                run_all
                    (close pout.first ∷ close pout.second ∷ close pin.first ∷ close pin.second ∷ [])
                pure minus_one)
              else (do
                kept ← drop_privileges args
                if nonzero kept
                    then exit exit_failure
                    else fork_on_pipes args pin pout perr argv env))

-- How `child_fork` is called: with the terminal's attributes and size, or with
-- `socket_or_pipe` 1 or 0.
pub data Channel : Type 0 where
  tty : Bytes → Bytes → Channel
  socket pipes : Channel

abbrev pub is_tty : Channel → Bool
is_tty (tty termp winp) = true
is_tty socket = false
is_tty pipes = false

unfoldable pub fork_channel : Args → Channel → Array Bytes → Array Bytes → M Child ℤ
fork_channel args (tty termp winp) argv env = fork_pty args termp winp argv env
fork_channel args socket argv env = fork_socket args argv env
fork_channel args pipes argv env = fork_pipe args argv env

-- `child_fork`
unfoldable pub fork_child : Args → Channel → Array Bytes → Array Bytes → M Child ℤ
fork_child args channel argv env = do
  s ← get
  if not (is_neg s.pid) then pure minus_one else do
    modify (λ t. record t { pty = is_tty channel })
    pid ← fork_channel args channel argv env
    if is_neg pid then pure minus_one else do modify (λ t. record t { pid = pid }); pure (pos 0)
