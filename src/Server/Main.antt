-- ===== src/Server/Main.antt =====
-- `server_main`, `server_fork`, `server_wait_for_child` and `main` of server/jaild.c.
--
-- The model follows one process: after `fork` or `clone` the one that the answer selects, 0 being
-- the new one. `none` is a loop that is still running after its rounds.
pub mod Cleanup
pub mod Waiting
use jail.Base.{
  ℕ, zero, suc, ◌+◌, ◌*◌, ◌%◌, Bool, true, false, Option, none, some, List, [], ◌∷◌, not, ◌||◌,
  ◌&&◌, ◌==◌, if◌then◌else◌, length, ℤ, pos, negsuc, minus_one, is_neg, is_zero, ◌==ℤ◌,
}
use jail.Posix.{
  M, ◌>>=◌, ◌>>◌, pure, get, modify, call, sys, stop, exit, run_in, Libc, Errno, close, unlink,
  kill, sigint, sigcont, sigkill, sigemptyset, sigsuspend, waitpid, fork, clone, mount, bind_flag,
  rec_flag, private_flag, set_process_ids, umask,
}
use jail.Array
use jail.Array.{Bytes}
use jail.Message.{Abi}
use jail.Buffer.{Buffer}
use jail.Environ.{ascii}
use jail.Utility.{fd_zero}
use jail.Utility.Files.{int_of_bytes}
use jail.Child.{nonzero}
use jail.Child
use jail.Child.Loop as ChildLoop
use jail.Child.Loop.{is_eintr}
use jail.Cmdline.{Setup, failed, ready}
use jail.Server.{Server, run_handlers}
use jail.Server.Args.{Settings, Given, Opt, Parsed, parsed, finished, parse_args}
use jail.Server.Args
use jail.Server.Signals.{initialize_first, initialize_second}
use jail.Server.Socket.{start, stop_server}
use jail.Server.Loop.{Left, connection, running, loop}
use jail.Server.Loop as ServerLoop
use jail.Server.Mounts.{daemonize_first, daemonize_second, daemonize_third}

-- The two signals that end the container for good.
unfoldable pub destroy : ℤ → M Server (Option ℤ)
destroy pid = do call (kill pid sigkill); call (kill pid sigcont); pure (some minus_one)

-- `if (g_server_sigterm) { … }`
unfoldable pub forward_sigterm : ℤ → M Server Unit
forward_sigterm pid = do
  s ← get
  if s.sigterm
      then (do
        modify (λ t. record t { sigterm = false })
        call (kill pid sigint)
        call (kill pid sigcont)
        pure tt)
      else pure tt

-- The loop of `server_wait_for_child`.
unfoldable pub wait_from : ℕ → ℤ → M Server (Option ℤ)
unfolding forward_sigterm destroy int_of_bytes is_eintr run_handlers
wait_from zero pid = pure none
wait_from (suc rounds) pid = do
  forward_sigterm pid
  p ← sys waitpid
  let rest = wait_from rounds pid
  if is_neg p.ret
      then destroy pid
      else if p.ret ==ℤ pid
      then pure (some (int_of_bytes p.bytes))
      else do
        r ← sys sigsuspend
        modify (run_handlers r)
        if is_neg r.ret && not (is_eintr r.errno) then destroy pid else rest

-- `server_wait_for_child`
unfoldable pub wait_for_child : ℕ → ℤ → M Server (Option ℤ)
unfolding wait_from destroy
wait_for_child rounds pid = do
  ret ← call sigemptyset
  if nonzero ret then destroy pid else wait_from rounds pid

-- The options that server/child.c reads.
abbrev pub child_args : Settings → Child.Args
child_args g = record { uid = g.uid; gid = g.gid; name = g.name; shell = g.shell }

-- `g_args_root || array_get_count(&g_args_mounts)`
unfoldable pub needs_namespace : Settings → Bool
needs_namespace g = elim g.root [ some root ↦ true | none ↦ not (Array.get_count g.mounts == 0) ]

-- The numbers of rounds of the loops.
pub record Rounds : Type 0 where
  pub rounds : ℕ
  pub fuel : ℕ

module _ (abi : Abi) (libc : Libc) (g : Settings) (n : Rounds) where
  -- `server_main` after the loop.
  unfoldable pub end_server : ℤ → Left → M Server (Option ℤ)
  unfolding run_in
  end_server s (ServerLoop.finished ret) = do call (close s); exit (if is_zero ret then 0 else 1)
  end_server s (connection c) = do
    let fresh = ChildLoop.initial abi (child_args g) c
    run_in fresh (
        ChildLoop.main abi (child_args g) n.rounds n.fuel c
          (record { buflen = 0; buffer = λ i. 0 }))
    pure none
  end_server s running = pure none

  -- `server_main`, which does not return.
  unfoldable pub server_main : ℤ → M Server (Option ℤ)
  unfolding end_server
  server_main s = do
    call (set_process_ids (ascii "master [%d:%d]") g.uid g.gid)
    signals ← initialize_second
    if nonzero signals then (do call (close s); exit 1) else do
      mounted ← daemonize_third g
      if nonzero mounted
          then (do call (close s); exit 1)
          else do left ← loop n.rounds n.fuel s fd_zero; end_server s left

  -- `server_fork_fork`
  unfoldable pub fork_fork : ℤ → M Server (Option ℤ)
  unfolding server_main
  fork_fork s = do
    pid ← call fork
    if is_neg pid
        then pure (some minus_one)
        else if is_zero pid
        then server_main s
        else pure (some pid)

  -- `server_fork_clone`
  unfoldable pub fork_clone : ℤ → M Server (Option ℤ)
  unfolding server_main
  fork_clone s = do
    pid ← call clone
    if is_neg pid then pure (some minus_one) else if is_zero pid then server_main s else (do
      call (
          mount (ascii "none") (ascii "/") (some (ascii "/"))
            (bind_flag ∷ rec_flag ∷ private_flag ∷ []))
      pure (some pid))

  -- `pid > 0`
  unfoldable pub is_positive : ℤ → Bool
  is_positive pid = not (is_neg pid) && not (is_zero pid)

  -- `server_fork` after `server_fork_fork`.
  unfoldable pub forked : Option ℤ → M Server (Option ℤ)
  unfolding is_positive
  forked none = pure none
  forked (some pid) = pure (some (if is_positive pid then pid else minus_one))

  -- `server_fork` after `server_fork_clone`: without a namespace only if none is needed.
  unfoldable pub cloned : ℤ → Option ℤ → M Server (Option ℤ)
  unfolding is_positive fork_fork forked needs_namespace
  cloned s none = pure none
  cloned s (some pid) =
      if is_positive pid
      then pure (some pid)
      else if needs_namespace g
      then pure (some minus_one)
      else do modify (λ t. record t { clone = false }); pid' ← fork_fork s; forked pid'

  -- `server_fork`
  unfoldable pub fork_server : ℤ → M Server (Option ℤ)
  unfolding fork_clone cloned
  fork_server s = do modify (λ t. record t { clone = true }); pid ← fork_clone s; cloned s pid

  -- The end of `main`, with the result of the wait.
  unfoldable pub end_main : Option ℤ → M Server (Option ℕ)
  end_main none = pure none
  end_main (some ret) = do
    call (unlink g.socket)
    exit
        (if is_neg ret || not (libc.is_exited ret) || not (libc.exit_status ret == 0) then 1 else 0)

  -- `main` after `server_fork`, in the process that waits.
  unfoldable pub babysit : ℤ → Option ℤ → M Server (Option ℕ)
  unfolding wait_for_child end_main
  babysit s none = pure none
  babysit s (some pid) = if is_neg pid then (do stop_server s g.socket; exit 1) else do
    call (set_process_ids (ascii "babysitter [%d:%d]") g.uid g.gid)
    call (close s)
    ret ← wait_for_child n.rounds pid
    end_main ret

  -- `main` from `server_fork` on.
  unfoldable pub guard_container : ℤ → M Server (Option ℕ)
  unfolding fork_server babysit
  guard_container s = do pid ← fork_server s; babysit s pid

  -- `main` with the listening socket.
  unfoldable pub serve : ℤ → M Server (Option ℕ)
  unfolding guard_container
  serve s = if not g.daemon then guard_container s else do
    pid ← call fork
    if is_neg pid
        then (do stop_server s g.socket; pure (some 1))
        else if not (is_zero pid)
        then exit 0
        else do
          detached ← daemonize_second
          if nonzero detached then (do stop_server s g.socket; exit 1) else guard_container s

  -- `main` after `parse_args`.
  unfoldable pub run_server : M Server (Option ℕ)
  unfolding serve
  run_server = do
    signals ← initialize_first
    if nonzero signals then pure (some 1) else do
      moved ← daemonize_first
      if nonzero moved
          then pure (some 1)
          else do s ← start g g.socket; if is_neg s then pure (some 1) else serve s

-- `main` with the result of `parse_args`.
unfoldable pub after_args : Abi → Libc → Rounds → Parsed → M Server (Option ℕ)
unfolding run_server
after_args abi libc n (parsed g) = run_server abi libc g n
after_args abi libc n Args.finished = pure (some 0)
after_args abi libc n Args.failed = pure (some 1)

-- `main`, with the result of `cmdline_setup` and the options that `getopt` finds in it.
unfoldable pub main : Abi → Libc → Rounds → Option Setup → Given → List Opt → M Server (Option ℕ)
unfolding after_args parse_args
main abi libc n none given opts = stop
main abi libc n (some failed) given opts = pure (some 1)
main abi libc n (some (ready title argv environ)) given opts = do
  call (umask 63)
  modify (λ t. record t { sigchld = false; sigterm = false })
  after_args abi libc n (parse_args given opts)
