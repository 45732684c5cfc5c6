-- ===== src/Child/Fork/Safety.antt =====
-- The assertions of server/child.c in `child_fork`, for the parent and the forked process.
use jail.Base.{◌≡◌, Option, none, some, List, [], ◌∷◌, length, ℤ}
use jail.Posix.{Call, Reply, call}
use jail.Posix.Rules.{Safe, safe_rules, Safe-call, Keeps-bind}
use jail.Array.{Bytes, Array}
use jail.Child.{Args}
use jail.Child.Exec.{exec_child}
use jail.Child.Exec.Safety.{any_fails-Safe, drop_privileges-Safe, ShellHasSlash, exec_child-Safe}
use jail.Child.Fork.{
  run_all, openpty, login_tty, fork_on_pty, fork_opened, fork_pty, fork_on_sockets, fork_socket,
  fork_on_pipes, fork_pipe, Channel, tty, socket, pipes, fork_channel, fork_child,
}

run_all-Safe : (cs : List Call) → Safe (run_all cs)
unfolding run_all
run_all-Safe [] = search safe_rules
run_all-Safe (c ∷ cs) = Keeps-bind (call c) _ (Safe-call c) (λ _. run_all-Safe cs)

openpty-Safe : (termp winp : Bytes) → Safe (openpty termp winp)
unfolding openpty
openpty-Safe termp winp = search (safe_rules, run_all-Safe, any_fails-Safe) depth 24

login_tty-Safe : (slave : ℤ) → Safe (login_tty slave)
unfolding login_tty
login_tty-Safe slave = search (safe_rules, any_fails-Safe) depth 12

ruleset fork_rules =
    (safe_rules, run_all-Safe, any_fails-Safe, openpty-Safe, login_tty-Safe, drop_privileges-Safe)

module _ (args : Args) (argv env : Array Bytes) (shell : ShellHasSlash args)
    (whole : length env.array ≡ env.count) where
  fork_on_pty-Safe : (amaster aslave : ℤ) → Safe (fork_on_pty args amaster aslave argv env)
  unfolding fork_on_pty
  fork_on_pty-Safe amaster aslave =
      let run : Safe (exec_child args argv env) = exec_child-Safe args argv env shell whole in
      search fork_rules depth 24

  fork_on_sockets-Safe : (sio eio : Reply) → Safe (fork_on_sockets args sio eio argv env)
  unfolding fork_on_sockets
  fork_on_sockets-Safe sio eio =
      let run : Safe (exec_child args argv env) = exec_child-Safe args argv env shell whole in
      search fork_rules depth 24

  fork_on_pipes-Safe : (pin pout perr : Reply) → Safe (fork_on_pipes args pin pout perr argv env)
  unfolding fork_on_pipes
  fork_on_pipes-Safe pin pout perr =
      let run : Safe (exec_child args argv env) = exec_child-Safe args argv env shell whole in
      search fork_rules depth 24

  fork_opened-Safe : (o : Option (ℤ × ℤ)) → Safe (fork_opened args o argv env)
  unfolding fork_opened
  fork_opened-Safe none = search fork_rules
  fork_opened-Safe (some (amaster, aslave)) = search (fork_rules, fork_on_pty-Safe) depth 16

  fork_channel-Safe : (channel : Channel) → Safe (fork_channel args channel argv env)
  unfolding fork_channel fork_pty fork_socket fork_pipe
  fork_channel-Safe (tty termp winp) = search (fork_rules, fork_opened-Safe) depth 16
  fork_channel-Safe socket = search (fork_rules, fork_on_sockets-Safe) depth 24
  fork_channel-Safe pipes = search (fork_rules, fork_on_pipes-Safe) depth 24

  -- Provided that the shell to start has a directory part and the environment is a whole array,
  -- `child_fork` breaks no assertion, whatever the kernel answers, neither in the parent nor in the
  -- forked process up to `execve`, on a terminal, sockets and pipes.
  pub fork_child-Safe : (channel : Channel) → Safe (fork_child args channel argv env)
  unfolding fork_child
  fork_child-Safe channel = search (fork_rules, fork_channel-Safe) depth 16
