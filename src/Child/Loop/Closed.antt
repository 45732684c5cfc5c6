-- ===== src/Child/Loop/Closed.antt =====
-- `child_loop` of server/child.c when a stream of the program ends: the variable `fds`.
use jail.Base.{ℕ, ◌<◌, ◌≡◌, true, false, ℤ, is_neg, is_zero, ◌||◌}
use jail.Posix.{World, Call, Reply, after, close, pselect}
use jail.Buffer.{Buffer}
use jail.Utility.{FdSet}
use jail.Child.{Child}
use jail.Child.Loop.{Stream, out, err, fd_of, is_eintr}
use jail.Child.Loop.Output.{output_read}
use jail.Child.Loop.Steps.{select}

-- The other stream of the program.
abbrev pub other : Stream → Stream
other out = err
other err = out

-- `pselect` with a descriptor that is not open fails, and not with EINTR.
pub record BadDescriptor (kernel : ℕ → Call → Reply) (closed_at : ℕ) (fd : ℤ) : Type 0 where
  pub fails :
      (t : ℕ) (max : ℤ) (set : FdSet)
      → closed_at < t
      → set fd ≡ true
      → (is_neg (kernel t (pselect max set)).ret ≡ true)
        × (is_eintr (kernel t (pselect max set)).errno ≡ false)

-- `pselect` finds `fd` readable, and neither the client nor the other stream, and no signal arrives.
pub record OnlyReady (r : Reply) (fd c fd2 : ℤ) : Type 0 where
  pub positive : (is_neg r.ret || is_zero r.ret) ≡ false
  pub ready : r.ready fd ≡ true
  pub calm : r.ready c ≡ false
  pub still : r.ready fd2 ≡ false
  pub no_alarm : r.handled_first ≡ false
  pub no_exit : r.handled_second ≡ false

-- The worlds after `pselect`, and after the `read` and the `close` that follow.
abbrev pub selected : ℤ → FdSet → Child → World → World
selected c fds s w = after w (select c s fds)

abbrev pub closed : ℤ → Stream → FdSet → Child → World → World
closed c stream fds s w =
    after (after (selected c fds s w) (output_read stream s)) (close (fd_of stream s))
