-- ===== src/Child/Loop/Steps.antt =====
-- The parts of a round of `child_loop` of server/child.c: a stream that is read or not, `pselect`.
use jail.Base.{
  ℕ, suc, ◌≡◌, refl, ap, true, false, arith, ℤ, pos, minus_one, is_neg, is_zero, ◌||◌, ◌&&◌, not,
  if◌then◌else◌, Bool, Bool-cases, inl, inr,
}
use jail.Posix.{World, Call, Reply, done, pure, ◌>>=◌, after, answer, close, pselect}
use jail.Message.{Abi}
use jail.Buffer.{Buffer}
use jail.Utility.{FdSet}
use jail.Child.{Args, Child}
use jail.Child.Signals.{run_handlers}
use jail.Child.Loop.{
  Stream, out, err, finish, fd_of, close_stream, successor, is_eintr, process_output,
  output_if_ready, watch, reap, handle_sigchld, wait, round,
}
use jail.Child.Loop.Exit.{Quiet, run_goes_on}
use jail.Child.Loop.Output.{output_read, relay_end}

-- The call of `pselect` in a round.
abbrev pub select : ℤ → Child → FdSet → Call
select c s fds = pselect (successor (watch c s fds).0) (watch c s fds).1

pub is_ready :
    (stream : Stream) (ready : FdSet) (fd : ℕ) (s : Child)
    → fd_of stream s ≡ pos fd
    → ready (pos fd) ≡ true
    → (not (is_neg (fd_of stream s)) && ready (fd_of stream s)) ≡ true
is_ready stream ready fd s e h = rw (e, h)

pub fd_of-run_handlers :
    (stream : Stream) (r : Reply) (s : Child) → fd_of stream (run_handlers r s) ≡ fd_of stream s
unfolding fd_of run_handlers
fd_of-run_handlers out r s = ground arith
fd_of-run_handlers err r s = ground arith

-- A stream that is not ready is not read.
pub output_skipped :
    (c : ℤ) (stream : Stream) (ready : FdSet) (s : Child) (w : World)
    → ready (fd_of stream s) ≡ false
    → output_if_ready c stream ready s w ≡ done (pos 0) s w
unfolding output_if_ready ◌>>=◌
output_skipped c stream ready s w h = elim (Bool-cases (is_neg (fd_of stream s))) [
  | inl closed ↦ rw closed refl
  | inr held ↦ rw (held, h) refl
]

-- A stream that is ready and ends is closed.
pub output_ends :
    (c : ℤ) (stream : Stream) (ready : FdSet) (fd : ℕ) (s : Child) (w : World)
    → fd_of stream s ≡ pos fd
    → ready (pos fd) ≡ true
    → let r = answer w (output_read stream s) in
      (is_neg r.ret || is_zero r.ret) ≡ true
      → output_if_ready c stream ready s w
        ≡ done
            (pos 0)
            (close_stream stream s)
            (after (after w (output_read stream s)) (close (fd_of stream s)))
unfolding output_if_ready process_output ◌>>=◌
output_ends c stream ready fd s w e h z = rw (is_ready stream ready fd s e h) (
    relay_end c stream (answer w (output_read stream s)).ret (answer w (output_read stream s)).bytes
      s (after w (output_read stream s)) z)

pub or-false : (a b : Bool) → (a || b) ≡ false → (a ≡ false) × (b ≡ false)
or-false a b h = (ground arith, ground arith)

pub quiet_handlers :
    (r : Reply) (s : Child)
    → r.handled_first ≡ false
    → r.handled_second ≡ false
    → run_handlers r s ≡ s
unfolding run_handlers
quiet_handlers r s a b = rw (a, b) refl

pub not_dead :
    (fuel : ℕ) (s : Child) (w : World)
    → s.sigchld ≡ false
    → handle_sigchld fuel s w ≡ done (pos 0) s w
unfolding handle_sigchld ◌>>=◌
not_dead fuel s w h = ap (λ b. (if not b then pure (pos 0) else reap fuel (pos 0)) s w) h

module _ (abi : Abi) (args : Args) where
  pub wait_fails :
      (c : ℤ) (fds : FdSet) (b : Buffer) (s : Child) (w : World)
      → is_neg (answer w (select c s fds)).ret ≡ true
      → is_eintr (answer w (select c s fds)).errno ≡ false
      → wait abi args c fds b s w
        ≡ done
            (finish minus_one)
            (run_handlers (answer w (select c s fds)) s)
            (after w (select c s fds))
  unfolding wait ◌>>=◌
  wait_fails c fds b s w failed bad = rw (failed, bad) refl

  pub round_waits :
      (fuel n : ℕ) (c : ℤ) (fds : FdSet) (b : Buffer) (s : Child) (w : World)
      → Quiet s
      → s.pid ≡ pos (suc n)
      → s.sigchld ≡ false
      → round abi args fuel c fds b s w ≡ wait abi args c fds b s w
  unfolding round ◌>>=◌
  round_waits fuel n c fds b s w quiet e alive =
      rw (run_goes_on s w n quiet e, not_dead fuel s w alive) refl
