-- ===== src/Server/Loop/Descriptors.antt =====
-- `server_sigchld` and `server_loop` of server/jaild.c: their end and the sockets of the process.
use jail.Base.{
  ℕ, zero, suc, ◌+◌, ◌<◌, ◌≡◌, ◌⊎◌, refl, ap, ◌∙◌, List, ◌∷◌, Bool, true, false, Bool-cases, inl,
  inr, not, if◌then◌else◌, arith, ℤ, pos, minus_one, is_zero, is_neg,
}
use jail.Posix.{
  World, Outcome, Call, Reply, answer, after, ◌>>=◌, pure, waitpid, pselect, accept, fork,
}
use jail.Array.{Bytes}
use jail.Posix.Rules.{Ends, Ends-bind}
use jail.Utility.{FdSet, fd_set}
use jail.Child.Loop.{is_echild, is_eintr, successor}
use jail.Server.{Server, run_handlers}
use jail.Server.Socket.Ledger.{Holds, remove, remove_head}
use jail.Server.Loop.{
  reap, handle_sigchld, take_connection, wait, round, Left, loop, follow, Round, finish, again,
  became, finished, connection, running,
}

-- No child is reported `k` moments after `t`.
abbrev pub Quiet : (ℕ → Call → Reply) → ℕ → ℕ → Type 0
Quiet kernel t k =
    (is_neg (kernel (t + k) waitpid).ret ≡ true) ⊎ (is_zero (kernel (t + k) waitpid).ret ≡ true)

-- waitpid(2): a process has finitely many children to report, fewer than `fuel` in a row.
pub record ReportsFew (fuel : ℕ) (kernel : ℕ → Call → Reply) : Type 0 where
  pub last : (t : ℕ) → (k : ℕ) × ((k < fuel) × Quiet kernel t k)

-- What the loop keeps.
abbrev pub Serving : Bytes → List ℤ → Bool → ℕ → World → Type 0
Serving name fds b fuel w = Holds name fds b w × ReportsFew fuel w.kernel

Quiet-later :
    (kernel : ℕ → Call → Reply) (t k : ℕ) → Quiet kernel t (suc k) → Quiet kernel (t + 1) k
Quiet-later kernel t k q = let moment : (t + 1) + k ≡ t + suc k = omega arith in rw moment q

not-Quiet :
    (kernel : ℕ → Call → Reply) (t : ℕ)
    → is_neg (kernel t waitpid).ret ≡ false
    → is_zero (kernel t waitpid).ret ≡ false
    → ¬ Quiet kernel t 0
not-Quiet kernel t e f (inl g) = let same : t + 0 ≡ t = omega arith in cc (g, e, same)
not-Quiet kernel t e f (inr g) = let same : t + 0 ≡ t = omega arith in cc (g, f, same)

-- Why a round, and the loop, was the last.
abbrev Ended : ℤ → Server → Type 0
Ended ret s = ((ret ≡ pos 0) × (s.sigterm ≡ true)) ⊎ (ret ≡ minus_one)

-- The process of a connection: it has the new socket, and not the listening one.
abbrev Joined : Bytes → ℤ → List ℤ → Bool → ℤ → World → Type 0
Joined name fd held b c w = (is_neg c ≡ false) × Holds name (remove fd (c ∷ held)) b w

abbrev Going : Bytes → ℤ → List ℤ → Bool → ℕ → Round → Server → World → Type 0
Going name fd held b few (finish ret) s w = Serving name held b few w × Ended ret s
Going name fd held b few (became c) s w = Joined name fd held b c w
Going name fd held b few (again fds) s w = Serving name held b few w

-- What the loop comes to: as the server it has the sockets that it had.
abbrev pub Served : Bytes → ℤ → List ℤ → Bool → ℕ → Left → Server → World → Type 0
Served name fd held b few (finished ret) s w = Serving name held b few w × Ended ret s
Served name fd held b few (connection c) s w = Joined name fd held b c w
Served name fd held b few running s w = Serving name held b few w

module _ (name : Bytes) (fd : ℤ) (held : List ℤ) (b : Bool) (few : ℕ) where
  reap-Ends :
      (fuel k ret : ℕ) (s : Server) (w : World)
      → k < fuel
      → Quiet w.kernel w.now k
      → Serving name held b few w
      → Ends (λ r s' w'. Serving name held b few w') (reap fuel ret s w)
  unfolding reap ◌>>=◌
  reap-Ends zero k ret s w h e v = absurd (omega (arith, h))
  reap-Ends (suc fuel) k ret s w h e v = elim (Bool-cases (is_neg (answer w waitpid).ret)) [
    | inl gone ↦ elim (Bool-cases (is_echild (answer w waitpid).errno)) [
      | inl none_left ↦ rw (gone, none_left, Ends) v
      | inr bad ↦ rw (gone, bad, Ends) v
    ]
    | inr here ↦ elim (Bool-cases (is_zero (answer w waitpid).ret)) [
      | inl quiet ↦ rw (here, quiet, Ends) v
      | inr reported ↦
          rw (here, reported)
            (later k here reported h e
              (λ j h' e'. reap-Ends fuel j (ret + 1) s (after w waitpid) h' e' v))
    ]
  ]
    where
      later :
          (k : ℕ)
          → is_neg (answer w waitpid).ret ≡ false
          → is_zero (answer w waitpid).ret ≡ false
          → k < suc fuel
          → Quiet w.kernel w.now k
          → ((j : ℕ)
              → j < fuel
              → Quiet w.kernel (w.now + 1) j
              → Ends
                  (λ r s' w'. Serving name held b few w')
                  (reap fuel (ret + 1) s (after w waitpid)))
          → Ends (λ r s' w'. Serving name held b few w') (reap fuel (ret + 1) s (after w waitpid))
      later zero here reported h e rest = absurd (not-Quiet w.kernel w.now here reported e)
      later (suc j) here reported h e rest =
          rest j (omega (arith, h)) (Quiet-later w.kernel w.now j e)

  sigchld-Ends :
      (s : Server) (w : World)
      → Serving name held b few w
      → Ends (λ r s' w'. Serving name held b few w') (handle_sigchld few s w)
  unfolding handle_sigchld ◌>>=◌
  sigchld-Ends s w v = elim (Bool-cases s.sigchld) [
    | inl set ↦ simp (set, not) (let (k, (h, e)) = v.1.last w.now in reap-Ends few k 0 s w h e v)
    | inr clear ↦ rw clear v
  ]

  take-Ends :
      (fds : FdSet) (s : Server) (w : World)
      → Serving name held b few w
      → Ends (Going name fd held b few) (take_connection fd fds s w)
  unfolding take_connection ◌>>=◌
  take-Ends fds s w v = elim (Bool-cases (is_neg (answer w (accept fd)).ret)) [
    | inl none_came ↦ rw (none_came, Ends) (rw none_came v.0, v.1)
    | inr came ↦ elim (Bool-cases (is_zero (answer (after w (accept fd)) fork).ret)) [
      | inl new ↦ rw (came, new, Ends) (came, rw came (ap (λ l. remove fd (c ∷ l)) v.0.0, v.0.1))
      | inr old ↦
          rw (came, old, Ends)
            (rw came (ap (λ l. remove c (c ∷ l)) v.0.0 ∙ remove_head c held, v.0.1), v.1)
    ]
  ]
    where
      c : ℤ
      c = (answer w (accept fd)).ret

  wait-Ends :
      (fds : FdSet) (s : Server) (w : World)
      → Serving name held b few w
      → Ends (Going name fd held b few) (wait fd fds s w)
  unfolding wait ◌>>=◌
  wait-Ends fds s w v = elim (Bool-cases (is_neg (answer w c).ret)) [
    | inl failed ↦ elim (Bool-cases (is_eintr (answer w c).errno)) [
      | inl signal ↦ rw (failed, signal, Ends) v
      | inr bad ↦ rw (failed, bad, Ends) (v, inr refl)
    ]
    | inr woke ↦ elim (Bool-cases (is_zero (answer w c).ret)) [
      | inl none_ready ↦ rw (woke, none_ready, Ends) v
      | inr some_ready ↦
          rw (woke, some_ready)
            (take-Ends (answer w c).ready (run_handlers (answer w c) s) (after w c) v)
    ]
  ]
    where
      c : Call
      c = pselect (successor fd) (fd_set fd fds)

  round-Ends :
      (fds : FdSet) (s : Server) (w : World)
      → Serving name held b few w
      → Ends (Going name fd held b few) (round few fd fds s w)
  unfolding round ◌>>=◌
  round-Ends fds s w v = elim (Bool-cases s.sigterm) [
    | inl asked ↦ simp (asked, Ends) (v, inl (refl, refl))
    | inr not_asked ↦ simp (not_asked) (
        Ends-bind (Going name fd held b few) (handle_sigchld few s w)
          (λ reaped. if is_neg reaped then pure (finish minus_one) else wait fd fds)
          (sigchld-Ends s w v)
          (λ r s1 w1 v1. elim (Bool-cases (is_neg r)) [
            | inl bad ↦ rw (bad, Ends) (v1, inr refl)
            | inr good ↦ rw good (wait-Ends fds s1 w1 v1)
          ]))
  ]

  follow-Ends :
      (further : FdSet → Server → World → Outcome Server Left)
      → ((fds : FdSet) (s : Server) (w : World)
          → Serving name held b few w
          → Ends (Served name fd held b few) (further fds s w))
      → (r : Round) (s : Server) (w : World) → Going name fd held b few r s w
      → Ends (Served name fd held b few) (follow further r s w)
  unfolding follow ◌>>=◌
  follow-Ends further k (finish ret) s w h = h
  follow-Ends further k (became c) s w h = h
  follow-Ends further k (again fds) s w h = k fds s w h

  -- Where `waitpid` reports fewer than `few` children in a row, `server_loop` ends after any number
  -- of rounds: the loop over `waitpid` never runs out of fuel. Any name of a socket is then bound or
  -- not as before. The server has exactly the sockets that it had, each connection being closed: it
  -- is finished with 0, after `SIGTERM`, or with -1, or it is still running. Or the process is the
  -- new one for a connection, which it has beside the old sockets without the listening one.
  pub loop_lem :
      (rounds : ℕ) (fds : FdSet) (s : Server) (w : World)
      → Serving name held b few w
      → Ends (Served name fd held b few) (loop rounds few fd fds s w)
  unfolding loop ◌>>=◌
  loop_lem zero fds s w v = v
  loop_lem (suc rounds) fds s w v =
      Ends-bind _ (round few fd fds s w) _ (round-Ends fds s w v)
        (follow-Ends (loop rounds few fd) (λ fds' s1 w1 v1. loop_lem rounds fds' s1 w1 v1))
