-- ===== src/Child/Loop/Exit.antt =====
-- `child_sigchld` and `child_loop` of server/child.c at the exit of the program.
use jail.Base.{
  ℕ, suc, ◌≡◌, ◌⊎◌, refl, ap, Bool, Bool-cases, inl, inr, ◌∷◌, ◌==ℤ◌, ◌==◌, is_neg, is_zero, ◌∙◌,
  true, false, ◌++◌, arith, ℤ, pos, minus_one, some, not, if◌then◌else◌, eq→eqb, ne→eqb,
}
use jail.Posix.{Outcome, Reply, pure, World, done, answer, after, ◌>>=◌, waitpid, write, Call}
use jail.Message.{Abi, status, header}
use jail.Buffer.{Buffer}
use jail.Utility.{FdSet}
use jail.Child.{Args, Child, nonzero}
use jail.Child.Loop.Timeout.{Working, Tells, run_lem}
use jail.Child.Loop.{loop, is_echild, run, reap, handle_sigchld, round}

-- The message with the status that `waitpid` gave.
abbrev pub report : Child → World → Call
report s w = write s.remote (header status 8 ++ (answer w waitpid).bytes)

-- The process that serves a connection goes on: no alarm has rung, or the handshake was over.
abbrev pub Quiet : Child → Type 0
Quiet s = (s.sigalrm ≡ false) ⊎ (s.handshaking ≡ false)

goes_on :
    {P : Type 0} (s : Child) (w : World) (o : Outcome Child Bool)
    → Tells P s w o
    → P
    → o ≡ done true s w
goes_on s w o (b, (e, k)) p = e ∙ ap (λ c. done c s w) (k.1 p)

pub run_goes_on :
    (s : Child) (w : World) (n : ℕ) → Quiet s → s.pid ≡ pos (suc n) → run s w ≡ done true s w
run_goes_on s w n quiet e = elim (Bool-cases s.sigalrm) [
  | inr calm ↦ goes_on s w (run s w) ((run_lem s w).0 calm) working
  | inl rung ↦ elim quiet [
    | inl calm ↦ absurd (ground (arith, rung, calm))
    | inr over ↦ goes_on s w (run s w) ((run_lem s w).1 rung over) (rw e refl, working)
  ]
]
  where
    working : Working s
    working = inr (inr (λ z. absurd (ground (arith, e, z))))

-- What a round that learns of the exit leaves: the streams as they were, no read of them, and the
-- status sent; `waitpid` is asked again if that succeeded.
abbrev pub Reported : Child → World → Child → World → Type 0
Reported s w s' w' =
    let told =
      (report s w, answer (after w waitpid) (report s w)) ∷ (waitpid, answer w waitpid) ∷ w.trace in
    (s'.stdout ≡ s.stdout)
    × (s'.stderr ≡ s.stderr)
    × ((w'.trace ≡ told) ⊎ ((r : Reply) × (w'.trace ≡ (waitpid, r) ∷ told)))

-- A result that is not 0.
abbrev Fails : (Child → World → Type 0) → Outcome Child ℤ → Type 0
Fails P o =
    (ret : ℤ) × ((s' : Child) × ((w' : World) × ((o ≡ done ret s' w')
          × ((nonzero ret ≡ true) × P s' w'))))

reap_exit :
    (fuel n : ℕ) (s : Child) (w : World)
    → s.pid ≡ pos (suc n)
    → (answer w waitpid).ret ≡ pos (suc n)
    → let r = answer (after (after w waitpid) (report s w)) waitpid in
      (is_neg r.ret ≡ true) ⊎ (is_zero r.ret ≡ true)
      → Fails (Reported s w) (reap (suc (suc fuel)) (pos 0) s w)
unfolding reap ◌>>=◌
reap_exit fuel n s w e exited none_left =
    elim (Bool-cases ((answer (after w waitpid) (report s w)).ret ==ℤ pos 8)) [
      | inr unsent ↦ (
        minus_one,
        (
          record s { pid = pos 0 },
          (w2, (rw (exited, e, started, same, unsent) refl, (refl, (refl, refl, inl refl)))),
        ),
      )
      | inl sent ↦ elim (Bool-cases (is_neg r.ret)) [
        | inl gone ↦ elim (Bool-cases (is_echild r.errno)) [
          | inl last ↦ (
            pos 1,
            (
              record s { pid = pos 0; sigchld = false },
              (
                after w2 waitpid,
                (
                  rw (exited, e, started, same, sent, gone, last) refl,
                  (refl, (refl, refl, inr (r, refl))),
                ),
              ),
            ),
          )
          | inr bad ↦ (
            minus_one,
            (
              record s { pid = pos 0 },
              (
                after w2 waitpid,
                (
                  rw (exited, e, started, same, sent, gone, bad) refl,
                  (refl, (refl, refl, inr (r, refl))),
                ),
              ),
            ),
          )
        ]
        | inr here ↦ elim none_left [
          | inl gone ↦ absurd (ground (arith, gone, here))
          | inr quiet ↦ (
            pos 1,
            (
              record s { pid = pos 0; sigchld = false },
              (
                after w2 waitpid,
                (
                  rw (exited, e, started, same, sent, here, quiet) refl,
                  (refl, (refl, refl, inr (r, refl))),
                ),
              ),
            ),
          )
        ]
      ]
    ]
  where
    started : (suc n == 0) ≡ false
    started = ne→eqb (suc n) 0 (λ z. absurd (omega (arith, z)))

    same : (suc n == suc n) ≡ true
    same = eq→eqb (suc n) (suc n) refl

    w2 : World
    w2 = after (after w waitpid) (report s w)

    r : Reply
    r = answer w2 waitpid

handle_dead :
    (fuel : ℕ) (s : Child) (w : World)
    → s.sigchld ≡ true
    → handle_sigchld fuel s w ≡ reap fuel (pos 0) s w
unfolding handle_sigchld ◌>>=◌
handle_dead fuel s w dead = ap (λ b. (if not b then pure (pos 0) else reap fuel (pos 0)) s w) dead

-- The process that serves a connection has one program. Let no alarm have rung or the handshake be
-- over, and a child be signalled. When `waitpid` reports the exit of the program, and, if it is
-- asked again, fails or finds nothing, `child_loop` ends with -1 in this round, whatever becomes of
-- the status message: the streams of the program are not read again, though they may be open and
-- hold output.
pub exit_ends_loop :
    (abi : Abi) (args : Args) (rounds fuel n : ℕ) (c : ℤ) (fds : FdSet) (b : Buffer) (s : Child)
    (w : World)
    → Quiet s
    → s.sigchld ≡ true
    → s.pid ≡ pos (suc n)
    → (answer w waitpid).ret ≡ pos (suc n)
    → let r = answer (after (after w waitpid) (report s w)) waitpid in
      (is_neg r.ret ≡ true) ⊎ (is_zero r.ret ≡ true)
      → (s' : Child) × ((w' : World) × ((loop abi args (suc rounds) (suc (suc fuel)) c fds b s w
              ≡ done (some minus_one) s' w')
            × Reported s w s' w'))
unfolding loop round ◌>>=◌
exit_ends_loop abi args rounds fuel n c fds b s w quiet dead e exited none_left =
    let (ret, (s', (w', (o, (bad, told))))) = reap_exit fuel n s w e exited none_left in
    (
      s',
      (
        w',
        (rw (run_goes_on s w n quiet e, handle_dead (suc (suc fuel)) s w dead, o, bad) refl, told),
      ),
    )
