-- ===== src/Child/Loop/Timeout.antt =====
-- `child_run` of server/child.c: the alarm and the end of the loop.
use jail.Base.{
  ◌≡◌, ◌⊎◌, ◌↔◌, refl, sym, Bool, inl, inr, zero, suc, true, false, not, arith, ℤ, pos, negsuc,
  is_neg, is_zero, ◌||◌, if◌then◌else◌,
}
use jail.Posix.{World, Outcome, done, ◌>>=◌, after, answer, Call, setitimer}
use jail.Utility.{set_alarm_timer}
use jail.Child.{Child, nonzero}
use jail.Child.Loop.{has_work, run}

-- The alarm that ends the handshake: 0 seconds.
abbrev pub stop_timer : Call
stop_timer = setitimer 0 0

-- There is something to do: a stream of the program is open, or a program may still exit. No program
-- was started (-1), or it has a number, or it has exited (0).
abbrev pub Working : Child → Type 0
Working s = (is_neg s.stdout ≡ false) ⊎ (is_neg s.stderr ≡ false) ⊎ (¬ (s.pid ≡ pos 0))

-- The result is whether `P` holds, and the state and the world are these.
abbrev pub Tells : Type 0 → Child → World → Outcome Child Bool → Type 0
Tells P s w o = (b : Bool) × ((o ≡ done b s w) × ((b ≡ true) ↔ P))

test_lem :
    (a b : Bool) (p : ℤ)
    → ((if not a || not b then true else not (is_zero p)) ≡ true)
      ↔ ((a ≡ false) ⊎ (b ≡ false) ⊎ (¬ (p ≡ pos 0)))
test_lem false b p = (λ h. inl refl, λ h. refl)
test_lem true false p = (λ h. inr (inl refl), λ h. refl)
test_lem true true (pos (suc n)) =
    (λ h. inr (inr (λ e. absurd (ground (arith, e)))), λ h. ground arith)
test_lem true true (negsuc n) = (λ h. inr (inr (λ e. absurd (ground (arith, e)))), λ h. refl)
test_lem true true (pos zero) = (λ h. absurd (ground (arith, h)), never)
  where
    never : (true ≡ false) ⊎ (true ≡ false) ⊎ (¬ (pos 0 ≡ pos 0)) → false ≡ true
    never (inl e) = sym e
    never (inr (inl e)) = sym e
    never (inr (inr n)) = absurd (n refl)

pub has_work-Working : (s : Child) → (has_work s ≡ true) ↔ Working s
unfolding has_work
has_work-Working s = test_lem (is_neg s.stdout) (is_neg s.stderr) s.pid

-- A test in front.
guarded_lem :
    (b c : Bool) (P : Type 0)
    → (c ≡ true) ↔ P
    → ((if b then false else c) ≡ true) ↔ ((b ≡ false) × P)
guarded_lem true c P k = (λ h. absurd (ground (arith, h)), λ (h, p). absurd (ground (arith, h)))
guarded_lem false c P k = (λ h. (refl, k.0 h), λ (h, p). k.1 p)

-- Before an alarm has rung, and after the handshake, `child_run` changes nothing. The first alarm
-- ends the handshake and stops the timer. The loop goes on exactly if a stream of the program is
-- open or the number of the program is not 0, and, once the alarm has rung, a program was started
-- and the timer, where it is to be stopped, could be.
pub run_lem :
    (s : Child) (w : World)
    → (s.sigalrm ≡ false → Tells (Working s) s w (run s w))
      × (s.sigalrm ≡ true
          → s.handshaking ≡ false
          → Tells ((is_neg s.pid ≡ false) × Working s) s w (run s w))
      × (s.sigalrm ≡ true
          → s.handshaking ≡ true
          → Tells
              ((nonzero (answer w stop_timer).ret ≡ false) × ((is_neg s.pid ≡ false) × Working s))
              (record s { handshaking = false })
              (after w stop_timer)
              (run s w))
unfolding run set_alarm_timer ◌>>=◌
run_lem s w = (
  λ a. (has_work s, (ground arith, has_work-Working s)),
  λ a h.
      (_, (ground arith, guarded_lem (is_neg s.pid) (has_work s) (Working s) (has_work-Working s))),
  λ a h. (
    _,
    (
      ground arith,
      guarded_lem (nonzero (answer w stop_timer).ret) (if is_neg s.pid then false else has_work s)
          ((is_neg s.pid ≡ false) × Working s)
          (guarded_lem (is_neg s.pid) (has_work s) (Working s) (has_work-Working s)),
    ),
  ),
)
