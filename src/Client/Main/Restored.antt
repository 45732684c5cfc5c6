-- ===== src/Client/Main/Restored.antt =====
-- What the program of client/jail.c leaves of the terminal, and its exit code.
use jail.Base.{ℕ, ◌≡◌, ◌⊎◌, refl, ap, ◌∙◌, true, false, inl, inr, Option, none, List, ◌∷◌, pos}
use jail.Posix.{
  World, Call, Reply, Outcome, done, exited, replaced, stopped, M, continue, ◌>>=◌, Libc, answer,
  get_attributes, flush_attributes,
}
use jail.Utility.Files.{int_of_bytes}
use jail.Client.{Client}
use jail.Client.Main.{at_exit, leave}
use jail.Client.Main.Steady.{terminal_calls, IsKept, Partly, Steady}

abbrev pub Calls : Type 0
Calls = List (Call × Reply)

-- At most the attributes were read.
abbrev pub Untouched : Calls → World → Type 0
Untouched before w =
    (terminal_calls w.trace ≡ before)
    ⊎ ((got : Reply) × (terminal_calls w.trace ≡ (get_attributes (pos 0), got) ∷ before))

-- The calls after which the terminal is raw.
abbrev pub raw_calls : Libc → Reply → Reply → Calls → Calls
raw_calls libc got set before =
    (flush_attributes (pos 0) (libc.make_raw got.bytes), set)
    ∷ (get_attributes (pos 0), got)
    ∷ before

-- While the program runs: what it left of the terminal is known to `client_atexit`.
abbrev pub Prepared : Libc → Calls → Client → World → Type 0
Prepared libc before s w =
    ((s.restores ≡ false) × Untouched before w)
    ⊎ ((got : Reply) × ((set : Reply) × ((s.restores ≡ true)
            × (s.tty ≡ true)
            × (s.termp ≡ got.bytes)
            × (terminal_calls w.trace ≡ raw_calls libc got set before))))

-- The terminal is not touched, or it was set back to what was read at first.
abbrev pub Restored : Libc → Calls → World → Type 0
Restored libc before w =
    Untouched before w
    ⊎ ((got : Reply) × ((set : Reply) × ((back : Reply) × (terminal_calls w.trace
              ≡ (flush_attributes (pos 0) got.bytes, back) ∷ raw_calls libc got set before))))

-- The exit code is the program's in the container, or 255.
abbrev pub Coded : Libc → ℕ → Client → Type 0
Coded libc code s =
    (code ≡ 255)
    ⊎ ((libc.is_exited (int_of_bytes s.status) ≡ true)
        × (code ≡ libc.exit_status (int_of_bytes s.status)))

abbrev pub Finished : Libc → Calls → Outcome Client (Option ℕ) → Type 0
Finished libc before (exited code s w) = Coded libc code s × Restored libc before w
Finished libc before (done none s w) = Unit
Finished libc before stopped = Unit
Finished libc before _ = ⊥

Partly-map :
    {A : Type 0} {P Q : A → Client → World → Type 0} (o : Outcome Client A)
    → Partly P o
    → ((a : A) (s : Client) (w : World) → P a s w → Q a s w)
    → Partly Q o
Partly-map (done a s w) h k = k a s w h
Partly-map (exited code s w) h k = h
Partly-map (replaced s w) h k = h
Partly-map stopped h k = tt

module _ (libc : Libc) (before : Calls) where
  still-Prepared :
      (s s' : Client) (w w' : World)
      → IsKept
          (record {
            tty = s.tty;
            termp = s.termp;
            restores = s.restores;
            calls = terminal_calls w.trace;
          })
          s'
          w'
      → Prepared libc before s w
      → Prepared libc before s' w'
  still-Prepared s s' w w' (t, p, r, c) (inl (a, inl b)) = inl (r ∙ a, inl (c ∙ b))
  still-Prepared s s' w w' (t, p, r, c) (inl (a, inr (got, b))) = inl (r ∙ a, inr (got, c ∙ b))
  still-Prepared s s' w w' (t, p, r, c) (inr (got, (set, (a, b, d, e)))) =
      inr (got, (set, (r ∙ a, t ∙ b, p ∙ d, c ∙ e)))

  pub Steady-Prepared :
      {A : Type 0} (m : M Client A)
      → Steady m
      → (s : Client) (w : World) → Prepared libc before s w
      → Partly (λ a s' w'. Prepared libc before s' w') (m s w)
  Steady-Prepared m k s w h =
      Partly-map (m s w)
        (k.on
          (record {
            tty = s.tty;
            termp = s.termp;
            restores = s.restores;
            calls = terminal_calls w.trace;
          })
          s w (refl, refl, refl, refl))
        (λ a s' w' j. still-Prepared s s' w w' j h)

  pub then-Finished :
      {A : Type 0} (o : Outcome Client A) (f : A → M Client (Option ℕ))
      → Partly (λ a s' w'. Prepared libc before s' w') o
      → ((a : A) (s : Client) (w : World)
          → Prepared libc before s w
          → Finished libc before (f a s w))
      → Finished libc before (continue o f)
  then-Finished (done a s w) f h k = k a s w h
  then-Finished (exited code s w) f h k = absurd h
  then-Finished (replaced s w) f h k = absurd h
  then-Finished stopped f h k = tt

  pub leave_lem :
      (code : ℕ) (s : Client) (w : World)
      → Coded libc code s
      → Prepared libc before s w
      → Finished libc before (leave code s w)
  unfolding leave at_exit ◌>>=◌
  leave_lem code s w c (inl (a, u)) = simp a (c, inl u)
  leave_lem code s w c (inr (got, (set, (a, b, d, e)))) =
      let back = answer w (flush_attributes (pos 0) s.termp) in
      simp (a, b)
        (
          c,
          inr (
            got,
            (
              set,
              (
                back,
                ap (λ t. (flush_attributes (pos 0) t, back) ∷ terminal_calls w.trace) d
                    ∙ ap (λ cs. (flush_attributes (pos 0) got.bytes, back) ∷ cs) e,
              ),
            ),
          ),
        )
