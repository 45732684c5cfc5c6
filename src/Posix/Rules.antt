-- ===== src/Posix/Rules.antt =====
-- Results of actions, and what the sources rely on in the kernel's answers.
use jail.Base.{ℕ, ◌≤◌, ◌≡◌, ℤ, pos, length, Bool, true, false, if◌then◌else◌, Option, none, some}
use jail.Posix.{
  World, Reply, Call, Outcome, done, exited, replaced, stopped, M, continue, read, pure, get,
  modify, exit, replace, sys, call, ◌>>=◌, after,
}

-- The action does not stop, and what it returns satisfies `P`. It may end the process.
abbrev pub Ends : {S A : Type 0} → (A → S → World → Type 0) → Outcome S A → Type 0
Ends P (done a s w) = P a s w
Ends P (exited code s w) = Unit
Ends P (replaced s w) = Unit
Ends P stopped = ⊥

pub Ends-bind :
    {S A B : Type 0} {P : A → S → World → Type 0} (Q : B → S → World → Type 0) (o : Outcome S A)
    (f : A → M S B)
    → Ends P o
    → ((a : A) (s : S) (w : World) → P a s w → Ends Q (f a s w))
    → Ends Q (continue o f)
Ends-bind Q (done a s w) f h k = k a s w h
Ends-bind Q (exited code s w) f h k = tt
Ends-bind Q (replaced s w) f h k = tt
Ends-bind Q stopped f h k = h

pub Ends-map :
    {S A : Type 0} {P : A → S → World → Type 0} (Q : A → S → World → Type 0) (o : Outcome S A)
    → Ends P o
    → ((a : A) (s : S) (w : World) → P a s w → Q a s w)
    → Ends Q o
Ends-map Q (done a s w) h k = k a s w h
Ends-map Q (exited code s w) h k = tt
Ends-map Q (replaced s w) h k = tt
Ends-map Q stopped h k = h

-- The action returns, with a result that satisfies `P`.
abbrev pub Returns : {S A : Type 0} → (A → S → World → Type 0) → Outcome S A → Type 0
Returns P (done a s w) = P a s w
Returns P _ = ⊥

pub Returns-bind :
    {S A B : Type 0} {P : A → S → World → Type 0} (Q : Outcome S B → Type 0) (o : Outcome S A)
    (f : A → M S B)
    → Returns P o
    → ((a : A) (s : S) (w : World) → P a s w → Q (f a s w))
    → Q (continue o f)
Returns-bind Q (done a s w) f h k = k a s w h
Returns-bind Q (exited code s w) f h k = absurd h
Returns-bind Q (replaced s w) f h k = absurd h
Returns-bind Q stopped f h k = absurd h

-- read(2): the result is the number of bytes stored, and no more than asked for.
pub record ReadFits (kernel : ℕ → Call → Reply) : Type 0 where
  pub fits :
      (t : ℕ) (fd : ℤ) (size n : ℕ)
      → (kernel t (read fd size)).ret ≡ pos n
      → (length (kernel t (read fd size)).bytes ≡ n) × (n ≤ size)

-- The action never stops, and keeps `P` where it returns.
pub record Keeps {S A : Type 0} (P : S → World → Type 0) (m : M S A) : Type 0 where
  pub on : (s : S) (w : World) → P s w → Ends (λ a s' w'. P s' w') (m s w)

module _ {S : Type 0} {P : S → World → Type 0} where
  pub Keeps-pure : {A : Type 0} (a : A) → Keeps P (pure a)
  unfolding pure
  Keeps-pure a = record { on = λ s w h. h }

  pub Keeps-get : Keeps P get
  unfolding get
  Keeps-get = record { on = λ s w h. h }

  pub Keeps-modify : (f : S → S) → ((s : S) (w : World) → P s w → P (f s) w) → Keeps P (modify f)
  unfolding modify
  Keeps-modify f k = record { on = k }

  pub Keeps-exit : {A : Type 0} (code : ℕ) → Keeps P (exit {A = A} code)
  unfolding exit
  Keeps-exit code = record { on = λ s w h. tt }

  pub Keeps-replace : {A : Type 0} → Keeps P (replace {S = S} {A = A})
  unfolding replace
  Keeps-replace = record { on = λ s w h. tt }

  pub Keeps-sys : (c : Call) → ((s : S) (w : World) → P s w → P s (after w c)) → Keeps P (sys c)
  unfolding sys
  Keeps-sys c k = record { on = k }

  pub Keeps-call : (c : Call) → ((s : S) (w : World) → P s w → P s (after w c)) → Keeps P (call c)
  unfolding call
  Keeps-call c k = record { on = k }

  pub Keeps-if :
      {A : Type 0} (b : Bool) (m n : M S A) → Keeps P m → Keeps P n → Keeps P (if b then m else n)
  Keeps-if true m n km kn = km
  Keeps-if false m n km kn = kn

  pub Keeps-option :
      {A B : Type 0} (o : Option B) (m : M S A) (f : B → M S A)
      → Keeps P m
      → ((b : B) → Keeps P (f b))
      → Keeps P (elim o [ none ↦ m | some b ↦ f b ])
  Keeps-option none m f km kf = km
  Keeps-option (some b) m f km kf = kf b

  pub Keeps-bind :
      {A B : Type 0} (m : M S A) (f : A → M S B)
      → Keeps P m
      → ((a : A) → Keeps P (f a))
      → Keeps P (m >>= f)
  unfolding ◌>>=◌
  Keeps-bind m f km kf = record {
    on = λ s w h.
        Ends-bind (λ b s' w'. P s' w') (m s w) f (km.on s w h) (λ a s' w' h'. (kf a).on s' w' h');
  }

pub ruleset keeps_rules = (
  Keeps-pure, Keeps-get, Keeps-modify, Keeps-exit, Keeps-replace, Keeps-sys, Keeps-call, Keeps-if,
  Keeps-option, Keeps-bind,
)

-- The action never stops.
abbrev pub Safe : {S A : Type 0} → M S A → Type 0
Safe m = Keeps (λ s w. Unit) m

module _ {S : Type 0} where
  pub Safe-modify : (f : S → S) → Safe (modify f)
  Safe-modify f = Keeps-modify f (λ s w h. tt)

  pub Safe-sys : (c : Call) → Safe (sys {S = S} c)
  Safe-sys c = Keeps-sys c (λ s w h. tt)

  pub Safe-call : (c : Call) → Safe (call {S = S} c)
  Safe-call c = Keeps-call c (λ s w h. tt)

pub ruleset safe_rules = (
  Keeps-pure, Keeps-get, Safe-modify, Keeps-exit, Keeps-replace, Safe-sys, Safe-call, Keeps-if,
  Keeps-option, Keeps-bind,
)
