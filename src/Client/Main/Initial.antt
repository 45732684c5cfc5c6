-- ===== src/Client/Main/Initial.antt =====
-- `client_initialize` of client/jail.c: the status before the server reports one.
use jail.Base.{◌≡◌, refl, ◌∙◌, Bool, true, false, List, [], ◌∷◌, ℤ, if◌then◌else◌}
use jail.Posix.{
  World, Call, Outcome, done, M, ◌>>=◌, pure, modify, sys, call, Libc, answer, after, continue,
}
use jail.Array.{Bytes}
use jail.Child.{any_fails}
use jail.Client.{Client}
use jail.Client.Main.{reset, initialize_signals, initialize_stream, initialize_terminal, initialize}

-- The bytes of -1.
abbrev pub no_status : Bytes
no_status = 255 ∷ 255 ∷ 255 ∷ 255 ∷ []

-- The action returns, and the status is `st`.
abbrev pub Leaves : {A : Type 0} → Bytes → Outcome Client A → Type 0
Leaves {A} st o = (a : A) × ((c : Client) × ((w : World) × ((o ≡ done a c w) × (c.status ≡ st))))

-- The action always returns, and leaves the status as it was.
record Stays {A : Type 0} (m : M Client A) : Type 0 where
  on : (st : Bytes) (c : Client) (w : World) → c.status ≡ st → Leaves st (m c w)

Stays-pure : {A : Type 0} (a : A) → Stays (pure a)
unfolding ◌>>=◌
Stays-pure a = record { on = λ st c w e. (a, (c, (w, (refl, e)))) }

Stays-modify : (f : Client → Client) → ((c : Client) → (f c).status ≡ c.status) → Stays (modify f)
unfolding ◌>>=◌
Stays-modify f same = record { on = λ st c w e. (_, (f c, (w, (refl, same c ∙ e)))) }

Stays-sys : (k : Call) → Stays (sys k)
unfolding ◌>>=◌
Stays-sys k = record { on = λ st c w e. (answer w k, (c, (after w k, (refl, e)))) }

Stays-call : (k : Call) → Stays (call k)
unfolding ◌>>=◌
Stays-call k = record { on = λ st c w e. ((answer w k).ret, (c, (after w k, (refl, e)))) }

Stays-if :
    {A : Type 0} (b : Bool) (m n : M Client A) → Stays m → Stays n → Stays (if b then m else n)
Stays-if true m n km kn = km
Stays-if false m n km kn = kn

Leaves-bind :
    {A B : Type 0} (st : Bytes) (o : Outcome Client A) (f : A → M Client B)
    → Leaves st o
    → ((a : A) → Stays (f a))
    → Leaves st (continue o f)
Leaves-bind st o f (a, (c, (w, (e, k)))) next = rw e ((next a).on st c w k)

Stays-bind :
    {A B : Type 0} (m : M Client A) (f : A → M Client B)
    → Stays m
    → ((a : A) → Stays (f a))
    → Stays (m >>= f)
unfolding ◌>>=◌
Stays-bind m f km kf = record { on = λ st c w e. Leaves-bind st (m c w) f (km.on st c w e) kf }

ruleset stays_rules = (Stays-pure, Stays-modify, Stays-sys, Stays-call, Stays-if, Stays-bind, refl)

any_fails-Stays : (calls : List ((ℤ → Bool) × Call)) → Stays (any_fails calls)
unfolding any_fails
any_fails-Stays [] = Stays-pure false
any_fails-Stays ((fails, k) ∷ calls) = let others = any_fails-Stays calls in search stays_rules

signals-Stays : Stays initialize_signals
unfolding initialize_signals
signals-Stays = search (stays_rules, any_fails-Stays)

stream-Stays : (libc : Libc) → Stays (initialize_stream libc)
unfolding initialize_stream
stream-Stays libc = search stays_rules depth 16

terminal-Stays : (libc : Libc) → Stays (initialize_terminal libc)
unfolding initialize_terminal
terminal-Stays libc = search stays_rules depth 24

-- `client_initialize` returns, and the status is -1.
pub initialize-Leaves :
    (libc : Libc) (c : Client) (w : World) → Leaves no_status (initialize libc c w)
unfolding initialize reset ◌>>=◌
initialize-Leaves libc c w =
    Leaves-bind no_status (initialize_signals (reset c) w) _
      (signals-Stays.on no_status (reset c) w refl)
      (λ a. let t = terminal-Stays libc in let s = stream-Stays libc in search stays_rules depth 24)
