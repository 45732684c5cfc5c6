-- ===== src/Client/Main/Steady.antt =====
-- The parts of client/jail.c between `client_initialize` and the end of the program: they neither
-- end the process nor touch the terminal's attributes and what `client_atexit` goes by.
pub mod Relay
use jail.Base.{
  ℕ, zero, suc, ◌+◌, ◌≡◌, refl, ap, ◌∙◌, Bool, true, false, Bool-cases, inl, inr, Option, none,
  some, List, [], ◌∷◌, ◌++◌, ◌&&◌, arith, not, if◌then◌else◌, ℤ, pos, negsuc, minus_one, is_zero,
  is_neg, ◌==◌,
}
use jail.Posix.{
  World, Call, Reply, Outcome, done, exited, replaced, stopped, M, continue, ◌>>=◌, pure, get,
  modify, sys, call, stop, answer, after, flush_attributes, set_attributes, get_attributes,
}
use jail.Array
use jail.Array.{Bytes, Array}
use jail.Message.{Abi, Message, MessageType, std_out, std_err, status, of_code, header}
use jail.Buffer.{Buffer, get_message, consume_message, get_buffer_space}
use jail.Buffer.Drain.{drain, pushed, received}
use jail.Buffer.Drain
use jail.Utility.{FdSet}
use jail.Child.{any_fails}
use jail.Client.{Client}
use jail.Client.Prepare.{
  push, prepare_argv, prepare_env, prepare, serialize_both, send, execute_plain, execute_tty,
  execute, nonzero,
}
use jail.Client.Remote.{process_stdio, process_status, dispatch_case, dispatch, process_remote}
use jail.Client.Loop.{
  process_input, send_input, run_handlers, send_winsize, serve_ready, round, loop, Round, finish,
  again,
}
use jail.Client.Main.{start}

-- The calls on a terminal's attributes.
abbrev pub touches : Call → Bool
touches (set_attributes fd t) = true
touches (flush_attributes fd t) = true
touches (get_attributes fd) = true
touches _ = false

abbrev pub select : Bool → Call × Reply → List (Call × Reply) → List (Call × Reply)
select true c calls = c ∷ calls
select false c calls = calls

-- Those of a trace.
abbrev pub terminal_calls : List (Call × Reply) → List (Call × Reply)
terminal_calls [] = []
terminal_calls ((c, r) ∷ calls) = select (touches c) (c, r) (terminal_calls calls)

-- What stays.
pub record Kept : Type 0 where
  pub tty : Bool
  pub termp : Bytes
  pub restores : Bool
  pub calls : List (Call × Reply)

abbrev pub IsKept : Kept → Client → World → Type 0
IsKept k s w =
    (s.tty ≡ k.tty)
    × (s.termp ≡ k.termp)
    × (s.restores ≡ k.restores)
    × (terminal_calls w.trace ≡ k.calls)

-- The action does not end the process, and where it returns, `P` holds.
abbrev pub Partly : {S A : Type 0} → (A → S → World → Type 0) → Outcome S A → Type 0
Partly P (done a s w) = P a s w
Partly P stopped = Unit
Partly P _ = ⊥

pub Partly-bind :
    {S A B : Type 0} {P : A → S → World → Type 0} (Q : B → S → World → Type 0) (o : Outcome S A)
    (f : A → M S B)
    → Partly P o
    → ((a : A) (s : S) (w : World) → P a s w → Partly Q (f a s w))
    → Partly Q (continue o f)
Partly-bind Q (done a s w) f h k = k a s w h
Partly-bind Q (exited code s w) f h k = absurd h
Partly-bind Q (replaced s w) f h k = absurd h
Partly-bind Q stopped f h k = tt

-- Such an action, which leaves the terminal alone.
pub record Steady {A : Type 0} (m : M Client A) : Type 0 where
  pub on :
      (k : Kept) (s : Client) (w : World)
      → IsKept k s w
      → Partly (λ a s' w'. IsKept k s' w') (m s w)

-- An assignment to other variables.
abbrev pub IsOther : (Client → Client) → Type 0
IsOther f =
    (s : Client) → ((f s).tty ≡ s.tty) × ((f s).termp ≡ s.termp) × ((f s).restores ≡ s.restores)

pub Steady-pure : {A : Type 0} (a : A) → Steady (pure a)
unfolding ◌>>=◌
Steady-pure a = record { on = λ k s w h. h }

pub Steady-get : Steady get
unfolding ◌>>=◌
Steady-get = record { on = λ k s w h. h }

pub Steady-stop : {A : Type 0} → Steady (stop {A = A})
unfolding ◌>>=◌
Steady-stop = record { on = λ k s w h. tt }

pub Steady-modify : (f : Client → Client) → IsOther f → Steady (modify f)
unfolding ◌>>=◌
Steady-modify f other = record {
  on = λ k s w (a, b, c, d). ((other s).0 ∙ a, (other s).1 ∙ b, (other s).2 ∙ c, d);
}

terminal_calls_lem :
    (c : Call) (r : Reply) (calls : List (Call × Reply))
    → touches c ≡ false
    → terminal_calls ((c, r) ∷ calls) ≡ terminal_calls calls
terminal_calls_lem c r calls e = ap (λ b. select b (c, r) (terminal_calls calls)) e

pub Steady-sys : (c : Call) → touches c ≡ false → Steady (sys c)
unfolding ◌>>=◌
Steady-sys c e = record {
  on = λ k s w (a, b, d, f). (a, b, d, terminal_calls_lem c (answer w c) w.trace e ∙ f);
}

pub Steady-call : (c : Call) → touches c ≡ false → Steady (call c)
unfolding ◌>>=◌
Steady-call c e = record {
  on = λ k s w (a, b, d, f). (a, b, d, terminal_calls_lem c (answer w c) w.trace e ∙ f);
}

pub Steady-if :
    {A : Type 0} (b : Bool) (m n : M Client A) → Steady m → Steady n → Steady (if b then m else n)
Steady-if true m n km kn = km
Steady-if false m n km kn = kn

pub Steady-option :
    {A B : Type 0} (o : Option B) (m : M Client A) (f : B → M Client A)
    → Steady m
    → ((b : B) → Steady (f b))
    → Steady (elim o [ none ↦ m | some b ↦ f b ])
Steady-option none m f km kf = km
Steady-option (some b) m f km kf = kf b

pub Steady-bind :
    {A B : Type 0} (m : M Client A) (f : A → M Client B)
    → Steady m
    → ((a : A) → Steady (f a))
    → Steady (m >>= f)
unfolding ◌>>=◌
Steady-bind m f km kf = record {
  on = λ k s w h.
      Partly-bind (λ b s' w'. IsKept k s' w') (m s w) f (km.on k s w h)
        (λ a s' w' h'. (kf a).on k s' w' h');
}

pub ruleset steady_rules = (
  Steady-pure, Steady-get, Steady-stop, Steady-modify, Steady-sys, Steady-call, Steady-if,
  Steady-option, Steady-bind, refl,
)

abbrev pub all_silent : List ((ℤ → Bool) × Call) → Bool
all_silent [] = true
all_silent ((fails, c) ∷ calls) = not (touches c) && all_silent calls

push-Steady : (a : Array Bytes) (str : Bytes) → Steady (push a str)
unfolding push
push-Steady a str = Steady-bind _ _ (Steady-call _ refl) (λ copy.
    Steady-bind _ _ (Steady-call _ refl) (λ grown.
      Steady-option (Array.push (nonzero copy) (nonzero grown) a str) stop pure Steady-stop
        Steady-pure))

prepare_argv-Steady : (xs : List Bytes) (a : Array Bytes) → Steady (prepare_argv xs a)
unfolding prepare_argv
prepare_argv-Steady [] a = search steady_rules
prepare_argv-Steady (x ∷ xs) a =
    Steady-bind _ _ (push-Steady a x)
      (λ r. let ih = prepare_argv-Steady xs r.1 in search steady_rules depth 16)

prepare_env-Steady : (xs : List Bytes) (a : Array Bytes) → Steady (prepare_env xs a)
unfolding prepare_env
prepare_env-Steady [] a = Steady-pure _
prepare_env-Steady (x ∷ xs) a =
    let skip = prepare_env-Steady xs a in
    Steady-if _ _ _ skip (
      Steady-bind _ _ (push-Steady a x)
        (λ r. let ih = prepare_env-Steady xs r.1 in search steady_rules depth 16))

prepare-Steady : (len offset : ℕ) → Steady (prepare len offset)
unfolding prepare
prepare-Steady len offset = Steady-bind _ _ Steady-get (λ s.
    Steady-bind _ _ (prepare_argv-Steady s.argv Array.initialize) (λ argv.
      Steady-option argv _ _ (Steady-pure none) (λ a.
        Steady-bind _ _ (prepare_env-Steady s.environ Array.initialize) (λ env.
          Steady-option env _ _ (Steady-pure none)
            (λ e. Steady-pure (serialize_both a e len offset))))))

pub any_fails-Steady :
    (calls : List ((ℤ → Bool) × Call)) → all_silent calls ≡ true → Steady (any_fails calls)
unfolding any_fails
any_fails-Steady [] e = Steady-pure false
any_fails-Steady ((fails, c) ∷ calls) e =
    let silent : touches c ≡ false = ground arith in
    let others : all_silent calls ≡ true = ground arith in
    let rest = any_fails-Steady calls others in
    Steady-bind _ _ (Steady-call c silent) (λ ret. search steady_rules)

send-Steady : (s : ℤ) (len : ℕ) (bytes : Bytes) → Steady (send s len bytes)
unfolding send
send-Steady s len bytes = search steady_rules

execute_plain-Steady : (type : MessageType) (s : ℤ) → Steady (execute_plain type s)
unfolding execute_plain
execute_plain-Steady type s = Steady-bind _ _ (prepare-Steady _ _) (λ prepared.
    Steady-option prepared _ _ (Steady-pure minus_one)
      (λ p. send-Steady s p.0 (header type p.0 ++ p.1)))

execute_tty-Steady : (abi : Abi) (s : ℤ) → Steady (execute_tty abi s)
unfolding execute_tty
execute_tty-Steady abi s = Steady-bind _ _ (prepare-Steady _ _) (λ prepared.
    Steady-option prepared _ _ (Steady-pure minus_one)
      (λ p. search (steady_rules, send-Steady) depth 16))

pub start-Steady : (abi : Abi) (path : Bytes) → Steady (start abi path)
unfolding start execute
start-Steady abi path = search (steady_rules, execute_plain-Steady, execute_tty-Steady) depth 24
