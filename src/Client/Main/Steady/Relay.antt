-- ===== src/Client/Main/Steady/Relay.antt =====
-- `client_loop` of client/jail.c: what it leaves alone.
use jail.Base.{
  ℕ, zero, suc, ◌+◌, refl, Bool-cases, inl, inr, Option, none, some, List, ℤ, pos, negsuc,
  minus_one, ◌==◌,
}
use jail.Posix.{Reply, M}
use jail.Message.{Abi, Message, MessageType, std_out, std_err, status, of_code}
use jail.Buffer.{Buffer, get_message, consume_message, get_buffer_space}
use jail.Buffer.Drain.{drain, pushed, received}
use jail.Buffer.Drain
use jail.Utility.{FdSet}
use jail.Client.{Client}
use jail.Client.Remote.{process_stdio, process_status, dispatch_case, dispatch, process_remote}
use jail.Client.Loop.{
  process_input, send_input, run_handlers, send_winsize, serve_ready, round, loop, Round, finish,
  again,
}
use jail.Client.Main.Steady.{
  Steady, IsOther, Steady-pure, Steady-stop, Steady-sys, Steady-if, Steady-option, Steady-bind,
  steady_rules,
}

process_stdio-Steady : (fd : ℤ) (msg : Message) → Steady (process_stdio fd msg)
unfolding process_stdio
process_stdio-Steady fd msg = search steady_rules depth 12

process_status-Steady : (msg : Message) → Steady (process_status msg)
unfolding process_status
process_status-Steady msg = search steady_rules depth 12

dispatch_case-Steady : (type : Option MessageType) (msg : Message) → Steady (dispatch_case type msg)
unfolding dispatch_case
dispatch_case-Steady (some std_out) msg = process_stdio-Steady (pos 1) msg
dispatch_case-Steady (some std_err) msg = process_stdio-Steady (pos 2) msg
dispatch_case-Steady (some status) msg = process_status-Steady msg
dispatch_case-Steady _ msg = Steady-pure minus_one

dispatch-Steady : (msg : Message) → Steady (dispatch msg)
unfolding dispatch
dispatch-Steady msg = dispatch_case-Steady (of_code msg.type) msg

drain-Steady : (fuel : ℕ) (b : Buffer) → Steady (drain dispatch fuel b)
unfolding drain
drain-Steady zero b = Steady-stop
drain-Steady (suc fuel) b = Steady-option (get_message b) _ _ (Steady-pure (pos 0, b)) (λ msg.
    let rest = drain-Steady fuel (consume_message b msg) in
    search (steady_rules, dispatch-Steady) depth 16)

pushed-Steady : (b : Option Buffer) → Steady (pushed dispatch b)
unfolding pushed
pushed-Steady none = Steady-stop
pushed-Steady (some b) = drain-Steady (b.buflen + 1) b

received-Steady : (b : Buffer) (bytes : List ℕ) (size : ℤ) → Steady (received dispatch b bytes size)
unfolding received
received-Steady b bytes (negsuc n) = Steady-pure (minus_one, b)
received-Steady b bytes (pos n) =
    Steady-if (n == 0) _ _ (Steady-pure (minus_one, b)) (pushed-Steady _)

process_remote-Steady : (s : ℤ) (b : Buffer) → Steady (process_remote s b)
unfolding process_remote Drain.process_remote
process_remote-Steady s b =
    Steady-option (get_buffer_space b) _ _ Steady-stop
      (λ space. Steady-bind _ _ (Steady-sys _ refl) (λ size. received-Steady b size.bytes size.ret))

send_input-Steady : (s size : ℤ) (bytes : List ℕ) → Steady (send_input s size bytes)
unfolding send_input
send_input-Steady s (negsuc n) bytes = Steady-pure minus_one
send_input-Steady s (pos zero) bytes = Steady-pure minus_one
send_input-Steady s (pos (suc n)) bytes = search steady_rules

process_input-Steady : (s : ℤ) → Steady (process_input s)
unfolding process_input
process_input-Steady s = search (steady_rules, send_input-Steady)

send_winsize-Steady : (abi : Abi) (s : ℤ) → Steady (send_winsize abi s)
unfolding send_winsize
send_winsize-Steady abi s = search steady_rules depth 24

run_handlers-IsOther : (r : Reply) → IsOther (run_handlers r)
unfolding run_handlers
run_handlers-IsOther r s = elim (Bool-cases r.handled_first) [
  | inl a ↦ elim (Bool-cases r.handled_second) [
    | inl b ↦ simp (a, b) (refl, refl, refl)
    | inr b ↦ simp (a, b) (refl, refl, refl)
  ]
  | inr a ↦ elim (Bool-cases r.handled_second) [
    | inl b ↦ simp (a, b) (refl, refl, refl)
    | inr b ↦ simp (a, b) (refl, refl, refl)
  ]
]

serve_ready-Steady : (s : ℤ) (ready : FdSet) (b : Buffer) → Steady (serve_ready s ready b)
unfolding serve_ready
serve_ready-Steady s ready b =
    search (steady_rules, process_remote-Steady, process_input-Steady) depth 24

round-Steady : (abi : Abi) (s : ℤ) (fds : FdSet) (b : Buffer) → Steady (round abi s fds b)
unfolding round
round-Steady abi s fds b =
    search (steady_rules, serve_ready-Steady, send_winsize-Steady, run_handlers-IsOther) depth 24

Steady-round :
    {A : Type 0} (r : Round) (f : ℤ → M Client A) (g : FdSet → Buffer → M Client A)
    → ((ret : ℤ) → Steady (f ret))
    → ((fds : FdSet) (b : Buffer) → Steady (g fds b))
    → Steady (elim r [ finish ret ↦ f ret | again fds b ↦ g fds b ])
Steady-round (finish ret) f g kf kg = kf ret
Steady-round (again fds b) f g kf kg = kg fds b

pub loop-Steady :
    (abi : Abi) (rounds : ℕ) (s : ℤ) (fds : FdSet) (b : Buffer) → Steady (loop abi rounds s fds b)
unfolding loop
loop-Steady abi zero s fds b = Steady-pure none
loop-Steady abi (suc rounds) s fds b = Steady-bind _ _ (round-Steady abi s fds b) (λ r.
    Steady-round r _ _ (λ ret. Steady-pure (some ret))
      (λ fds' b'. loop-Steady abi rounds s fds' b'))
