-- ===== src/Client/Remote/Status.antt =====
-- `client_dispatch_remote` of client/jail.c: which messages set the status of the client.
use jail.Base.{
  ◌≤◌, ◌≡◌, Bool, refl, ap, sym, ◌∙◌, true, false, Bool-cases, inl, inr, Option, none, some, ltb,
  arith, ℤ, pos, minus_one, if◌then◌else◌,
}
use jail.Posix.{World, M, Outcome, done, ◌>>=◌}
use jail.Message.{
  Message, MessageType, fork_socket, fork_pipe, fork_tty, winsize, std_in, std_out, std_err, status,
  of_code, slice, sizeof_message,
}
use jail.Client.{Client}
use jail.Client.Remote.{process_stdio, process_status, dispatch_case, dispatch}

-- A status message, long enough for its handler.
abbrev pub IsReport : Message → Type 0
IsReport m = (of_code m.type ≡ some status) × (sizeof_message ≤ m.length)

-- The client after the message `m`: it has the four bytes behind the header of a report as its
-- status and is to end; another message changes nothing.
abbrev pub Reports : Message → Client → Outcome Client ℤ → Type 0
Reports m c o =
    (ret : ℤ) × ((c' : Client) × ((w : World) × ((o ≡ done ret c' w)
          × (IsReport m
              → (ret ≡ pos 0) × (c' ≡ record c { status = slice m.memory 4 4; sigterm = true }))
          × (¬ IsReport m → c' ≡ c))))

-- The result of an action that leaves the client as it was.
abbrev Unmoved : Client → Outcome Client ℤ → Type 0
Unmoved c o = (ret : ℤ) × ((w : World) × (o ≡ done ret c w))

if-Unmoved :
    (b : Bool) (m n : M Client ℤ) (c : Client) (w : World)
    → Unmoved c (m c w)
    → Unmoved c (n c w)
    → Unmoved c ((if b then m else n) c w)
if-Unmoved true m n c w km kn = km
if-Unmoved false m n c w km kn = kn

process_stdio-Unmoved :
    (fd : ℤ) (m : Message) (c : Client) (w : World) → Unmoved c (process_stdio fd m c w)
unfolding process_stdio ◌>>=◌
process_stdio-Unmoved fd m c w =
    if-Unmoved (ltb m.length sizeof_message) _ _ c w (minus_one, (w, refl)) (_, (_, refl))

process_status-Reports :
    (m : Message) (c : Client) (w : World)
    → of_code m.type ≡ some status
    → Reports m c (process_status m c w)
unfolding process_status ◌>>=◌
process_status-Reports m c w type = elim (Bool-cases (ltb m.length sizeof_message)) [
  | inl short ↦
      (minus_one, (c, (w, (rw short refl, λ h. absurd (ground (arith, short, h.1)), λ h. refl))))
  | inr long ↦ (
    pos 0,
    (
      record c { status = slice m.memory 4 4; sigterm = true },
      (w, (rw long refl, λ h. (refl, refl), λ h. absurd (h (type, ground (arith, long))))),
    ),
  )
]

is_status : Option MessageType → Bool
is_status (some status) = true
is_status _ = false

other_type :
    (type : Option MessageType) (m : Message)
    → of_code m.type ≡ type
    → is_status type ≡ false
    → ¬ IsReport m
unfolding is_status
other_type type m e n (is, long) = absurd (ground (arith, n, ap is_status (sym e ∙ is)))

Unmoved-Reports :
    (type : Option MessageType) (m : Message) (c : Client) (o : Outcome Client ℤ)
    → of_code m.type ≡ type
    → is_status type ≡ false
    → Unmoved c o
    → Reports m c o
Unmoved-Reports type m c o t n (ret, (w, e)) =
    (ret, (c, (w, (e, λ h. absurd (other_type type m t n h), λ h. refl))))

case_lem :
    (type : Option MessageType) (m : Message) (c : Client) (w : World)
    → of_code m.type ≡ type
    → Reports m c (dispatch_case type m c w)
unfolding dispatch_case is_status ◌>>=◌
case_lem (some std_out) m c w e =
    Unmoved-Reports (some std_out) m c _ e refl (process_stdio-Unmoved (pos 1) m c w)
case_lem (some std_err) m c w e =
    Unmoved-Reports (some std_err) m c _ e refl (process_stdio-Unmoved (pos 2) m c w)
case_lem (some status) m c w e = process_status-Reports m c w e
case_lem (some fork_socket) m c w e =
    Unmoved-Reports (some fork_socket) m c (done minus_one c w) e refl (minus_one, (w, refl))
case_lem (some fork_pipe) m c w e =
    Unmoved-Reports (some fork_pipe) m c (done minus_one c w) e refl (minus_one, (w, refl))
case_lem (some fork_tty) m c w e =
    Unmoved-Reports (some fork_tty) m c (done minus_one c w) e refl (minus_one, (w, refl))
case_lem (some winsize) m c w e =
    Unmoved-Reports (some winsize) m c (done minus_one c w) e refl (minus_one, (w, refl))
case_lem (some std_in) m c w e =
    Unmoved-Reports (some std_in) m c (done minus_one c w) e refl (minus_one, (w, refl))
case_lem none m c w e = Unmoved-Reports none m c (done minus_one c w) e refl (minus_one, (w, refl))

pub dispatch_lem : (m : Message) (c : Client) (w : World) → Reports m c (dispatch m c w)
unfolding dispatch
dispatch_lem m c w = case_lem (of_code m.type) m c w refl
