-- ===== src/Buffer/Drain/Safety.antt =====
-- The receive loop of both programs with any handler: assertions, fuel and the buffer.
use jail.Base.{
  ℕ, zero, suc, ◌+◌, ◌-◌, ◌≤◌, ◌<◌, ◌≡◌, refl, true, none, some, arith, length, ◌==◌, ℤ, pos,
  negsuc, is_zero, Option-cases, Bool-cases, inl, inr, List,
}
use jail.Posix.{World, M, ◌>>=◌, read, after, answer, Call}
use jail.Posix.Rules.{Ends, Ends-bind, Ends-map, ReadFits}
use jail.Message.{Memory, Message, message_at}
use jail.Buffer.{Buffer, capacity, get_message, consume_message, get_buffer_space}
use jail.Buffer.Contents.{IsValid, consume_message_lem, push_buffer_lem}
use jail.Buffer.Framing.{space_left}
use jail.Buffer.Drain.{drain, received, pushed, process_remote}

message_found : (b : Buffer) (msg : Message) → get_message b ≡ some msg → msg ≡ message_at b.buffer
unfolding get_message
message_found b msg e = ground arith

message_fits : (b : Buffer) (msg : Message) → get_message b ≡ some msg → msg.length ≤ b.buflen
unfolding get_message message_at
message_fits b msg e = ground arith

pos_zero : (ret : ℤ) → is_zero ret ≡ true → ret ≡ pos 0
pos_zero (pos n) h = ground arith
pos_zero (negsuc n) h = cc

-- What a round leaves behind: a valid buffer, and on success one with no whole message.
abbrev pub Drained : {S : Type 0} → ℤ × Buffer → S → World → Type 0
Drained r s w = IsValid r.1 × (r.0 ≡ pos 0 → get_message r.1 ≡ none)

space_of : (b : Buffer) → IsValid b → get_buffer_space b ≡ some (capacity - b.buflen)
unfolding get_buffer_space
space_of b v = ground arith

consumed :
    (b : Buffer) (msg : Message) (fuel : ℕ)
    → IsValid b
    → msg.length ≤ b.buflen
    → 0 < msg.length
    → b.buflen < suc fuel
    → IsValid (consume_message b msg) × ((consume_message b msg).buflen < fuel)
consumed b msg fuel v fits more h =
    ((consume_message_lem b msg v fits).2, omega (arith, (consume_message_lem b msg v fits).1))

-- What one call leaves behind.
abbrev pub Processed : {S : Type 0} → ℤ × Buffer → S → World → Type 0
Processed r s w =
    IsValid r.1 × (r.0 ≡ pos 0 → (space : ℕ) × (get_buffer_space r.1 ≡ some space) × (0 < space))

module _ {S : Type 0} (handler : Message → M S ℤ) where
  -- A message of the buffer that the handler accepts is not empty, and the handler never stops.
  pub record Progresses : Type 0 where
    pub on :
        (m : Memory) (s : S) (w : World)
        → Ends (λ ret s' w'. ret ≡ pos 0 → 0 < (message_at m).length) (handler (message_at m) s w)

  module _ (progress : Progresses) where
    progressed :
        (b : Buffer) (msg : Message) (s : S) (w : World)
        → get_message b ≡ some msg
        → Ends (λ ret s' w'. ret ≡ pos 0 → 0 < msg.length) (handler msg s w)
    progressed b msg s w found = rw (message_found b msg found) (progress.on b.buffer s w)

    drain_lem :
        (fuel : ℕ) (b : Buffer) (s : S) (w : World)
        → IsValid b
        → b.buflen < fuel
        → Ends Drained (drain handler fuel b s w)
    unfolding drain ◌>>=◌
    drain_lem zero b s w v h = absurd (omega arith)
    drain_lem (suc fuel) b s w v h = elim (Option-cases (get_message b)) [
      | inl none_left ↦ rw (none_left, drain, Ends) (v, λ _. none_left)
      | inr (msg, found) ↦
          rw (found, drain, Ends)
            (Ends-bind Drained (handler msg s w) _ (progressed b msg s w found) (λ ret s' w' p.
              elim (Bool-cases (is_zero ret)) [
                | inl z ↦ rw z (
                    let (v', h') =
                      consumed b msg fuel v (message_fits b msg found) (p (pos_zero ret z)) h in
                    drain_lem fuel (consume_message b msg) s' w' v' h')
                | inr nz ↦ rw nz (v, λ e. cc e)
              ]))
    ]

    received_lem :
        (b : Buffer) (bytes : List ℕ) (size : ℤ) (s : S) (w : World)
        → IsValid b
        → ((n : ℕ) → size ≡ pos n → (length bytes ≡ n) × (n ≤ capacity - b.buflen))
        → Ends Processed (received handler b bytes size s w)
    unfolding received pushed ◌>>=◌
    received_lem b bytes (negsuc n) s w v fits = (v, λ e. cc e)
    received_lem b bytes (pos n) s w v fits = elim (Bool-cases (n == 0)) [
      | inl closed ↦ rw (closed, Ends) (v, λ e. cc e)
      | inr some_bytes ↦
          let (e, h) = fits n refl in
          let (b', fills, _, v') = push_buffer_lem b bytes v (omega arith) in
          rw (some_bytes, ← e, fills, Ends)
            (Ends-map Processed (drain handler (b'.buflen + 1) b' s w)
              (drain_lem (b'.buflen + 1) b' s w v' (omega arith))
              (λ r s' w' d. (d.0, λ z. space_left r.1 d.0 (d.1 z))))
    ]

    -- From a valid buffer, whatever a fitting read brings, the handling of a connection's bytes
    -- ends within its fuel and breaks no assertion; the buffer is valid afterwards, and if the
    -- result is 0 the next read has space for at least one byte.
    pub process_remote_lem :
        (fd : ℤ) (b : Buffer) (s : S) (w : World)
        → ReadFits w.kernel
        → IsValid b
        → Ends Processed (process_remote handler fd b s w)
    unfolding process_remote ◌>>=◌
    process_remote_lem fd b s w reads v =
        rw (space_of b v, Ends)
          (received_lem b (answer w c).bytes (answer w c).ret s (after w c) v
            (λ n e. reads.fits w.now fd (capacity - b.buflen) n e))
      where
        c : Call
        c = read fd (capacity - b.buflen)
