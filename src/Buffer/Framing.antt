-- ===== src/Buffer/Framing.antt =====
-- Messages in the buffer of common/buffer.c: `buffer_get_message` on the bytes in use.
use jail.Base.{ℕ, suc, ◌-◌, ◌≤◌, ◌<◌, ◌≡◌, refl, sym, none, some, List, ◌∷◌, arith, length}
use native.Mathlib.Decide.{dec_lt}
use jail.Message.{Memory, Message, message_at, slice, sizeof_message, u16}
use jail.Buffer.{Buffer, capacity, get_message, get_buffer_space}
use jail.Buffer.Contents.{IsValid, contents, length-slice}

-- The length field of a sequence of bytes that begins with a header, and the type field.
abbrev pub length_field : List ℕ → ℕ
length_field (_ ∷ _ ∷ lo ∷ hi ∷ _) = u16 lo hi
length_field _ = 0

abbrev pub type_field : List ℕ → ℕ
type_field (lo ∷ hi ∷ _) = u16 lo hi
type_field _ = 0

-- A whole message stands at the front of the bytes.
abbrev pub Whole : List ℕ → Type 0
Whole bytes = (sizeof_message ≤ length bytes) × (length_field bytes ≤ length bytes)

fields_at :
    (m : Memory) (n : ℕ)
    → (length_field (slice m 0 (suc (suc (suc (suc n))))) ≡ (message_at m).length)
      × (type_field (slice m 0 (suc (suc (suc (suc n))))) ≡ (message_at m).type)
unfolding slice message_at
fields_at m n = (refl, refl)

fields :
    (b : Buffer)
    → 4 ≤ b.buflen
    → (length_field (contents b) ≡ (message_at b.buffer).length)
      × (type_field (contents b) ≡ (message_at b.buffer).type)
unfolding contents
fields b h =
    let e : b.buflen ≡ suc (suc (suc (suc (b.buflen - 4)))) = omega arith in
    rw e (fields_at b.buffer (b.buflen - 4))

pub length-contents : (b : Buffer) → length (contents b) ≡ b.buflen
unfolding contents
length-contents b = length-slice b.buffer 0 b.buflen

-- `buffer_get_message` finds a message exactly when a whole message stands at the front of the
-- bytes in use; it is the one stored at the start of the buffer, its type and length are those of
-- the front, and its length is at most the number of bytes in use.
pub get_message_lem :
    (b : Buffer)
    → (Whole (contents b)
        → (msg : Message) × (get_message b ≡ some msg)
          × (msg ≡ message_at b.buffer)
          × (msg.length ≡ length_field (contents b))
          × (msg.type ≡ type_field (contents b))
          × (msg.length ≤ b.buflen))
      × (¬ Whole (contents b) → get_message b ≡ none)
unfolding get_message
get_message_lem b = (
  λ h.
      let g : 4 ≤ b.buflen = omega (arith, length-contents b, h.0) in
      (
        message_at b.buffer,
        ground (arith, fields b g, length-contents b),
        refl,
        sym (fields b g).0,
        sym (fields b g).1,
        omega (arith, fields b g, length-contents b, h.1),
      ),
  λ no_message. elim (dec_lt b.buflen 5) [
    | yes short ↦ ground arith
    | no long ↦
        let f = fields b (omega arith) in
        elim (dec_lt b.buflen (message_at b.buffer).length) [
          | yes part ↦ ground arith
          | no fits ↦
              absurd
                (no_message (omega (arith, length-contents b), omega (arith, length-contents b)))
        ]
  ],
)

-- A valid buffer in which no message is whole has space for at least one more byte: a read into it
-- never asks for nothing.
pub space_left :
    (b : Buffer)
    → IsValid b
    → get_message b ≡ none
    → (space : ℕ) × (get_buffer_space b ≡ some space) × (0 < space)
unfolding get_message get_buffer_space message_at
space_left b v e = (capacity - b.buflen, ground arith, ground arith)
