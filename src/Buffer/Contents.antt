-- ===== src/Buffer/Contents.antt =====
-- The buffer of common/buffer.c as the sequence of the bytes in use.
use jail.Base.{
  ℕ, zero, suc, ◌+◌, ◌-◌, ◌≤◌, ◌<◌, ◌≡◌, refl, sym, ap, ap₂, drop-append, ◌∙◌, some, List, [], ◌∷◌,
  ◌++◌, arith, length, drop,
}
use native.Mathlib.Decide.{ℕ_discrete}
use jail.Message.{Memory, Message, slice, store}
use jail.Buffer.{
  Buffer, capacity, get_buffer_space, get_buffer, push_buffer, consume_message, move_down,
}

abbrev pub IsValid : Buffer → Type 0
IsValid b = b.buflen ≤ capacity

unfoldable pub contents : Buffer → List ℕ
contents b = slice b.buffer 0 b.buflen

pub length-slice : (m : Memory) (o n : ℕ) → length (slice m o n) ≡ n
unfolding slice
length-slice m o zero = refl
length-slice m o (suc n) = ap suc (length-slice m (o + 1) n)

-- Memories that agree on a range have the same slice there.
pub slice-ext :
    (m m' : Memory) (o o' n : ℕ)
    → ((i : ℕ) → i < n → m (o + i) ≡ m' (o' + i))
    → slice m o n ≡ slice m' o' n
unfolding slice
slice-ext m m' o o' zero h = refl
slice-ext m m' o o' (suc n) h =
    ap₂ ◌∷◌ (ground (arith, h 0))
      (slice-ext m m' (o + 1) (o' + 1) n (λ i l. ground (arith, h (suc i))))

slice-add : (m : Memory) (o a b : ℕ) → slice m o (a + b) ≡ slice m o a ++ slice m (o + a) b
unfolding slice
slice-add m o zero b = ground arith
slice-add m o (suc a) b =
    let e : suc a + b ≡ suc (a + b) = omega arith in
    let f : o + suc a ≡ o + 1 + a = omega arith in
    rw (e, f) (ap (λ t. m o ∷ t) (slice-add m (o + 1) a b))

store_next :
    (m : Memory) (o i c : ℕ) (bytes : List ℕ)
    → store m o (c ∷ bytes) (o + 1 + i) ≡ store m (o + 1) bytes (o + 1 + i)
unfolding store
store_next m o i c bytes =
    let e : o + 1 + i - o ≡ suc i = omega arith in
    let f : o + 1 + i - (o + 1) ≡ i = omega arith in rw (e, f) (ground arith)

store_here : (m : Memory) (o c : ℕ) (bytes : List ℕ) → store m o (c ∷ bytes) o ≡ c
unfolding store
store_here m o c bytes = let e : o - o ≡ 0 = omega arith in rw e (ground arith)

-- Stored bytes are read back.
pub slice-store :
    (m : Memory) (o : ℕ) (bytes : List ℕ) → slice (store m o bytes) o (length bytes) ≡ bytes
unfolding slice
slice-store m o [] = refl
slice-store m o (c ∷ bytes) = ap₂ ◌∷◌ (store_here m o c bytes) (
    slice-ext (store m o (c ∷ bytes)) (store m (o + 1) bytes) (o + 1) (o + 1) (length bytes)
      (λ i l. store_next m o i c bytes)
    ∙ slice-store m (o + 1) bytes)

-- What lies before the stored bytes stays.
pub slice-store_before :
    (m : Memory) (o n : ℕ) (bytes : List ℕ) → n ≤ o → slice (store m o bytes) 0 n ≡ slice m 0 n
slice-store_before m o n bytes h =
    slice-ext (store m o bytes) m 0 0 n (λ i l. unfold store in ground arith)

-- Bytes received into the free space are in use after `buffer_push_buffer`, behind the others;
-- its assertion holds, and the buffer stays valid.
pub push_buffer_lem :
    (b : Buffer) (bytes : List ℕ)
    → IsValid b
    → length bytes ≤ capacity - b.buflen
    → (b' : Buffer) × (push_buffer
          (record b { buffer = store b.buffer (get_buffer b) bytes })
          (length bytes)
        ≡ some b')
      × (contents b' ≡ contents b ++ bytes)
      × IsValid b'
unfolding push_buffer contents get_buffer
push_buffer_lem b bytes v h = (
  record { buflen = b.buflen + length bytes; buffer = store b.buffer b.buflen bytes },
  unfold get_buffer_space in ground arith,
  slice-add (store b.buffer b.buflen bytes) 0 b.buflen (length bytes)
      ∙ ap₂ ◌++◌ (slice-store_before b.buffer b.buflen b.buflen bytes (omega arith))
          (behind ∙ slice-store b.buffer b.buflen bytes),
  omega arith,
)
  where
    behind :
        slice (store b.buffer b.buflen bytes) (0 + b.buflen) (length bytes)
        ≡ slice (store b.buffer b.buflen bytes) b.buflen (length bytes)
    behind = ground arith

drop_front : (l : ℕ) (xs ys : List ℕ) → l ≡ length xs → drop l (xs ++ ys) ≡ ys
drop_front l xs ys e = rw e (drop-append xs ys)

drop-slice : (m : Memory) (l k : ℕ) → drop l (slice m 0 (l + k)) ≡ slice m l k
drop-slice m l k =
    ap (λ t. drop l t) (slice-add m 0 l k)
    ∙ drop_front l (slice m 0 l) (slice m (0 + l) k) (sym (length-slice m 0 l))
    ∙ ground arith

moved :
    (b : Buffer) (l k : ℕ)
    → b.buflen ≡ l + k
    → slice (move_down b.buffer l k) 0 k ≡ drop l (contents b)
unfolding contents
moved b l k e =
    slice-ext (move_down b.buffer l k) b.buffer 0 l k (λ i h. unfold move_down in ground arith)
    ∙ rw e (sym (drop-slice b.buffer l k))

consume_all :
    (b : Buffer) (msg : Message)
    → msg.length ≡ b.buflen
    → consume_message b msg ≡ record b { buflen = 0 }
unfolding consume_message
consume_all b msg e = ground arith

consume_part :
    (b : Buffer) (msg : Message)
    → IsValid b
    → msg.length < b.buflen
    → consume_message b msg ≡ record {
      buflen = b.buflen - msg.length;
      buffer = move_down b.buffer msg.length (b.buflen - msg.length);
    }
unfolding consume_message
consume_part b msg v h = ground arith

-- On a valid buffer, and with a message no longer than the bytes in use, `buffer_consume_message`
-- removes as many bytes as the message has from the front and keeps the rest in order; the buffer
-- stays valid.
pub consume_message_lem :
    (b : Buffer) (msg : Message)
    → IsValid b
    → msg.length ≤ b.buflen
    → (contents (consume_message b msg) ≡ drop msg.length (contents b))
      × ((consume_message b msg).buflen ≡ b.buflen - msg.length)
      × IsValid (consume_message b msg)
consume_message_lem b msg v h = elim (ℕ_discrete msg.length b.buflen) [
  | yes e ↦
      rw (consume_all b msg e)
        (unfold contents slice in moved b msg.length 0 (omega arith), omega arith, omega arith)
  | no n ↦ rw (consume_part b msg v (omega arith)) (
    unfold contents in moved b msg.length (b.buflen - msg.length) (omega arith),
    refl,
    omega arith,
  )
]
