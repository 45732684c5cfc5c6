-- ===== src/Buffer/Drain/Frames.antt =====
-- The receive loop of both programs against an abstract splitting of a stream into messages.
use jail.Base.{
  ℕ, zero, suc, ◌+◌, ◌≤◌, ◌<◌, ◌≡◌, refl, sym, ap, ◌∙◌, none, some, List, [], ◌∷◌, ◌++◌,
  append_assoc, append-nil, arith, length, length-append, take, drop, ℤ, pos,
}
use jail.Posix.{World, done, M, ◌>>=◌, ◌>>◌, modify, pure}
use jail.Message.{Message, slice, message_at}
use jail.Buffer.Contents.{push_buffer_lem}
use jail.Message.{store}
use jail.Buffer.{capacity, get_buffer, push_buffer, Buffer, get_message, consume_message}
use jail.Buffer.Contents.{IsValid, contents, consume_message_lem}
use jail.Buffer.Framing.{Whole, length_field, get_message_lem, length-contents}
use jail.Buffer.Drain.{drain}

-- The messages that stand at the front of the bytes, each with its bytes, and the rest.
pub data Splits : List ℕ → List (List ℕ) → List ℕ → Type 0 where
  rest : {bytes : List ℕ} → ¬ Whole bytes → Splits bytes [] bytes
  next :
      {bytes : List ℕ} {messages : List (List ℕ)} {left : List ℕ}
      → Whole bytes
      → 0 < length_field bytes
      → Splits (drop (length_field bytes) bytes) messages left
      → Splits bytes (take (length_field bytes) bytes ∷ messages) left

-- A handler that accepts every message and notes its bytes.
unfoldable pub recorder : Message → M (List (List ℕ)) ℤ
recorder msg = do modify (λ noted. noted ++ (slice msg.memory 0 msg.length ∷ [])); pure (pos 0)

take-slice :
    (m : ℕ → ℕ) (offset n size : ℕ) → n ≤ size → take n (slice m offset size) ≡ slice m offset n
unfolding slice
take-slice m offset zero size h = refl
take-slice m offset (suc n) zero h = absurd (omega arith)
take-slice m offset (suc n) (suc size) h =
    ap (λ t. m offset ∷ t) (take-slice m (offset + 1) n size (omega arith))

take_longer : (n : ℕ) (xs ys : List ℕ) → n ≤ length xs → take n (xs ++ ys) ≡ take n xs
take_longer zero xs ys h = refl
take_longer (suc n) [] ys h = absurd (omega arith)
take_longer (suc n) (x ∷ xs) ys h = ap (λ t. x ∷ t) (take_longer n xs ys (omega arith))

drop_longer : (n : ℕ) (xs ys : List ℕ) → n ≤ length xs → drop n (xs ++ ys) ≡ drop n xs ++ ys
drop_longer zero xs ys h = refl
drop_longer (suc n) [] ys h = absurd (omega arith)
drop_longer (suc n) (x ∷ xs) ys h = drop_longer n xs ys (omega arith)

length_field-append : (xs ys : List ℕ) → 4 ≤ length xs → length_field (xs ++ ys) ≡ length_field xs
length_field-append [] ys h = absurd (omega arith)
length_field-append (_ ∷ []) ys h = absurd (omega arith)
length_field-append (_ ∷ _ ∷ []) ys h = absurd (omega arith)
length_field-append (_ ∷ _ ∷ _ ∷ []) ys h = absurd (omega arith)
length_field-append (_ ∷ _ ∷ _ ∷ _ ∷ xs) ys h = refl

next_of :
    (bytes : List ℕ) (n : ℕ) {frame tail last : List ℕ} {messages : List (List ℕ)}
    → Whole bytes
    → length_field bytes ≡ n
    → 0 < n
    → take n bytes ≡ frame
    → drop n bytes ≡ tail
    → Splits tail messages last
    → Splits bytes (frame ∷ messages) last
next_of bytes n w e p t d s = rw (← t, ← e) (next w (rw e p) (rw (e, d) s))

-- If bytes split into messages and a rest, and the rest with more bytes behind it into further
-- messages and a rest, then all bytes together split into all the messages and the last rest: where
-- a read cuts the stream makes no difference.
pub Splits-append :
    (xs ys : List ℕ) (first second : List (List ℕ)) (left last : List ℕ)
    → Splits xs first left
    → Splits (left ++ ys) second last
    → Splits (xs ++ ys) (first ++ second) last
Splits-append xs ys _ second left last (rest part) t = t
Splits-append xs ys _ second left last (next whole some_bytes s) t =
    let e = length_field-append xs ys (omega (arith, whole.0)) in
    next_of (xs ++ ys) (length_field xs)
      (omega (arith, whole, e, length-append xs ys), omega (arith, whole, e, length-append xs ys)) e
      some_bytes (take_longer (length_field xs) xs ys whole.1)
      (drop_longer (length_field xs) xs ys whole.1)
      (Splits-append (drop (length_field xs) xs) ys _ second left last s t)

frame_lem :
    (b : Buffer) (msg : Message)
    → msg ≡ message_at b.buffer
    → msg.length ≤ b.buflen
    → slice msg.memory 0 msg.length ≡ take msg.length (contents b)
unfolding message_at contents
frame_lem b msg is fits =
    ap (λ m. slice m 0 msg.length) (ap (λ x. x.memory) is)
    ∙ sym (take-slice b.buffer 0 msg.length b.buflen fits)

drain_next :
    (fuel : ℕ) (b : Buffer) (msg : Message) (noted : List (List ℕ)) (w : World)
    → get_message b ≡ some msg
    → drain recorder (suc fuel) b noted w
      ≡ drain recorder fuel
          (consume_message b msg)
          (noted ++ (slice msg.memory 0 msg.length ∷ []))
          w
unfolding drain recorder ◌>>=◌
drain_next fuel b msg noted w found = rw (found, drain) refl

drain_rest :
    (fuel : ℕ) (b : Buffer) (noted : List (List ℕ)) (w : World)
    → get_message b ≡ none
    → drain recorder (suc fuel) b noted w ≡ done (pos 0, b) noted w
unfolding drain ◌>>=◌
drain_rest fuel b noted w found = rw (found, drain) refl

-- With the recording handler and fuel for one more round than there are messages, the loop
-- implements the splitting: from a valid buffer it accepts exactly the messages of the bytes in
-- use, in order and with their bytes, and leaves the rest in a valid buffer.
pub drain-Splits :
    (messages : List (List ℕ)) (left : List ℕ) (fuel : ℕ) (b : Buffer) (noted : List (List ℕ))
    (w : World)
    → IsValid b
    → length messages < fuel
    → Splits (contents b) messages left
    → (b' : Buffer) × (drain recorder fuel b noted w ≡ done (pos 0, b') (noted ++ messages) w)
      × (contents b' ≡ left)
      × IsValid b'
drain-Splits messages left fuel b noted w v h s =
    go messages left fuel b noted (contents b) w v h refl s
  where
    go :
        (messages : List (List ℕ)) (left : List ℕ) (fuel : ℕ) (b : Buffer) (noted : List (List ℕ))
        (bytes : List ℕ) (w : World)
        → IsValid b
        → length messages < fuel
        → contents b ≡ bytes
        → Splits bytes messages left
        → (b' : Buffer) × (drain recorder fuel b noted w ≡ done (pos 0, b') (noted ++ messages) w)
          × (contents b' ≡ left)
          × IsValid b'
    go messages left zero b noted bytes w v h e s = absurd (omega arith)
    go _ left (suc fuel) b noted bytes w v h e (rest part) = (
      b,
      drain_rest fuel b noted w ((get_message_lem b).1 (rw e part))
          ∙ ap (λ l. done (pos 0, b) l w) (sym (append-nil noted)),
      e,
      v,
    )
    go (_ ∷ ms) left (suc fuel) b noted bytes w v h e (next whole some_bytes s) =
        let (msg, found, is, len, type, fits) = (get_message_lem b).0 (rw e whole) in
        let (cut, _, v') = consume_message_lem b msg v fits in
        let (b', p, q, u) =
          go ms left fuel (consume_message b msg) (noted ++ (slice msg.memory 0 msg.length ∷ []))
            (drop (length_field bytes) bytes) w v' (omega (arith, h)) (cut ∙ rw (len, e) refl) s in
        let front = frame_lem b msg is fits ∙ rw (len, e) refl in
        let order =
          append_assoc noted (slice msg.memory 0 msg.length ∷ []) ms
          ∙ ap (λ f. noted ++ (f ∷ ms)) front in
        (b', drain_next fuel b msg noted w found ∙ p ∙ ap (λ l. done (pos 0, b') l w) order, q, u)

-- Let the bytes `ys` arrive behind the bytes of a buffer, and let there be room for them behind what
-- the loop leaves. With the recording handler, to run the loop, receive `ys` and run it again gives
-- the same messages and leaves the same bytes as to run it once on all bytes: how reads cut the
-- stream makes no difference.
pub drain_cut :
    (first second : List (List ℕ)) (left last ys : List ℕ) (b whole : Buffer)
    (noted : List (List ℕ)) (w : World)
    → IsValid b
    → IsValid whole
    → contents whole ≡ contents b ++ ys
    → Splits (contents b) first left
    → Splits (left ++ ys) second last
    → length left + length ys ≤ capacity
    → (b1 b2 b3 whole' : Buffer) × (log : List (List ℕ)) × (drain recorder
          (length first + 1)
          b
          noted
          w
        ≡ done (pos 0, b1) (noted ++ first) w)
      × (push_buffer (record b1 { buffer = store b1.buffer (get_buffer b1) ys }) (length ys)
          ≡ some b2)
      × (drain recorder (length second + 1) b2 (noted ++ first) w ≡ done (pos 0, b3) log w)
      × (drain recorder (length (first ++ second) + 1) whole noted w ≡ done (pos 0, whole') log w)
      × (contents b3 ≡ contents whole')
drain_cut first second left last ys b whole noted w v vw cut s t room =
    let (b1, p1, c1, v1) = drain-Splits first left (length first + 1) b noted w v (omega arith) s in
    let (b2, p2, c2, v2) =
      push_buffer_lem b1 ys v1 (omega (arith, length-contents b1, ap (length {A = ℕ}) c1)) in
    let (b3, p3, c3, _) =
      drain-Splits second last (length second + 1) b2 (noted ++ first) w v2 (omega arith)
        (rw (c2, c1) t) in
    let (b4, p4, c4, _) =
      drain-Splits (first ++ second) last (length (first ++ second) + 1) whole noted w vw
        (omega arith) (rw cut (Splits-append (contents b) ys first second left last s t)) in
    (
      b1,
      b2,
      b3,
      b4,
      (noted ++ first) ++ second,
      p1,
      p2,
      p3,
      p4 ∙ ap (λ l. done (pos 0, b4) l w) (sym (append_assoc noted first second)),
      c3 ∙ sym c4,
    )
