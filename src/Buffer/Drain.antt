-- ===== src/Buffer/Drain.antt =====
-- The loop that both sides run on a receive buffer after each read: `child_process_remote` in
-- server/child.c and `client_process_remote` in client/jail.c, which differ in the handler of a
-- message. A handler never touches the buffer, so the buffer is a variable of the loop.
--
-- The loop takes fuel; `buflen + 1` rounds are enough when a message that a handler accepts has at
-- least one byte, since each round then removes one.
pub mod Safety
pub mod Frames
use jail.Base.{
  ℕ, zero, suc, ◌+◌, ◌-◌, ◌≤◌, ◌<◌, ◌≡◌, refl, Bool, true, false, Option, none, some, not, arith,
  if◌then◌else◌, length, ltb, leb, ◌==◌, ℤ, pos, negsuc, minus_one, is_zero, Option-cases, ◌⊎◌, inl,
  inr, List,
}
use jail.Posix.{
  World, Outcome, done, exited, replaced, stopped, M, ◌>>=◌, ◌>>◌, pure, stop, sys, read, Reply,
  Call, answer, after,
}
use jail.Message.{Message, message_at, store}
use jail.Buffer.{
  Buffer, capacity, get_message, consume_message, get_buffer_space, get_buffer, push_buffer,
}
use jail.Buffer.Contents.{IsValid, contents, consume_message_lem, push_buffer_lem}

module _ {S : Type 0} (handler : Message → M S ℤ) where
  -- The `for (;;)` loop, with the buffer.
  unfoldable pub drain : ℕ → Buffer → M S (ℤ × Buffer)
  drain zero b = stop
  drain (suc fuel) b = elim (get_message b) [
    | none ↦ pure (pos 0, b)
    | some msg ↦ do
      ret ← handler msg
      let rest = drain fuel (consume_message b msg)
      if not (is_zero ret) then pure (minus_one, b) else rest
  ]

  -- After `buffer_push_buffer`, whose assertion may fail.
  unfoldable pub pushed : Option Buffer → M S (ℤ × Buffer)
  pushed none = stop
  pushed (some b) = drain (b.buflen + 1) b

  -- After `read` stored `bytes` in the free space and returned `size`.
  unfoldable pub received : Buffer → List ℕ → ℤ → M S (ℤ × Buffer)
  received b bytes (negsuc n) = pure (minus_one, b)
  received b bytes (pos n) =
      if n == 0
      then pure (minus_one, b)
      else pushed (push_buffer (record b { buffer = store b.buffer (get_buffer b) bytes }) n)

  -- One call: read into the free space, and handle every message that is then whole.
  unfoldable pub process_remote : ℤ → Buffer → M S (ℤ × Buffer)
  unfolding received pushed
  process_remote fd b = elim (get_buffer_space b) [
    | none ↦ stop
    | some space ↦ do size ← sys (read fd space); received b size.bytes size.ret
  ]
