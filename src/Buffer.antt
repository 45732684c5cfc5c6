-- ===== src/Buffer.antt =====
-- common/buffer.c and common/buffer.h: the receive buffer of 65536 bytes with `buflen` in use.
-- A pointer into it is an index; a failed assertion is `none`.
pub mod Contents
pub mod Framing
pub mod Drain
use jail.Base.{
  ℕ, ◌+◌, ◌-◌, ◌%◌, ◌^◌, Bool, true, false, Option, none, some, ltb, leb, ◌==◌, if◌then◌else◌, List,
}
use jail.Message.{Memory, Message, message_at, sizeof_message}

-- `sizeof(buffer->buffer)`
abbrev pub capacity : ℕ
capacity = 65536

pub record Buffer : Type 0 where
  pub buflen : ℕ
  pub buffer : Memory

-- `size_t` subtraction wraps.
abbrev pub sub_size : ℕ → ℕ → ℕ
sub_size a b = (a + 2 ^ 64 - b) % 2 ^ 64

pub initialize : Buffer → Buffer
initialize b = record b { buflen = 0 }

pub get_buffer_space : Buffer → Option ℕ
get_buffer_space b = if leb b.buflen capacity then some (sub_size capacity b.buflen) else none

-- The index at which new bytes are stored.
pub get_buffer : Buffer → ℕ
get_buffer b = b.buflen

-- `none` is the result 1: not yet.
unfoldable pub get_message : Buffer → Option Message
get_message b =
    if ltb b.buflen sizeof_message
    then none
    else let m = message_at b.buffer in if ltb b.buflen m.length then none else some m

-- `memmove(m, m + from, n)`
pub move_down : Memory → ℕ → ℕ → Memory
move_down m from n i = if ltb i n then m (i + from) else m i

pub consume_message : Buffer → Message → Buffer
consume_message b msg = if msg.length == b.buflen then record b { buflen = 0 } else record {
  buflen = sub_size b.buflen msg.length;
  buffer = move_down b.buffer msg.length (sub_size b.buflen msg.length);
}

-- `size_t` addition wraps.
pub push_buffer : Buffer → ℕ → Option Buffer
unfolding get_buffer_space
push_buffer b size = elim (get_buffer_space b) [
  | none ↦ none
  | some space ↦
      if leb size space then some (record b { buflen = (b.buflen + size) % 2 ^ 64 }) else none
]
