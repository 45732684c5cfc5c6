-- ===== src/Cmdline/Write.antt =====
-- `cmdline_set_process_name` of common/cmdline.c: the bytes that it writes.
use jail.Base.{
  ℕ, zero, suc, ◌+◌, ◌-◌, ◌≤◌, ◌<◌, ◌≡◌, refl, ap, sym, Bool, true, false, Bool-cases, inl, inr,
  ltb, leb, if◌then◌else◌, [], ◌∷◌, ◌++◌, length, take, length-take, arith,
}
use jail.Array.{Bytes}
use jail.Message.{Memory, store}
use jail.Cmdline.{Title, prefix_length, zeros, prefix_room}
use jail.Cmdline.Stores.{take_nil}

-- How much of a text is written, where `max` bytes are free.
abbrev kept : ℕ → Bytes → ℕ
kept max text = if ltb (length text) max then length text else max

module _ (off : ℕ) (text : Bytes) (t : Title) (m : Memory) (h : off ≤ t.max_length)
    (room : t.max_length < t.size) where
  printed : Bytes
  printed = take (t.max_length - off) text ++ (0 ∷ [])

  end : ℕ
  end = off + kept (t.max_length - off) text

  after_text : Memory
  after_text = store m off printed

  erased : Bytes
  erased = zeros (t.max_length - end)

  result : Memory
  result = store after_text end erased

-- The part of the prefix that is written.
abbrev pub shown : Bool → Title → Bytes
shown with_prefix t = take t.max_length (if with_prefix then t.prefix else [])

take_whole : (n : ℕ) (xs : Bytes) → length xs ≤ n → take n xs ≡ take (length xs) xs
take_whole n [] h = take_nil n
take_whole zero (x ∷ xs) h = absurd (omega arith)
take_whole (suc n) (x ∷ xs) h = ap (λ t. x ∷ t) (take_whole n xs (omega arith))

shown_lem :
    (with_prefix : Bool) (t : Title)
    → (take (prefix_room with_prefix t) t.prefix ≡ shown with_prefix t)
      × (length (shown with_prefix t) ≡ prefix_room with_prefix t)
      × (prefix_room with_prefix t ≤ t.max_length)
unfolding prefix_room
shown_lem false t = (sym (take_nil t.max_length), rw (take_nil t.max_length) refl, omega arith)
shown_lem true t = elim (Bool-cases (leb (prefix_length t) t.max_length)) [
  | inl short ↦ rw short (
    sym (take_whole t.max_length t.prefix (ground arith)),
    ground (arith, length-take t.max_length t.prefix),
    ground arith,
  )
  | inr long ↦ rw long (refl, ground (arith, length-take t.max_length t.prefix), omega arith)
]

module _ (text : Bytes) (with_prefix : Bool) (t : Title) (room : t.max_length < t.size) where
  off : ℕ
  off = prefix_room with_prefix t

  prefixed : Memory
  prefixed = store t.area 0 (shown with_prefix t)

  fits : off ≤ t.max_length
  unfolding off
  fits = (shown_lem with_prefix t).2

  titled : Memory
  titled = result off text t prefixed fits room
