-- ===== src/Tests/Buffers.antt =====
-- Applications of the theorems on the receive buffer.
use jail.Base.{ℕ, ◌==◌, if◌then◌else◌, ◌≤◌, ◌<◌, ◌≡◌, ◌++◌, refl, none, some, [], ◌∷◌, arith, drop}
use jail.Message.{Message, message_at, store}
use jail.Buffer.{Buffer, get_buffer, get_buffer_space, get_message, consume_message, push_buffer}
use jail.Buffer.Contents.{IsValid, contents, push_buffer_lem, consume_message_lem}
use jail.Base.{pos, List}
use jail.Message.{slice}
use jail.Posix.{done}
use jail.Buffer.Drain.{drain}
use jail.Buffer.Drain.Frames.{Splits, rest, next, recorder, drain-Splits, drain_cut}
use jail.Tests.{world}
use jail.Buffer.Framing.{length_field, type_field, Whole, get_message_lem, space_left}

-- Six bytes: a message of five bytes with the type 4, and one more byte.
abbrev pub bytes : ℕ → ℕ
bytes i = if i == 0 then 4 else if i == 2 then 5 else 0

abbrev pub six : Buffer
six = record { buflen = 6; buffer = bytes }

abbrev empty : Buffer
empty = record { buflen = 0; buffer = bytes }

get_message_lem_example :
    (Whole (contents six)
      → (msg : Message) × (get_message six ≡ some msg)
        × (msg ≡ message_at bytes)
        × (msg.length ≡ length_field (contents six))
        × (msg.type ≡ type_field (contents six))
        × (msg.length ≤ 6))
    × (¬ Whole (contents six) → get_message six ≡ none)
get_message_lem_example = get_message_lem six

space_left_example : (space : ℕ) × (get_buffer_space empty ≡ some space) × (0 < space)
space_left_example = space_left empty (omega arith) (unfold get_message in refl)

push_buffer_lem_example :
    (b' : Buffer) × (push_buffer
        (record six { buffer = store bytes (get_buffer six) (7 ∷ 8 ∷ []) })
        2
      ≡ some b')
    × (contents b' ≡ contents six ++ (7 ∷ 8 ∷ []))
    × IsValid b'
push_buffer_lem_example = push_buffer_lem six (7 ∷ 8 ∷ []) (omega arith) (omega arith)

abbrev front : Message
front = record { memory = bytes; type = 4; length = 5 }

consume_message_lem_example :
    (contents (consume_message six front) ≡ drop 5 (contents six))
    × ((consume_message six front).buflen ≡ 1)
    × IsValid (consume_message six front)
consume_message_lem_example = consume_message_lem six front (omega arith) (omega arith)

-- A message of five bytes with one more byte behind it.
one_message : Splits (4 ∷ 0 ∷ 5 ∷ 0 ∷ 0 ∷ 0 ∷ []) ((4 ∷ 0 ∷ 5 ∷ 0 ∷ 0 ∷ []) ∷ []) (0 ∷ [])
one_message =
    next (omega arith, omega arith) (omega arith) (rest (λ w. absurd (omega (arith, w.0))))

drain-Splits_example :
    (b : Buffer) × (drain recorder 2 six [] (world [])
      ≡ done (pos 0, b) ((4 ∷ 0 ∷ 5 ∷ 0 ∷ 0 ∷ []) ∷ []) (world []))
    × (contents b ≡ 0 ∷ [])
    × IsValid b
drain-Splits_example =
    drain-Splits ((4 ∷ 0 ∷ 5 ∷ 0 ∷ 0 ∷ []) ∷ []) (0 ∷ []) 2 six [] (world []) (omega arith)
      (omega arith) (unfold contents slice in one_message)

-- Three bytes, and the three that complete the message.
abbrev three : Buffer
three = record { buflen = 3; buffer = bytes }

part_only : Splits (4 ∷ 0 ∷ 5 ∷ []) [] (4 ∷ 0 ∷ 5 ∷ [])
part_only = rest (λ w. absurd (omega (arith, w.0)))

drain_cut_example :
    (b1 b2 b3 whole : Buffer) × (log : List (List ℕ)) × (drain recorder 1 three [] (world [])
      ≡ done (pos 0, b1) [] (world []))
    × (push_buffer (record b1 { buffer = store b1.buffer (get_buffer b1) (0 ∷ 0 ∷ 0 ∷ []) }) 3
        ≡ some b2)
    × (drain recorder 2 b2 [] (world []) ≡ done (pos 0, b3) log (world []))
    × (drain recorder 2 six [] (world []) ≡ done (pos 0, whole) log (world []))
    × (contents b3 ≡ contents whole)
drain_cut_example =
    drain_cut [] ((4 ∷ 0 ∷ 5 ∷ 0 ∷ 0 ∷ []) ∷ []) (4 ∷ 0 ∷ 5 ∷ []) (0 ∷ []) (0 ∷ 0 ∷ 0 ∷ []) three
      six [] (world []) (omega arith) (omega arith) (unfold contents slice in refl)
      (unfold contents slice in part_only) one_message (omega arith)
