-- ===== src/Array/Write.antt =====
-- `array_serialize` and `array_get_size`: the wire form, its length, and the bound on the bytes
-- stored, on success and on failure.
use jail.Base.{
  ℕ, ◌+◌, ◌≤◌, ◌<◌, ◌≡◌, refl, sym, ap, ◌∙◌, true, List, [], ◌∷◌, ◌++◌, append_assoc, arith, length,
  length-append, take, pos, minus_one, All, some,
}
use jail.Array.{Bytes, Array, get_size_from, get_size, serialize_from, serialize, parse, get_count}
use jail.Array.Format.{IsText, body, encode, length-encode, strings, body-append}
use jail.Array.Parse.{parse-encode}

-- The strings that an array of owned strings holds.
unfoldable pub contents : Array Bytes → List Bytes
contents a = take a.count a.array

get_size_from_lem :
    (xs : List Bytes) (size : ℕ) → get_size_from xs size ≡ size + length (body xs) + 1
unfolding get_size_from body
get_size_from_lem [] size = omega arith
get_size_from_lem (x ∷ xs) size =
    omega (arith, get_size_from_lem xs (size + length x + 1), length-append x (0 ∷ body xs))

-- `array_get_size` is the length of the wire form.
pub get_size_lem : (a : Array Bytes) → get_size a ≡ length (encode (contents a))
unfolding get_size contents
get_size_lem a =
    omega (arith, get_size_from_lem (take a.count a.array) 0, length-encode (take a.count a.array))

-- Where the bytes of the wire form that are left fit, the loop stores them all.
serialize_from_fits :
    (xs : List Bytes) (len size : ℕ) (stored : Bytes)
    → size + length (body xs) + 1 ≤ len
    → serialize_from xs len size stored
      ≡ (pos (size + length (body xs) + 1), stored ++ (body xs ++ (0 ∷ [])))
unfolding serialize_from body
serialize_from_fits [] len size stored h = ground arith
serialize_from_fits (x ∷ xs) len size stored h = ground (
  arith,
  length-append x (0 ∷ body xs),
  serialize_from_fits xs len (size + (length x + 1)) (stored ++ (x ++ (0 ∷ []))),
  append_assoc stored (x ++ (0 ∷ [])) (body xs ++ (0 ∷ [])),
  append_assoc x (0 ∷ []) (body xs ++ (0 ∷ [])),
  append_assoc x (0 ∷ body xs) (0 ∷ []),
)

serialize_from_overflows :
    (xs : List Bytes) (len size : ℕ) (stored : Bytes)
    → len < size + length (body xs) + 1
    → (serialize_from xs len size stored).0 ≡ minus_one
unfolding serialize_from body
serialize_from_overflows [] len size stored h = ground arith
serialize_from_overflows (x ∷ xs) len size stored h = ground (
  arith,
  length-append x (0 ∷ body xs),
  serialize_from_overflows xs len (size + (length x + 1)) (stored ++ (x ++ (0 ∷ []))),
)

serialize_from_bound :
    (xs : List Bytes) (len size : ℕ) (stored : Bytes)
    → length stored ≡ size
    → size ≤ len
    → length (serialize_from xs len size stored).1 ≤ len
unfolding serialize_from
serialize_from_bound [] len size stored e h = ground (arith, length-append stored (0 ∷ []))
serialize_from_bound (x ∷ xs) len size stored e h = ground (
  arith,
  length-append stored (x ++ (0 ∷ [])),
  length-append x (0 ∷ []),
  serialize_from_bound xs len (size + (length x + 1)) (stored ++ (x ++ (0 ∷ []))),
)

-- If `array_get_size` is at most the room, `array_serialize` returns that size and stores exactly
-- the wire form of the strings; if not, it returns -1. Whatever it returns, it stores no more
-- bytes than there is room for.
pub serialize_lem :
    (a : Array Bytes) (room : ℕ)
    → (get_size a ≤ room → serialize a room ≡ (pos (get_size a), encode (contents a)))
      × (room < get_size a → (serialize a room).0 ≡ minus_one)
      × (length (serialize a room).1 ≤ room)
unfolding serialize contents encode
serialize_lem a room = (
  λ h. ground (arith, get_size_lem a, length-encode xs, serialize_from_fits xs room 0 []),
  λ h. ground (arith, get_size_lem a, length-encode xs, serialize_from_overflows xs room 0 []),
  ground (arith, serialize_from_bound xs room 0 []),
)
  where
    xs : List Bytes
    xs = take a.count a.array

split_wire : (xs ys : List Bytes) → encode (xs ++ ([] ∷ ys)) ≡ encode xs ++ encode ys
unfolding encode body
split_wire xs ys =
    ap (λ t. t ++ (0 ∷ [])) (body-append xs ([] ∷ ys))
    ∙ append_assoc (body xs) (0 ∷ body ys) (0 ∷ [])
    ∙ sym (append_assoc (body xs) (0 ∷ []) (body ys ++ (0 ∷ [])))

-- Given memory and room, what `array_serialize` stores, followed by anything, is parsed back to the same strings, as many
-- bytes as it returned are consumed, provided that no string is empty or holds a zero byte.
pub parse-serialize :
    (a : Array Bytes) (room : ℕ) (a0 : Array ℕ) (rest : Bytes) (size : ℕ)
    → All IsText (contents a)
    → get_size a ≤ room
    → get_size a ≤ size
    → let (ret, wire) = serialize a room in
      (a' : Array ℕ) × (parse true a0 (wire ++ rest) size ≡ some (ret, a'))
      × (get_count a' ≡ length (contents a))
      × (strings a' (wire ++ rest) ≡ contents a)
unfolding get_count
parse-serialize a room a0 rest size t h k =
    rw ((serialize_lem a room).0 h, get_size_lem a)
      (parse-encode a0 (contents a) rest size t (omega (arith, get_size_lem a)))

-- Given memory, an empty string ends the list that a receiver sees: of a list with an empty string in it, the
-- wire form is parsed to the strings in front of it only, and the rest is left behind in the buffer.
pub parse-empty_string :
    (xs ys : List Bytes) (a0 : Array ℕ)
    → All IsText xs
    → let wire = encode (xs ++ ([] ∷ ys)) in
      (a' : Array ℕ) × (parse true a0 wire (length wire) ≡ some (pos (length (encode xs)), a'))
      × (strings a' wire ≡ xs)
      × (wire ≡ encode xs ++ encode ys)
parse-empty_string xs ys a0 t =
    let (a', p, _, q) =
      parse-encode a0 xs (encode ys) (length (encode xs ++ encode ys)) t
        (omega (arith, length-append (encode xs) (encode ys))) in
    let e = split_wire xs ys in rw e (a', p, q, refl)
