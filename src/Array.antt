-- ===== src/Array.antt =====
-- common/array.c and common/array.h: lists of C strings, owned (`push`) or found in a received
-- buffer (`parse`), and their wire form (`serialize`).
--
-- A `char *` of a list is a value of the parameter `P`: the copy that `strdup` made, as its bytes,
-- or an offset into the parsed buffer. A buffer is the list of its bytes, and a pointer into it is
-- the rest of that list with its offset. A read or write past the end is a fault, `none`. Whether
-- the allocator gives memory is an argument.
pub mod Format
mod Scan
pub mod Parse
pub mod Write
pub mod Push
use jail.Base.{
  ℕ, zero, suc, ◌+◌, ◌*◌, ◌≡◌, Bool, true, false, Option, none, some, List, [], ◌∷◌, ◌++◌, ltb, leb,
  ◌==◌, if◌then◌else◌, length, get_elem?, take, ℤ, pos, minus_one, is_neg, to_nat,
}

abbrev pub Bytes : Type 0
Bytes = List ℕ

-- `array_t`: the slots that hold a pointer, and the two counters.
pub record Array (P : Type 0) : Type 0 where
  pub array : List P
  pub count : ℕ
  pub capacity : ℕ

unfoldable pub initialize : {P : Type 0} → Array P
initialize = record { array = []; count = 0; capacity = 0 }

-- The two loops of `array_sanity_test`: `outer` stands at `while (*p)` and `inner` at
-- `while (*p++)`. On a byte that is not zero the outer test hands the same byte to the inner one.
unfoldable mutual
  pub outer : Bytes → ℕ → ℕ → ℕ → Option ℤ
  outer [] size len result = none
  outer (c ∷ p) size len result = elim (c == 0) [
    | true ↦ some (pos result)
    | false ↦ elim (leb size (len + 1)) [
      | true ↦ some minus_one
      | false ↦ inner p size (len + 1) result
    ]
  ]

  pub inner : Bytes → ℕ → ℕ → ℕ → Option ℤ
  inner [] size len result = none
  inner (c ∷ p) size len result = elim (leb size (len + 1)) [
    | true ↦ some minus_one
    | false ↦ elim (c == 0) [
      | true ↦ outer p size (len + 1) (result + 1)
      | false ↦ inner p size (len + 1) result
    ]
  ]

pub sanity_test : Bytes → ℕ → Option ℤ
sanity_test array size = outer array size 0 0

-- `while (*p++);` from the pointer `p` at `offset`: where it stops.
pub skip : Bytes → ℕ → Option (Bytes × ℕ)
skip [] offset = none
skip (c ∷ p) offset = if c == 0 then some (p, offset + 1) else skip p (offset + 1)

-- The `for` loop of `array_parse` with `n` rounds left: the slots filled and the offset of `p`.
pub assign : ℕ → Bytes → ℕ → List ℕ → Option (List ℕ × ℕ)
assign zero p offset slots = some (slots, offset)
assign (suc n) p offset slots = elim (skip p offset) [
  | none ↦ none
  | some (p', offset') ↦ assign n p' offset' (slots ++ (offset ∷ []))
]

-- `array_parse` from the point where the count is known. `malloc` says whether memory was given.
pub parse_counted : Bool → Array ℕ → Bytes → ℕ → Option (ℤ × Array ℕ)
parse_counted false a buffer count = some (minus_one, record a { count = count; array = [] })
parse_counted true a buffer count = elim (assign count buffer 0 []) [
  | none ↦ none
  | some (slots, offset) ↦ some (pos (offset + 1), record a { count = count; array = slots })
]

unfoldable pub parse : Bool → Array ℕ → Bytes → ℕ → Option (ℤ × Array ℕ)
parse malloc a buffer size =
    if size == 0 then some (minus_one, a) else elim (sanity_test buffer size) [
      | none ↦ none
      | some count ↦
          if is_neg count then some (minus_one, a) else parse_counted malloc a buffer (to_nat count)
    ]

unfoldable pub get_count : {P : Type 0} → Array P → ℕ
get_count a = a.count

unfoldable pub get_element : {P : Type 0} → Array P → ℕ → Option P
get_element a index = if leb a.count index then none else get_elem? a.array index

-- The loop of `array_get_size`, over the `count` strings.
unfoldable pub get_size_from : List Bytes → ℕ → ℕ
get_size_from [] size = size + 1
get_size_from (x ∷ xs) size = get_size_from xs (size + length x + 1)

unfoldable pub get_size : Array Bytes → ℕ
get_size a = get_size_from (take a.count a.array) 0

-- The loop of `array_serialize` and what follows it: `size` so far, and the bytes stored from
-- `buffer` on. `memcpy` of `now` bytes copies the string and its terminator.
pub serialize_from : List Bytes → ℕ → ℕ → Bytes → ℤ × Bytes
serialize_from [] length' size stored =
    if ltb length' (size + 1) then (minus_one, stored) else (pos (size + 1), stored ++ (0 ∷ []))
serialize_from (x ∷ xs) length' size stored = elim (ltb length' (size + (length x + 1))) [
  | true ↦ (minus_one, stored)
  | false ↦ serialize_from xs length' (size + (length x + 1)) (stored ++ (x ++ (0 ∷ [])))
]

unfoldable pub serialize : Array Bytes → ℕ → ℤ × Bytes
serialize a length' = serialize_from (take a.count a.array) length' 0 []

-- `array->array[array->count] = p; array->count += 1`
pub store_last : {P : Type 0} → Array P → P → Option (ℤ × Array P)
store_last a p =
    if ltb a.count a.capacity
    then some (pos 0, record a { array = take a.count a.array ++ (p ∷ []); count = a.count + 1 })
    else none

-- The new capacity, `s`.
pub grown : ℕ → ℕ
grown count = if count == 0 then 10 else count * 2

-- `array_push`, with the results of `strdup` and `realloc`. On failure the copy is freed.
unfoldable pub push : {P : Type 0} → Bool → Bool → Array P → P → Option (ℤ × Array P)
push strdup realloc a str =
    if strdup
    then (if a.count == a.capacity
        then (if realloc
            then store_last (record a { capacity = grown a.count }) str
            else some (minus_one, a))
        else store_last a str)
    else some (minus_one, a)

-- The C string that starts at a pointer.
pub c_string : Bytes → Bytes
c_string [] = []
c_string (c ∷ p) = if c == 0 then [] else c ∷ c_string p
