-- ===== src/Cmdline/Stores.antt =====
-- Bytes at an index, in strings and in memory after a write.
use jail.Base.{
  ℕ, zero, suc, ◌+◌, ◌-◌, ◌≤◌, ◌<◌, ◌≡◌, refl, ap, ◌∙◌, inl, inr, none, some, [], ◌∷◌, ◌++◌,
  get_elem?, length, take, le→leb, arith, ◌⊎◌,
}
use jail.Array.{Bytes}
use jail.Message.{Memory, store}
use jail.Cmdline.{put, zeros}

-- The byte at an index, and zero behind the end.
abbrev pub byte_at : Bytes → ℕ → ℕ
byte_at [] i = 0
byte_at (x ∷ xs) zero = x
byte_at (x ∷ xs) (suc i) = byte_at xs i

pub byte_at-past : (xs : Bytes) (i : ℕ) → length xs ≤ i → byte_at xs i ≡ 0
byte_at-past [] i h = refl
byte_at-past (x ∷ xs) zero h = absurd (omega arith)
byte_at-past (x ∷ xs) (suc i) h = byte_at-past xs i (omega arith)

pub byte_at-append : (xs ys : Bytes) (i : ℕ) → i < length xs → byte_at (xs ++ ys) i ≡ byte_at xs i
byte_at-append [] ys i h = absurd (omega arith)
byte_at-append (x ∷ xs) ys zero h = refl
byte_at-append (x ∷ xs) ys (suc i) h = byte_at-append xs ys i (omega arith)

pub byte_at-behind :
    (xs ys : Bytes) (i : ℕ) → length xs ≤ i → byte_at (xs ++ ys) i ≡ byte_at ys (i - length xs)
byte_at-behind [] ys i h = let e : i - 0 ≡ i = omega arith in rw e refl
byte_at-behind (x ∷ xs) ys zero h = absurd (omega arith)
byte_at-behind (x ∷ xs) ys (suc i) h =
    let e : suc i - suc (length xs) ≡ i - length xs = omega arith in
    rw e (byte_at-behind xs ys i (omega arith))

pub byte_at-take : (n : ℕ) (xs : Bytes) (i : ℕ) → i < n → byte_at (take n xs) i ≡ byte_at xs i
byte_at-take zero xs i h = absurd (omega arith)
byte_at-take (suc n) [] i h = refl
byte_at-take (suc n) (x ∷ xs) zero h = refl
byte_at-take (suc n) (x ∷ xs) (suc i) h = byte_at-take n xs i (omega arith)

pub byte_at-zeros : (n i : ℕ) → byte_at (zeros n) i ≡ 0
byte_at-zeros zero i = refl
byte_at-zeros (suc n) zero = refl
byte_at-zeros (suc n) (suc i) = byte_at-zeros n i

pub length-zeros : (n : ℕ) → length (zeros n) ≡ n
length-zeros zero = refl
length-zeros (suc n) = ap suc (length-zeros n)

pub get_elem?-byte_at : (xs : Bytes) (i : ℕ) → i < length xs → get_elem? xs i ≡ some (byte_at xs i)
get_elem?-byte_at [] i h = absurd (omega arith)
get_elem?-byte_at (x ∷ xs) zero h = refl
get_elem?-byte_at (x ∷ xs) (suc i) h = get_elem?-byte_at xs i (omega arith)

pub get_elem?-past : (xs : Bytes) (i : ℕ) → length xs ≤ i → get_elem? xs i ≡ none
get_elem?-past [] i h = refl
get_elem?-past (x ∷ xs) zero h = absurd (omega arith)
get_elem?-past (x ∷ xs) (suc i) h = get_elem?-past xs i (omega arith)

pub store_inside :
    (m : Memory) (o i : ℕ) (bytes : Bytes)
    → o ≤ i
    → i < o + length bytes
    → store m o bytes i ≡ byte_at bytes (i - o)
unfolding store
store_inside m o i bytes h k = ground (arith, get_elem?-byte_at bytes (i - o))

pub store_front :
    (m : Memory) (i : ℕ) (bytes : Bytes) → i < length bytes → store m 0 bytes i ≡ byte_at bytes i
store_front m i bytes h =
    store_inside m 0 i bytes (omega arith) (omega arith) ∙ ap (λ j. byte_at bytes j) (omega arith)

pub store_outside :
    (m : Memory) (o i : ℕ) (bytes : Bytes)
    → (i < o) ⊎ (o + length bytes ≤ i)
    → store m o bytes i ≡ m i
unfolding store
store_outside m o i bytes (inl h) = ground arith
store_outside m o i bytes (inr h) = ground (arith, get_elem?-past bytes (i - o))

pub put_fits :
    (size off : ℕ) (bytes : Bytes) (m : Memory)
    → off + length bytes ≤ size
    → put size off bytes m ≡ some (store m off bytes)
unfolding put
put_fits size off bytes m h = rw (le→leb (off + length bytes) size h) refl

pub take_nil : (n : ℕ) → take {A = ℕ} n [] ≡ []
take_nil zero = refl
take_nil (suc n) = refl

pub last_byte : (n : ℕ) (xs : Bytes) → length xs ≡ n → byte_at (0 ∷ []) (n - length xs) ≡ 0
last_byte n xs e = let z : n - length xs ≡ 0 = omega arith in rw z refl
