-- ===== src/Array/Parse.antt =====
-- `array_parse` of common/array.c against the wire form.
use jail.Base.{
  ℕ, zero, suc, ◌+◌, ◌≤◌, ◌<◌, ◌≡◌, refl, sym, ap, ap₂, ◌∙◌, ◌⊎◌, inl, inr, Bool, true, false, some,
  List, [], ◌∷◌, ◌++◌, append_assoc, arith, length, All, length-append, drop, drop-append, map,
  length-map, pos, minus_one, append-nil,
}
use jail.Array.{Bytes, Array, outer, sanity_test, skip, assign, parse, parse_counted, c_string}
use jail.Array.Format.{NoZero, IsText, body, encode, strings, length-encode}
use jail.Array.Scan.{OuterVerdict, outer-body, outer_verdict}

-- Where each string of a wire form starts, if the first starts at `offset`.
offsets : ℕ → List Bytes → List ℕ
offsets offset [] = []
offsets offset (x ∷ xs) = offset ∷ offsets (offset + length x + 1) xs

skip-append :
    (x p : Bytes) (offset : ℕ)
    → NoZero x
    → skip (x ++ (0 ∷ p)) offset ≡ some (p, offset + length x + 1)
unfolding skip
skip-append [] p offset z = ground arith
skip-append (c ∷ x) p offset z = ground (arith, skip-append x p (offset + 1))

assign-body :
    (xs : List Bytes) (rest : Bytes) (offset : ℕ) (slots : List ℕ)
    → All IsText xs
    → assign (length xs) (body xs ++ rest) offset slots
      ≡ some (slots ++ offsets offset xs, offset + length (body xs))
unfolding assign body offsets
assign-body [] rest offset slots t = ground (arith, append-nil slots)
assign-body (x ∷ xs) rest offset slots t = rw (append_assoc x (0 ∷ body xs) rest) (
    ground (
      arith,
      skip-append x (body xs ++ rest) offset t.0.no_zero,
      assign-body xs rest (offset + length x + 1) (slots ++ (offset ∷ [])) t.1,
      append_assoc slots (offset ∷ []) (offsets (offset + length x + 1) xs),
      length-append x (0 ∷ body xs),
    ))

c_string-append : (x p : Bytes) → NoZero x → c_string (x ++ (0 ∷ p)) ≡ x
unfolding c_string
c_string-append [] p z = refl
c_string-append (c ∷ x) p z = ground (arith, c_string-append x p)

strings_at :
    (xs : List Bytes) (rest before buffer : Bytes) (offset : ℕ)
    → All IsText xs
    → buffer ≡ before ++ (body xs ++ rest)
    → offset ≡ length before
    → map (λ o. c_string (drop o buffer)) (offsets offset xs) ≡ xs
unfolding offsets body
strings_at [] rest before buffer offset t e l = refl
strings_at (x ∷ xs) rest before buffer offset t e l =
    ap₂ ◌∷◌ here
      (strings_at xs rest (before ++ (x ++ (0 ∷ []))) buffer (offset + length x + 1) t.1 e' l')
  where
    regroup : (x ++ (0 ∷ body xs)) ++ rest ≡ x ++ (0 ∷ (body xs ++ rest))
    regroup = append_assoc x (0 ∷ body xs) rest

    here : c_string (drop offset buffer) ≡ x
    here = rw (l, e, drop-append before, regroup) (c_string-append x (body xs ++ rest) t.0.no_zero)

    e' : buffer ≡ (before ++ (x ++ (0 ∷ []))) ++ (body xs ++ rest)
    e' =
        e
        ∙ ap (λ t. before ++ t) (regroup ∙ sym (append_assoc x (0 ∷ []) (body xs ++ rest)))
        ∙ sym (append_assoc before (x ++ (0 ∷ [])) (body xs ++ rest))

    l' : offset + length x + 1 ≡ length (before ++ (x ++ (0 ∷ [])))
    l' = omega (arith, length-append before (x ++ (0 ∷ [])), length-append x (0 ∷ []))

parsed : Array ℕ → List Bytes → Array ℕ
parsed a xs = record a { count = length xs; array = offsets 0 xs }

encode-append : (xs : List Bytes) (rest : Bytes) → encode xs ++ rest ≡ body xs ++ (0 ∷ rest)
unfolding encode
encode-append xs rest = append_assoc (body xs) (0 ∷ []) rest

parse-body :
    (a : Array ℕ) (xs : List Bytes) (rest : Bytes) (size : ℕ)
    → All IsText xs
    → length (body xs) < size
    → parse true a (body xs ++ (0 ∷ rest)) size ≡ some (pos (length (body xs) + 1), parsed a xs)
unfolding parse parse_counted sanity_test parsed
parse-body a xs rest size t h =
    ground (arith, outer-body xs rest size 0 0 t, assign-body xs (0 ∷ rest) 0 [] t)

-- Given memory, `array_parse` accepts a buffer that begins with a wire form which fits in the size,
-- of strings that are not empty and hold no zero byte: the result is the length of the wire form,
-- and the array has its strings, in order.
pub parse-encode :
    (a : Array ℕ) (xs : List Bytes) (rest : Bytes) (size : ℕ)
    → All IsText xs
    → length (encode xs) ≤ size
    → (a' : Array ℕ) × (parse true a (encode xs ++ rest) size ≡ some (pos (length (encode xs)), a'))
      × (a'.count ≡ length xs)
      × (strings a' (encode xs ++ rest) ≡ xs)
unfolding strings parsed
parse-encode a xs rest size t h = (
  parsed a xs,
  rw (encode-append xs rest, length-encode xs)
      (parse-body a xs rest size t (omega (arith, length-encode xs))),
  refl,
  strings_at xs (0 ∷ rest) [] (encode xs ++ rest) 0 t (encode-append xs rest) refl,
)

-- The two outcomes of a parse that is given memory.
abbrev pub Accepted : Array ℕ → Bytes → ℕ → Type 0
Accepted a buffer size =
    (xs : List Bytes) × (rest : Bytes) × (a' : Array ℕ) × All IsText xs
    × (buffer ≡ encode xs ++ rest)
    × (length (encode xs) ≤ size)
    × (a'.count ≡ length xs)
    × (parse true a buffer size ≡ some (pos (length (encode xs)), a'))
    × (strings a' buffer ≡ xs)

Accepted-of :
    (a : Array ℕ) (buffer : Bytes) (size : ℕ) (xs : List Bytes) (rest : Bytes)
    → All IsText xs
    → buffer ≡ body xs ++ (0 ∷ rest)
    → length (body xs) < size
    → Accepted a buffer size
unfolding strings parsed
Accepted-of a buffer size xs rest t e h = (
  xs,
  rest,
  parsed a xs,
  t,
  e ∙ sym (encode-append xs rest),
  omega (arith, length-encode xs),
  refl,
  rw (e, length-encode xs) (parse-body a xs rest size t h),
  strings_at xs (0 ∷ rest) [] buffer 0 t e refl,
)

parse_rejects :
    (a : Array ℕ) (buffer : Bytes) (size : ℕ)
    → 0 < size
    → outer buffer size 0 0 ≡ some minus_one
    → parse true a buffer size ≡ some (minus_one, a)
unfolding parse sanity_test
parse_rejects a buffer size h e = ground arith

parse_empty : (a : Array ℕ) (buffer : Bytes) → parse true a buffer 0 ≡ some (minus_one, a)
unfolding parse
parse_empty a buffer = refl

-- Given memory, and of a buffer with at least `size` bytes, `array_parse` never reads past its end: it either accepts
-- a wire form that the buffer begins with and that fits in the size, with its strings, or returns
-- -1 and leaves the array alone.
pub parse_lem :
    (a : Array ℕ) (buffer : Bytes) (size : ℕ)
    → size ≤ length buffer
    → Accepted a buffer size ⊎ (parse true a buffer size ≡ some (minus_one, a))
parse_lem a buffer zero h = inr (parse_empty a buffer)
parse_lem a buffer (suc n) h = elim (outer_verdict buffer (suc n) 0 0 (omega arith) (omega arith)) [
  | inl e ↦ inr (parse_rejects a buffer (suc n) (omega arith) e)
  | inr (xs, rest, t, e, b) ↦ inl (Accepted-of a buffer (suc n) xs rest t e (omega arith))
]

no_memory :
    (a : Array ℕ) (buffer : Bytes) (size : ℕ)
    → 0 < size
    → OuterVerdict buffer size 0 0
    → (a' : Array ℕ) × (parse false a buffer size ≡ some (minus_one, a'))
unfolding parse parse_counted sanity_test
no_memory a buffer size h (inl e) = (a, ground arith)
no_memory a buffer size h (inr (xs, rest, t, e, b)) = (
  record a { count = length xs; array = [] },
  rw e (ground (arith, outer-body xs rest size 0 0 t)),
)

-- What later code may rely on after a parse: on success the result is at most the size, and each
-- counted slot has a pointer.
abbrev pub Parsed : Bool → Array ℕ → Bytes → ℕ → Type 0
Parsed memory a buffer size =
    ((ret : ℕ) × (a' : Array ℕ) × (parse memory a buffer size ≡ some (pos ret, a'))
      × (ret ≤ size)
      × (length a'.array ≡ a'.count))
    ⊎ ((a' : Array ℕ) × (parse memory a buffer size ≡ some (minus_one, a')))

parsed_of_accepted :
    (a : Array ℕ) (buffer : Bytes) (size : ℕ) → Accepted a buffer size → Parsed true a buffer size
unfolding strings
parsed_of_accepted a buffer size (xs, rest, a', t, e, h, c, p, s) = inl (
  length (encode xs),
  a',
  p,
  h,
  omega (arith, length-map a'.array (λ o. c_string (drop o buffer)), ap (length {A = Bytes}) s),
)

pub parse_total :
    (memory : Bool) (a : Array ℕ) (buffer : Bytes) (size : ℕ)
    → size ≤ length buffer
    → Parsed memory a buffer size
unfolding parse
parse_total memory a buffer zero h = inr (a, refl)
parse_total false a buffer (suc n) h = inr (
    no_memory a buffer (suc n) (omega arith)
      (outer_verdict buffer (suc n) 0 0 (omega arith) (omega arith)))
parse_total true a buffer (suc n) h = elim (parse_lem a buffer (suc n) h) [
  | inl accepted ↦ parsed_of_accepted a buffer (suc n) accepted
  | inr e ↦ inr (a, e)
]
