-- ===== src/Array/Format.antt =====
-- The wire form of a list of strings, independent of the code, and the strings that the pointers
-- of a parsed array stand for.
use jail.Base.{
  ℕ, ◌+◌, ◌<◌, ◌≢◌, ◌≡◌, refl, List, [], ◌∷◌, ◌++◌, arith, length, All, map, drop, length-append,
  append_assoc, ap, sym, ◌∙◌,
}
use jail.Array.{Bytes, Array, c_string}

-- No byte of the text is the terminator, and there is at least one byte.
abbrev pub NoZero : Bytes → Type 0
NoZero = All (λ c. c ≢ 0)

pub record IsText (x : Bytes) : Type 0 where
  pub no_zero : NoZero x
  pub non_empty : 0 < length x

-- Each string with its terminator.
unfoldable pub body : List Bytes → Bytes
body [] = []
body (x ∷ xs) = x ++ (0 ∷ body xs)

-- The strings, closed by an empty one.
unfoldable pub encode : List Bytes → Bytes
encode xs = body xs ++ (0 ∷ [])

-- What the pointers of a parsed array read as.
unfoldable pub strings : Array ℕ → Bytes → List Bytes
strings a buffer = map (λ offset. c_string (drop offset buffer)) a.array

pub length-encode : (xs : List Bytes) → length (encode xs) ≡ length (body xs) + 1
unfolding encode
length-encode xs = omega (arith, length-append (body xs) (0 ∷ []))

pub body-append : (xs ys : List Bytes) → body (xs ++ ys) ≡ body xs ++ body ys
unfolding body
body-append [] ys = refl
body-append (x ∷ xs) ys =
    ap (λ t. x ++ (0 ∷ t)) (body-append xs ys) ∙ sym (append_assoc x (0 ∷ body xs) (body ys))

pub length-body-cons :
    (x : Bytes) (xs : List Bytes) → length (body (x ∷ xs)) ≡ length x + length (body xs) + 1
unfolding body
length-body-cons x xs = omega (arith, length-append x (0 ∷ body xs))
