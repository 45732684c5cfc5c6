-- ===== src/Array/Scan.antt =====
-- What the two loops of `array_sanity_test` make of a buffer.
use jail.Base.{
  ℕ, ◌+◌, ◌≤◌, ◌<◌, ◌≡◌, ◌≢◌, sym, ap, ap₂, ◌∙◌, ◌⊎◌, inl, inr, false, some, List, [], ◌∷◌, ◌++◌,
  append_assoc, arith, ◌==◌, length, All, length-append, pos, minus_one,
}
use native.Mathlib.Decide.{dec_le, ℕ_discrete}
use jail.Array.{Bytes, outer, inner}
use jail.Array.Format.{NoZero, IsText, body, length-body-cons}

-- The inner loop passes a text and its terminator.
inner-append :
    (x p : Bytes) (size len result : ℕ)
    → NoZero x
    → len + length x + 1 < size
    → inner (x ++ (0 ∷ p)) size len result ≡ outer p size (len + length x + 1) (result + 1)
unfolding inner outer
inner-append [] p size len result z h = ground (arith)
inner-append (c ∷ x) p size len result z h = ground (arith, inner-append x p size (len + 1) result)

outer-text :
    (c : ℕ) (p : Bytes) (size len result : ℕ)
    → c ≢ 0
    → outer (c ∷ p) size len result ≡ inner (c ∷ p) size len result
unfolding inner outer
outer-text c p size len result h = ground arith

outer-append :
    (x p : Bytes) (size len result : ℕ)
    → IsText x
    → len + length x + 1 < size
    → outer (x ++ (0 ∷ p)) size len result ≡ outer p size (len + length x + 1) (result + 1)
outer-append [] p size len result t h = absurd (omega arith)
outer-append (c ∷ x) p size len result t h =
    outer-text c (x ++ (0 ∷ p)) size len result t.no_zero.0
    ∙ inner-append (c ∷ x) p size len result t.no_zero h

-- The sanity test counts the strings of a wire form that fits.
pub outer-body :
    (xs : List Bytes) (rest : Bytes) (size len result : ℕ)
    → All IsText xs
    → len + length (body xs) < size
    → outer (body xs ++ (0 ∷ rest)) size len result ≡ some (pos (result + length xs))
unfolding body
outer-body [] rest size len result t h = unfold outer in ground arith
outer-body (x ∷ xs) rest size len result t h = rw (append_assoc x (0 ∷ body xs) (0 ∷ rest)) (
    ground (
      arith,
      outer-append x (body xs ++ (0 ∷ rest)) size len result t.0,
      outer-body xs rest size (len + length x + 1) (result + 1) t.1,
      length-append x (0 ∷ body xs),
    ))

-- What the tests find in a buffer that holds at least `size` bytes.
abbrev pub OuterVerdict : Bytes → ℕ → ℕ → ℕ → Type 0
OuterVerdict p size len result =
    (outer p size len result ≡ some minus_one)
    ⊎ ((xs : List Bytes) × (rest : Bytes) × All IsText xs
        × (p ≡ body xs ++ (0 ∷ rest))
        × (len + length (body xs) < size))

abbrev InnerVerdict : Bytes → ℕ → ℕ → ℕ → Type 0
InnerVerdict p size len result =
    (inner p size len result ≡ some minus_one)
    ⊎ ((x : Bytes) × (xs : List Bytes) × (rest : Bytes) × NoZero x
        × All IsText xs
        × (p ≡ x ++ (0 ∷ (body xs ++ (0 ∷ rest))))
        × (len + length x + 1 + length (body xs) < size))

nonzero_of : (c : ℕ) → (c == 0) ≡ false → c ≢ 0
nonzero_of c h = ground arith

prepend :
    (c : ℕ) (p : Bytes) (size len result : ℕ)
    → c ≢ 0
    → len + 1 < size
    → InnerVerdict p size (len + 1) result
    → (inner (c ∷ p) size len result ≡ inner p size (len + 1) result)
    → InnerVerdict (c ∷ p) size len result
prepend c p size len result h f (inl e) s = inl (s ∙ e)
prepend c p size len result h f (inr (x, xs, rest, z, t, e, b)) s =
    inr (c ∷ x, xs, rest, (h, z), t, ap (λ q. c ∷ q) e, omega arith)

inner_past :
    (c : ℕ) (p : Bytes) (size len result : ℕ)
    → c ≢ 0
    → len + 1 < size
    → inner (c ∷ p) size len result ≡ inner p size (len + 1) result
unfolding inner
inner_past c p size len result h f = ground arith

inner_zero :
    (c : ℕ) (p : Bytes) (size len result : ℕ)
    → c ≡ 0
    → len + 1 < size
    → inner (c ∷ p) size len result ≡ outer p size (len + 1) (result + 1)
unfolding inner
inner_zero c p size len result h f = ground arith

inner_full :
    (c : ℕ) (p : Bytes) (size len result : ℕ)
    → size ≤ len + 1
    → inner (c ∷ p) size len result ≡ some minus_one
unfolding inner
inner_full c p size len result f = ground arith

close :
    (c : ℕ) (p : Bytes) (size len result : ℕ)
    → c ≡ 0
    → len + 1 < size
    → OuterVerdict p size (len + 1) (result + 1)
    → InnerVerdict (c ∷ p) size len result
close c p size len result h f (inl e) = inl (inner_zero c p size len result h f ∙ e)
close c p size len result h f (inr (xs, rest, t, e, b)) =
    inr ([], xs, rest, tt, t, ap₂ ◌∷◌ h e, omega arith)

open_text :
    (c : ℕ) (p : Bytes) (size len result : ℕ)
    → c ≢ 0
    → InnerVerdict (c ∷ p) size len result
    → OuterVerdict (c ∷ p) size len result
open_text c p size len result h (inl e) = inl (outer-text c p size len result h ∙ e)
open_text c p size len result h (inr ([], xs, rest, z, t, e, b)) = absurd (h (cc e))
open_text c p size len result h (inr (d ∷ x, xs, rest, z, t, e, b)) = inr (
  (d ∷ x) ∷ xs,
  rest,
  (record { no_zero = z; non_empty = omega arith }, t),
  e ∙ unfold body in sym (append_assoc (d ∷ x) (0 ∷ body xs) (0 ∷ rest)),
  omega (arith, length-body-cons (d ∷ x) xs),
)

-- One byte of a text, given the verdict on what follows it.
text_step :
    (c : ℕ) (p : Bytes) (size len result : ℕ)
    → c ≢ 0
    → (len + 1 < size → InnerVerdict p size (len + 1) result)
    → InnerVerdict (c ∷ p) size len result
text_step c p size len result nz next = elim (dec_le size (len + 1)) [
  | yes full ↦ inl (inner_full c p size len result full)
  | no room ↦
      prepend c p size len result nz (omega arith) (next (omega arith))
        (inner_past c p size len result nz (omega arith))
]

zero_step :
    (c : ℕ) (p : Bytes) (size len result : ℕ)
    → c ≡ 0
    → (len + 1 < size → OuterVerdict p size (len + 1) (result + 1))
    → InnerVerdict (c ∷ p) size len result
zero_step c p size len result z next = elim (dec_le size (len + 1)) [
  | yes full ↦ inl (inner_full c p size len result full)
  | no room ↦ close c p size len result z (omega arith) (next (omega arith))
]

no_strings :
    (c : ℕ) (p : Bytes) (size len result : ℕ)
    → c ≡ 0
    → len < size
    → OuterVerdict (c ∷ p) size len result
unfolding body
no_strings c p size len result z f = inr ([], p, tt, ap (λ k. k ∷ p) z, omega arith)

mutual
  pub outer_verdict :
      (p : Bytes) (size len result : ℕ)
      → len < size
      → size ≤ len + length p
      → OuterVerdict p size len result
  outer_verdict [] size len result f h = absurd (omega arith)
  outer_verdict (c ∷ p) size len result f h = elim (ℕ_discrete c 0) [
    | yes z ↦ no_strings c p size len result z f
    | no nz ↦ open_text c p size len result nz (
        text_step c p size len result nz
          (λ r. inner_verdict p size (len + 1) result r (omega arith)))
  ]

  inner_verdict :
      (p : Bytes) (size len result : ℕ)
      → len < size
      → size ≤ len + length p
      → InnerVerdict p size len result
  inner_verdict [] size len result f h = absurd (omega arith)
  inner_verdict (c ∷ p) size len result f h = elim (ℕ_discrete c 0) [
    | yes z ↦
        zero_step c p size len result z
          (λ r. outer_verdict p size (len + 1) (result + 1) r (omega arith))
    | no nz ↦
        text_step c p size len result nz
          (λ r. inner_verdict p size (len + 1) result r (omega arith))
  ]
