-- ===== src/Utility/Numbers.antt =====
-- The results of `atoi32` of common/utility.c.
use jail.Base.{
  ℕ, ◌≤◌, ◌<◌, ◌≡◌, ◌⊎◌, inl, inr, refl, Option, none, some, List, [], ◌∷◌, arith, ◌==◌, ltb,
  length, Bool-cases, eqb→eq, ℤ, pos, negsuc, minus_one,
}
use jail.Utility.{Strtol, atoi32, int32_max}

-- Whatever `strtol` does, `atoi32` returns -1, or a number up to `INT32_MAX` that `strtol` read
-- with nothing left over from a text that is not empty.
pub atoi32_range :
    (strtol : List ℕ → Strtol) (value : Option (List ℕ))
    → (atoi32 strtol value ≡ minus_one)
      ⊎ ((text : List ℕ) × (n : ℕ) × (value ≡ some text)
          × (atoi32 strtol value ≡ pos n)
          × (n ≤ int32_max)
          × ((strtol text).value ≡ pos n)
          × ((strtol text).end ≡ length text)
          × (0 < length text))
unfolding atoi32
atoi32_range strtol none = inl refl
atoi32_range strtol (some []) = inl refl
atoi32_range strtol (some (c ∷ cs)) = go (strtol (c ∷ cs)).value refl
  where
    go :
        (i : ℤ)
        → (strtol (c ∷ cs)).value ≡ i
        → (atoi32 strtol (some (c ∷ cs)) ≡ minus_one)
          ⊎ ((text : List ℕ) × (n : ℕ) × (some (c ∷ cs) ≡ some text)
              × (atoi32 strtol (some (c ∷ cs)) ≡ pos n)
              × (n ≤ int32_max)
              × ((strtol text).value ≡ pos n)
              × ((strtol text).end ≡ length text)
              × (0 < length text))
    go (negsuc n) e = inl (rw e (ground arith))
    go (pos n) e = elim (Bool-cases ((strtol (c ∷ cs)).end == length (c ∷ cs))) [
      | inr more ↦ inl (ground arith)
      | inl whole ↦ elim (Bool-cases (ltb int32_max n)) [
        | inl big ↦ inl (ground arith)
        | inr fits ↦
            inr (c ∷ cs, n, refl, ground arith, ground arith, e, eqb→eq _ _ whole, omega arith)
      ]
    ]
