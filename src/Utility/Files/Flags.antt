-- ===== src/Utility/Files/Flags.antt =====
-- `set_non_blocking_mode` and `set_blocking_mode` on the flags that they find.
use jail.Base.{
  ℕ, ◌/◌, ◌%◌, ◌≡◌, refl, ◌⊎◌, inl, inr, Bool, true, false, Bool-cases, not, if◌then◌else◌, arith,
  ℤ, pos, negsuc, minus_one,
}
use jail.Posix.{World, done, Outcome, ◌>>=◌, answer, after, get_flags, set_flags}
use jail.Utility.Files.{
  nonzero, o_nonblock, has_flag, with_flag, without_flag, store_flags, set_non_blocking_mode,
  set_blocking_mode, non_blocking_from, blocking_from,
}

-- The flag is as wanted in the word, and the other bits are those of the word before.
abbrev pub Differs : ℕ → Bool → ℕ → ℕ → Type 0
Differs flag wanted before word =
    (has_flag flag word ≡ wanted)
    × (word % flag ≡ before % flag)
    × (word / flag / 2 ≡ before / flag / 2)

with_flag_lem : (options : ℕ) → Differs o_nonblock true options (with_flag o_nonblock options)
unfolding with_flag has_flag
with_flag_lem options = (ground arith, ground arith, ground arith)

without_flag_lem :
    (options : ℕ) → Differs o_nonblock false options (without_flag o_nonblock options)
unfolding without_flag has_flag
without_flag_lem options = (ground arith, ground arith, ground arith)

-- What a change of the mode comes to, where `r` is the answer to the first call.
abbrev pub Changed : {S : Type 0} → ℤ → Bool → ℤ → S → World → Outcome S ℤ → Type 0
Changed fd wanted r s w o =
    ((n : ℕ) × (r ≡ negsuc n) × (o ≡ done minus_one s w))
    ⊎ ((options : ℕ) × (r ≡ pos options)
        × (has_flag o_nonblock options ≡ wanted)
        × (o ≡ done (pos 0) s w))
    ⊎ ((options word : ℕ) × (r ≡ pos options)
        × (has_flag o_nonblock options ≡ not wanted)
        × Differs o_nonblock wanted options word
        × (o
            ≡ done (if nonzero (answer w (set_flags fd word)).ret then minus_one else pos 0) s
                (after w (set_flags fd word))))

module _ {S : Type 0} where
  non_blocking_lem :
      (fd r : ℤ) (s : S) (w : World) → Changed fd true r s w (non_blocking_from fd r s w)
  unfolding non_blocking_from store_flags ◌>>=◌
  non_blocking_lem fd (negsuc n) s w = inl (n, refl, refl)
  non_blocking_lem fd (pos options) s w = elim (Bool-cases (has_flag o_nonblock options)) [
    | inl set ↦ inr (inl (options, refl, set, rw set refl))
    | inr clear ↦ inr (
        inr (
          options,
          with_flag o_nonblock options,
          refl,
          clear,
          with_flag_lem options,
          rw clear refl,
        ))
  ]

  blocking_lem : (fd r : ℤ) (s : S) (w : World) → Changed fd false r s w (blocking_from fd r s w)
  unfolding blocking_from store_flags ◌>>=◌
  blocking_lem fd (negsuc n) s w = inl (n, refl, refl)
  blocking_lem fd (pos options) s w = elim (Bool-cases (has_flag o_nonblock options)) [
    | inr clear ↦ inr (inl (options, refl, clear, rw clear refl))
    | inl set ↦ inr (
        inr (
          options,
          without_flag o_nonblock options,
          refl,
          set,
          without_flag_lem options,
          rw set refl,
        ))
  ]

  -- `set_non_blocking_mode` and `set_blocking_mode` fail if the flags cannot be read, do nothing if
  -- the flag is as wanted, and if not store a word that differs from the old one in this flag
  -- only, and fail exactly if this fails.
  pub modes_lem :
      (fd : ℤ) (s : S) (w : World)
      → let r = (answer w (get_flags fd)).ret in
        let w1 = after w (get_flags fd) in
        Changed fd true r s w1 (set_non_blocking_mode fd s w)
        × Changed fd false r s w1 (set_blocking_mode fd s w)
  unfolding set_non_blocking_mode set_blocking_mode ◌>>=◌
  modes_lem fd s w = (non_blocking_lem fd _ s _, blocking_lem fd _ s _)
