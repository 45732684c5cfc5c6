-- ===== src/Utility/Files/Limit.antt =====
-- `set_maximum_files` of common/utility.c and the limit that is in force.
use jail.Base.{
  ◌∙◌, ℕ, ◌≡◌, refl, ◌⊎◌, inl, inr, true, false, Bool-cases, not, ◌&&◌, ◌==◌, ltb, if◌then◌else◌,
  List, [], ◌∷◌, ℤ, pos, negsuc, minus_one, to_nat,
}
use jail.Posix.{World, Call, Reply, done, Outcome, ◌>>=◌, answer, after, getrlimit, setrlimit}
use jail.Utility.Files.{
  nonzero, rlim_infinity, to_int, set_limit, raise_limit, limit_from, set_maximum_files,
}

-- The limit in force after calls, the newest first, where it was `old` before them.
abbrev pub in_force : ℕ → List (Call × Reply) → ℕ
in_force old [] = old
in_force old ((setrlimit current maximum, r) ∷ calls) =
    let before = in_force old calls in if nonzero r.ret then before else current
in_force old (_ ∷ calls) = in_force old calls

-- The result is the limit in force, as an `int`, and this limit is one of three.
abbrev pub Set : {S : Type 0} → ℕ → ℕ → ℕ → ℕ → S → Outcome S ℤ → Type 0
Set old n current maximum s o =
    (w : World) × (o ≡ done (to_int (in_force old w.trace)) s w)
    × ((in_force old w.trace ≡ n)
        ⊎ (in_force old w.trace ≡ current)
        ⊎ (in_force old w.trace ≡ maximum))

module _ {S : Type 0} where
  set_limit_lem :
      (old next maximum : ℕ) (s : S) (w : World)
      → (w' : World) × (set_limit next maximum (in_force old w.trace) s w
          ≡ done (to_int (in_force old w'.trace)) s w')
        × ((in_force old w'.trace ≡ next) ⊎ (in_force old w'.trace ≡ in_force old w.trace))
  unfolding set_limit ◌>>=◌
  set_limit_lem old next maximum s w =
      elim (Bool-cases (nonzero (answer w (setrlimit next maximum)).ret)) [
        | inl bad ↦ (after w (setrlimit next maximum), rw bad refl, inr (rw bad refl))
        | inr good ↦ (after w (setrlimit next maximum), rw good refl, inl (rw good refl))
      ]

  kept_lem :
      (old n : ℕ) (s : S) (w : World) (current : ℕ)
      → in_force old w.trace ≡ current
      → nonzero (answer w (setrlimit n n)).ret ≡ true
      → in_force old (after w (setrlimit n n)).trace ≡ current
  kept_lem old n s w current e bad = rw bad e

  raise_limit_lem :
      (old n current maximum : ℕ) (s : S) (w : World)
      → in_force old w.trace ≡ current
      → Set old n current maximum s (raise_limit n current maximum s w)
  unfolding raise_limit ◌>>=◌
  raise_limit_lem old n current maximum s w e =
      elim (Bool-cases (nonzero (answer w (setrlimit n n)).ret)) [
        | inr good ↦ (after w (setrlimit n n), rw good refl, inl (rw good refl))
        | inl bad ↦
            let kept = kept_lem old n s w current e bad in
            elim (Bool-cases (current == maximum)) [
              | inl all ↦ (after w (setrlimit n n), rw (bad, all, e) refl, inr (inl kept))
              | inr some_left ↦
                  let (w', p, q) = set_limit_lem old maximum maximum s (after w (setrlimit n n)) in
                  (w', rw (bad, some_left) (rw kept at p), swap q kept)
            ]
      ]
    where
      swap :
          {x : ℕ} {y : ℕ}
          → (x ≡ maximum) ⊎ (x ≡ y)
          → y ≡ current
          → (x ≡ n) ⊎ (x ≡ current) ⊎ (x ≡ maximum)
      swap (inl a) e = inr (inr a)
      swap (inr b) e = inr (inl (b ∙ e))

  limit_from_lem :
      (old n current maximum : ℕ) (s : S) (w : World)
      → in_force old w.trace ≡ current
      → Set old n current maximum s (limit_from n current maximum s w)
  unfolding limit_from ◌>>=◌
  limit_from_lem old n current maximum s w e = elim (Bool-cases (current == n)) [
    | inl same ↦ (w, rw (same, e) refl, inr (inl e))
    | inr other ↦ elim (Bool-cases (not (maximum == rlim_infinity) && ltb maximum n)) [
      | inl above ↦ rw (other, above) (raise_limit_lem old n current maximum s w e)
      | inr within ↦
          let (w', p, q) = set_limit_lem old n maximum s w in
          rw (other, within) (w', rw e at p, keep q)
    ]
  ]
    where
      keep :
          {x : ℕ} → (x ≡ n) ⊎ (x ≡ in_force old w.trace) → (x ≡ n) ⊎ (x ≡ current) ⊎ (x ≡ maximum)
      keep (inl a) = inl a
      keep (inr b) = inr (inl (b ∙ e))

  -- `set_maximum_files` fails on a negative number and where the limits cannot be read. If not, and
  -- if what `getrlimit` gives is the limit in force, it returns the limit in force after it, as an
  -- `int`, and this is the number asked for, the limit before or the maximum.
  pub set_maximum_files_lem :
      (old n : ℕ) (s : S) (w : World)
      → let r = answer w getrlimit in
        let w1 = after w getrlimit in
        in_force old w1.trace ≡ to_nat r.first
        → (set_maximum_files (negsuc n) s w ≡ done minus_one s w)
          × (((nonzero r.ret ≡ true) × (set_maximum_files (pos n) s w ≡ done minus_one s w1))
              ⊎ ((nonzero r.ret ≡ false)
                  × Set old n (to_nat r.first) (to_nat r.second) s (set_maximum_files (pos n) s w)))
  unfolding set_maximum_files ◌>>=◌
  set_maximum_files_lem old n s w e = (
    refl,
    elim (Bool-cases (nonzero (answer w getrlimit).ret)) [
      | inl bad ↦ inl (bad, rw bad refl)
      | inr good ↦ inr (good, rw good (limit_from_lem old n _ _ s (after w getrlimit) e))
    ],
  )
