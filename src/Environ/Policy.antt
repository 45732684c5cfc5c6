-- ===== src/Environ/Policy.antt =====
-- The entries that the table of common/environ.c is meant to let through, against
-- `environ_permitted`.
use jail.Base.{
  ◌↔◌, ℕ, ◌≡◌, refl, ap, ap₂, ◌⊎◌, inl, inr, true, List, [], ◌∷◌, ◌++◌, arith, length, eqb→eq,
}
use jail.Environ.{Good, good_names, same_bytes, is_equals_at, permitted_by, permitted}

-- `env` is an entry for the pattern `p`: `NAME=value`, or anything that begins with the prefix.
pub data Admits (p : Good) (env : List ℕ) : Type 0 where
  exact : (value : List ℕ) → env ≡ p.what ++ (b'=' ∷ value) → Admits p env
  family : (rest : List ℕ) → p.prefix ≡ true → env ≡ p.what ++ rest → Admits p env

-- Some pattern of the list admits `env`.
pub data AdmittedBy (env : List ℕ) : List Good → Type 0 where
  here : {p : Good} {good : List Good} → Admits p env → AdmittedBy env (p ∷ good)
  later : {p : Good} {good : List Good} → AdmittedBy env good → AdmittedBy env (p ∷ good)

same_bytes-append : (what rest : List ℕ) → same_bytes (what ++ rest) what ≡ true
unfolding same_bytes
same_bytes-append [] rest = refl
same_bytes-append (w ∷ what) rest = ground (arith, same_bytes-append what rest)

same_bytes_split :
    (env what : List ℕ) → same_bytes env what ≡ true → (rest : List ℕ) × (env ≡ what ++ rest)
unfolding same_bytes
same_bytes_split env [] h = (env, refl)
same_bytes_split [] (w ∷ what) h = absurd (cc)
same_bytes_split (e ∷ env) (w ∷ what) h =
    let (rest, q) = same_bytes_split env what (ground arith) in (rest, ap₂ ◌∷◌ (ground arith) q)

equals_at-append :
    (what value : List ℕ) → is_equals_at (what ++ (b'=' ∷ value)) (length what) ≡ true
unfolding is_equals_at
equals_at-append [] value = refl
equals_at-append (w ∷ what) value = equals_at-append what value

equals_at_split :
    (what rest : List ℕ)
    → is_equals_at (what ++ rest) (length what) ≡ true
    → (value : List ℕ) × (rest ≡ b'=' ∷ value)
unfolding is_equals_at
equals_at_split [] [] h = absurd (cc)
equals_at_split [] (c ∷ rest) h = (rest, ap (λ k. k ∷ rest) (eqb→eq c b'=' h))
equals_at_split (w ∷ what) rest h = equals_at_split what rest h

permitted_by_complete :
    {env : List ℕ} {good : List Good} → AdmittedBy env good → permitted_by good env ≡ true
unfolding permitted_by
permitted_by_complete (here {p = p} (exact value e)) =
    rw e (ground (arith, same_bytes-append p.what (b'=' ∷ value), equals_at-append p.what value))
permitted_by_complete (here {p = p} (family rest f e)) =
    rw e (ground (arith, same_bytes-append p.what rest))
permitted_by_complete (later a) = ground (arith, permitted_by_complete a)

admit_cases :
    (p : Good) (env : List ℕ)
    → same_bytes env p.what ≡ true
    → (p.prefix ≡ true) ⊎ (is_equals_at env (length p.what) ≡ true)
    → Admits p env
admit_cases p env s (inl f) = let (rest, e) = same_bytes_split env p.what s in family rest f e
admit_cases p env s (inr q) =
    let (rest, e) = same_bytes_split env p.what s in
    let (value, v) = equals_at_split p.what rest (rw e at q) in exact value (rw (← v) e)

permitted_by_cases :
    (p : Good) (good : List Good) (env : List ℕ)
    → permitted_by (p ∷ good) env ≡ true
    → ((same_bytes env p.what ≡ true)
        × ((p.prefix ≡ true) ⊎ (is_equals_at env (length p.what) ≡ true)))
      ⊎ (permitted_by good env ≡ true)
unfolding permitted_by
permitted_by_cases p good env h = ground arith

permitted_by_sound :
    (good : List Good) (env : List ℕ) → permitted_by good env ≡ true → AdmittedBy env good
unfolding permitted_by
permitted_by_sound [] env h = absurd (cc)
permitted_by_sound (p ∷ good) env h = elim (permitted_by_cases p good env h) [
  | inl (s, why) ↦ here (admit_cases p env s why)
  | inr found ↦ later (permitted_by_sound good env found)
]

-- `environ_permitted` is 1 exactly on the entries that some pattern of the table admits.
pub permitted_iff : (env : List ℕ) → (permitted env ≡ true) ↔ AdmittedBy env good_names
unfolding permitted
permitted_iff env = (permitted_by_sound good_names env, λ a. permitted_by_complete a)
