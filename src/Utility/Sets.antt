-- ===== src/Utility/Sets.antt =====
-- The effect of `add_to_set` of common/utility.c.
use jail.Base.{
  ap, inl, inr, ◌⊎◌, Bool-cases, ltb, eq→eqb, ne→eqb, lt→leb, ℕ, ◌<◌, ◌≤◌, ◌≡◌, ◌≢◌, refl, true,
  false, arith, ℤ, pos, negsuc, ◌==ℤ◌,
}
use jail.Utility.{FdSet, fd_set, fd_setsize, add_to_set, max_of}

-- `a ≤ b` on descriptors.
infix 50 ◌≤ℤ◌
abbrev pub ◌≤ℤ◌ : ℤ → ℤ → Type 0
◌≤ℤ◌ (pos a) (pos b) = a ≤ b
◌≤ℤ◌ (pos a) (negsuc b) = ⊥
◌≤ℤ◌ (negsuc a) (pos b) = Unit
◌≤ℤ◌ (negsuc a) (negsuc b) = b ≤ a

max_of_lem :
    (m : ℤ) (fd : ℕ)
    → (m ≤ℤ max_of m fd) × (pos fd ≤ℤ max_of m fd) × ((max_of m fd ≡ m) ⊎ (max_of m fd ≡ pos fd))
max_of_lem (pos m) fd = elim (Bool-cases (ltb m fd)) [
  | inl h ↦ rw h (ground arith, ground arith, inr refl)
  | inr h ↦ rw h (ground arith, ground arith, inl refl)
]
max_of_lem (negsuc m) fd = (tt, omega arith, inr refl)

ne→eqbℤ : (x y : ℤ) → x ≢ y → (x ==ℤ y) ≡ false
ne→eqbℤ (pos a) (pos b) h = ne→eqb a b (λ e. h (ap pos e))
ne→eqbℤ (negsuc a) (negsuc b) h = ne→eqb a b (λ e. h (ap negsuc e))
ne→eqbℤ (pos a) (negsuc b) h = refl
ne→eqbℤ (negsuc a) (pos b) h = refl

fd_set_lem : (fd : ℕ) (set : FdSet) → fd_set (pos fd) set (pos fd) ≡ true
fd_set_lem fd set = rw (eq→eqb fd fd refl) refl

in_range :
    (max_fd : ℤ) (set : FdSet) (fd : ℕ)
    → fd < fd_setsize
    → let (m, s) = add_to_set max_fd (pos fd) set in
      (s (pos fd) ≡ true)
      × ((other : ℤ) → other ≢ pos fd → s other ≡ set other)
      × (max_fd ≤ℤ m)
      × (pos fd ≤ℤ m)
      × ((m ≡ max_fd) ⊎ (m ≡ pos fd))
unfolding add_to_set
in_range max_fd set fd h =
    let (above, reached, one_of) = max_of_lem max_fd fd in
    rw (lt→leb fd_setsize fd h)
      (fd_set_lem fd set, λ other ne. rw (ne→eqbℤ other (pos fd) ne) refl, above, reached, one_of)

-- `add_to_set` with a descriptor that a set can hold puts exactly that one into the set, and the
-- result is the larger of the two numbers; a negative descriptor or one from `FD_SETSIZE` on
-- changes nothing.
pub add_to_set_lem :
    (max_fd : ℤ) (set : FdSet)
    → ((fd : ℕ)
        → fd < fd_setsize
        → let (m, s) = add_to_set max_fd (pos fd) set in
          (s (pos fd) ≡ true)
          × ((other : ℤ) → other ≢ pos fd → s other ≡ set other)
          × (max_fd ≤ℤ m)
          × (pos fd ≤ℤ m)
          × ((m ≡ max_fd) ⊎ (m ≡ pos fd)))
      × ((fd : ℕ) → fd_setsize ≤ fd → add_to_set max_fd (pos fd) set ≡ (max_fd, set))
      × ((n : ℕ) → add_to_set max_fd (negsuc n) set ≡ (max_fd, set))
unfolding add_to_set
add_to_set_lem max_fd set = (λ fd h. in_range max_fd set fd h, λ fd h. ground arith, λ n. refl)
