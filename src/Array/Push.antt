-- ===== src/Array/Push.antt =====
-- `array_push` of common/array.c on the representation of an array.
use jail.Base.{
  ℕ, zero, suc, ◌+◌, ◌≤◌, ◌≡◌, refl, ap, Bool, true, false, ◌&&◌, ◌||◌, not, ◌==◌, if◌then◌else◌,
  some, List, [], ◌∷◌, ◌++◌, arith, length, length-append, take, pos, minus_one,
}
use jail.Array.{Array, initialize, push, store_last, grown}

-- The slots in use are those counted, and there is room for them.
pub record IsValid {P : Type 0} (a : Array P) : Type 0 where
  pub filled : length a.array ≡ a.count
  pub within : a.count ≤ a.capacity

module _ {P : Type 0} where
  pub initialize-IsValid : IsValid (initialize {P = P})
  unfolding initialize
  initialize-IsValid = omega arith

  pub take_all : (xs : List P) (n : ℕ) → length xs ≤ n → take n xs ≡ xs
  take_all [] zero h = refl
  take_all [] (suc n) h = refl
  take_all (x ∷ xs) zero h = absurd (omega arith)
  take_all (x ∷ xs) (suc n) h = ap (λ t. x ∷ t) (take_all xs n (omega arith))

  -- Whether `array_push` gets the memory that it asks for.
  pub given : Bool → Bool → Array P → Bool
  given dup grow a = dup && (not (a.count == a.capacity) || grow)

  -- On a valid array `array_push` never writes past the allocated slots. If it is given the memory
  -- that it asks for, it returns 0, the string stands behind the others, and the array is valid;
  -- if not, it returns -1 and the array is unchanged.
  pub push_lem :
      (dup grow : Bool) (a : Array P) (str : P)
      → IsValid a
      → (given dup grow a ≡ true
          → (a' : Array P) × (push dup grow a str ≡ some (pos 0, a'))
            × (a'.array ≡ a.array ++ (str ∷ []))
            × IsValid a')
        × (given dup grow a ≡ false → push dup grow a str ≡ some (minus_one, a))
  unfolding push store_last given
  push_lem dup grow a str v = (
    λ g.
        let c = if a.count == a.capacity then grown a.count else a.capacity in
        (
          record { array = a.array ++ (str ∷ []); count = a.count + 1; capacity = c },
          unfold grown in ground (arith, take_all a.array a.count),
          refl,
          unfold grown in ground (arith, length-append a.array (str ∷ [])),
        ),
    λ g. ground arith,
  )

  -- The same with all memory given.
  pub push-given :
      (a : Array P) (str : P)
      → IsValid a
      → (a' : Array P) × (push true true a str ≡ some (pos 0, a'))
        × (a'.array ≡ a.array ++ (str ∷ []))
        × IsValid a'
  unfolding given
  push-given a str v = (push_lem true true a str v).0 (ground arith)
