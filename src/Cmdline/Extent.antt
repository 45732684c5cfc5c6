-- ===== src/Cmdline/Extent.antt =====
-- `cmdline_setup` of common/cmdline.c: the length of the area for the title.
use jail.Base.{ℕ, ◌+◌, ◌≡◌, Bool, true, false, Option, none, some, List, [], ◌∷◌, length, take, ◌⊎◌}
use jail.Array.{Bytes}
use jail.Cmdline.{Title, Text, Setup, ready, environ_count}

-- The bytes of strings with their terminators.
abbrev pub total : List Text → ℕ
total [] = 0
total (x ∷ xs) = length x.bytes + 1 + total xs

-- The byte behind the terminator.
abbrev pub end_of : Text → ℕ
end_of x = x.address + length x.bytes + 1

-- Memory was refused some time.
abbrev pub Refused : (ℕ → Bool) → Type 0
Refused malloc = (k : ℕ) × (malloc k ≡ false)

-- The copies of the strings, in their order; where memory is refused one may be the null pointer.
abbrev pub Copies : (ℕ → Bool) → List Text → List (Option Bytes) → Type 0
Copies malloc [] [] = Unit
Copies malloc (x ∷ xs) (copy ∷ copies) =
    ((copy ≡ some x.bytes) ⊎ ((copy ≡ none) × Refused malloc)) × Copies malloc xs copies
Copies malloc _ _ = ⊥

-- What a title with room for strings comes to: the copies of the arguments, and of the strings of
-- the environment that the title takes; it takes none where there are none or memory was refused.
abbrev pub Fits : (ℕ → Bool) → Text → List Text → List Text → Option Setup → Type 0
Fits malloc first others env r =
    let e = environ_count first others env in
    (t : Title) × (copies : List (Option Bytes)) × (copied : Option (List (Option Bytes))) × (r
      ≡ some (ready t copies copied))
    × (t.is_named ≡ true)
    × Copies malloc (first ∷ others) copies
    × (((e ≡ 0) × (copied ≡ none) × (t.max_length + 1 ≡ total (first ∷ others)))
        ⊎ (Refused malloc × (copied ≡ none) × (t.max_length ≡ length first.bytes))
        ⊎ ((cs : List (Option Bytes)) × (copied ≡ some cs)
            × Copies malloc (take e env) cs
            × (t.max_length + 1 ≡ total (first ∷ others) + total (take e env))))
