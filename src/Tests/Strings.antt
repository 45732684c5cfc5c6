-- ===== src/Tests/Strings.antt =====
-- Applications of the theorems on lists of strings and numbers.
use jail.Base.{
  ℕ, ◌≤◌, ◌<◌, ◌≡◌, ◌≢◌, ◌↔◌, ◌⊎◌, true, false, some, List, [], ◌∷◌, ◌++◌, arith, length, ℤ, pos,
  negsuc, minus_one,
}
use jail.Array.{
  Bytes, Array, initialize, parse, get_size, get_size_from, serialize, get_count, push,
}
use jail.Array.Format.{encode, strings}
use jail.Array.Parse.{Accepted, parse-encode, parse_lem}
use jail.Array.Write.{contents, serialize_lem, parse-serialize, parse-empty_string}
use jail.Array.Push.{IsValid, initialize-IsValid, given, push_lem}
use jail.Environ.{ascii, good_names, permitted}
use jail.Environ.Policy.{AdmittedBy, permitted_iff}
use jail.Utility.{Strtol, atoi32, int32_max, fd_zero, fd_setsize, add_to_set}
use jail.Utility.Numbers.{atoi32_range}
use jail.Utility.Sets.{◌≤ℤ◌, add_to_set_lem}
use jail.Tests.{two, two-IsText, owned}

abbrev fresh : Array ℕ
fresh = record { array = []; count = 0; capacity = 0 }

-- `a`, an empty string, and a byte behind it.
abbrev received : Bytes
received = 97 ∷ 0 ∷ 0 ∷ 7 ∷ []

parse_lem_example :
    Accepted fresh received 4 ⊎ (parse true fresh received 4 ≡ some (minus_one, fresh))
parse_lem_example = parse_lem fresh received 4 (omega arith)

parse-encode_example :
    (a : Array ℕ) × (parse true fresh (encode two ++ (7 ∷ [])) 9
      ≡ some (pos (length (encode two)), a))
    × (a.count ≡ 2)
    × (strings a (encode two ++ (7 ∷ [])) ≡ two)
parse-encode_example =
    parse-encode fresh two (7 ∷ []) 9 two-IsText
      (unfold encode jail.Array.Format.body in omega arith)

serialize_lem_example :
    (get_size owned ≤ 6 → serialize owned 6 ≡ (pos (get_size owned), encode (contents owned)))
    × (6 < get_size owned → (serialize owned 6).0 ≡ minus_one)
    × (length (serialize owned 6).1 ≤ 6)
serialize_lem_example = serialize_lem owned 6

parse-serialize_example :
    let (ret, wire) = serialize owned 8 in
    (a : Array ℕ) × (parse true fresh (wire ++ (7 ∷ [])) 9 ≡ some (ret, a))
    × (get_count a ≡ length (contents owned))
    × (strings a (wire ++ (7 ∷ [])) ≡ contents owned)
parse-serialize_example =
    parse-serialize owned 8 fresh (7 ∷ []) 9 (unfold contents in two-IsText)
      (unfold get_size get_size_from in omega arith) (unfold get_size get_size_from in omega arith)

parse-empty_string_example :
    let wire = encode (two ++ ([] ∷ two)) in
    (a : Array ℕ) × (parse true fresh wire (length wire) ≡ some (pos (length (encode two)), a))
    × (strings a wire ≡ two)
    × (wire ≡ encode two ++ encode two)
parse-empty_string_example = parse-empty_string two two fresh two-IsText

push_lem_example :
    (given true true fresh ≡ true
      → (a : Array ℕ) × (push true true fresh 5 ≡ some (pos 0, a)) × (a.array ≡ 5 ∷ []) × IsValid a)
    × (given true true fresh ≡ false → push true true fresh 5 ≡ some (minus_one, fresh))
push_lem_example = push_lem true true fresh 5 (unfold initialize in initialize-IsValid {P = ℕ})

permitted_iff_example :
    (permitted (ascii "LC_ALL=C") ≡ true) ↔ AdmittedBy (ascii "LC_ALL=C") good_names
permitted_iff_example = permitted_iff (ascii "LC_ALL=C")

-- `strtol` on the text of one number.
abbrev seven : Bytes → Strtol
seven text = record { value = pos 7; end = 1; is_erange = false }

atoi32_range_example :
    (atoi32 seven (some (ascii "7")) ≡ minus_one)
    ⊎ ((text : List ℕ) × (n : ℕ) × (some (ascii "7") ≡ some text)
        × (atoi32 seven (some (ascii "7")) ≡ pos n)
        × (n ≤ int32_max)
        × ((seven text).value ≡ pos n)
        × ((seven text).end ≡ length text)
        × (0 < length text))
atoi32_range_example = atoi32_range seven (some (ascii "7"))

add_to_set_lem_example :
    ((fd : ℕ)
      → fd < fd_setsize
      → let (m, s) = add_to_set minus_one (pos fd) fd_zero in
        (s (pos fd) ≡ true)
        × ((other : ℤ) → other ≢ pos fd → s other ≡ fd_zero other)
        × (minus_one ≤ℤ m)
        × (pos fd ≤ℤ m)
        × ((m ≡ minus_one) ⊎ (m ≡ pos fd)))
    × ((fd : ℕ) → fd_setsize ≤ fd → add_to_set minus_one (pos fd) fd_zero ≡ (minus_one, fd_zero))
    × ((n : ℕ) → add_to_set minus_one (negsuc n) fd_zero ≡ (minus_one, fd_zero))
add_to_set_lem_example = add_to_set_lem minus_one fd_zero
