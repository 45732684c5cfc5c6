-- ===== src/Client/Prepare/RoundTrip.antt =====
-- The serialised request: `client_prepare` of client/jail.c against `child_parse` of
-- server/child.c.
use jail.Base.{
  ◌*◌, ℕ, ◌+◌, ◌^◌, ◌≤◌, ◌<◌, ◌≡◌, refl, ◌∙◌, true, none, some, List, [], ◌++◌, arith, length, All,
  ℤ, pos, negsuc, minus_one, drop, drop-append, length-append, append-nil,
}
use native.Mathlib.Decide.{dec_lt}
use jail.Posix.{World, done, ◌>>=◌, malloc, Call, Reply, after}
use jail.Array
use jail.Array.{Bytes, Array, get_size, serialize}
use jail.Array.Format.{IsText, encode, length-encode}
use jail.Array.Parse.{parse-encode}
use jail.Array.Write.{contents, get_size_lem, serialize_lem}
use jail.Buffer.{sub_size}
use jail.Child.{Child, nonzero}
use jail.Child.Execute.{claimed, resolve, parse_array, parsed_of, parse_env, parse_strings}
use jail.Client.Prepare.{serialize_both, argv_stored, both_stored}

-- `malloc` gives memory.
pub record GivesMemory (kernel : ℕ → Call → Reply) : Type 0 where
  pub gives : (t size : ℕ) → nonzero (kernel t (malloc size)).ret ≡ true

argv_fails :
    (env : Array Bytes) (room offset : ℕ) (r : ℤ × Bytes)
    → r.0 ≡ minus_one
    → argv_stored env room offset r ≡ none
unfolding argv_stored
argv_fails env room offset (negsuc n, first) e = refl
argv_fails env room offset (pos n, first) e = cc

env_fails :
    (offset la : ℕ) (first : Bytes) (r : ℤ × Bytes)
    → r.0 ≡ minus_one
    → both_stored offset la first r ≡ none
unfolding both_stored
env_fails offset la first (negsuc n, second) e = refl
env_fails offset la first (pos n, second) e = cc

argv_fits :
    (argv env : Array Bytes) (room offset : ℕ)
    → 0 < room
    → room < 2 ^ 64
    → get_size argv < room
    → argv_stored env room offset (serialize argv (sub_size room 1))
      ≡ both_stored offset
          (get_size argv)
          (encode (contents argv))
          (serialize env (sub_size room (get_size argv)))
unfolding argv_stored
argv_fits argv env room offset z h f = rw ((serialize_lem argv (sub_size room 1)).0 (omega arith))

size_pos : (a : Array Bytes) → 0 < get_size a
size_pos a = omega (arith, get_size_lem a, length-encode (contents a))

-- The two lists are serialised, one behind the other, exactly if they fit, for a room of less than
-- 2^64 bytes and an offset inside it.
pub serialize_both_lem :
    (argv env : Array Bytes) (len offset : ℕ)
    → len < 2 ^ 64
    → offset < len
    → (offset + get_size argv + get_size env ≤ len
        → serialize_both argv env len offset
          ≡ some (
            offset + get_size argv + get_size env,
            encode (contents argv) ++ encode (contents env),
          ))
      × (len < offset + get_size argv + get_size env → serialize_both argv env len offset ≡ none)
unfolding serialize_both
serialize_both_lem argv env len offset h k = (
  λ fits.
      argv_fits argv env room offset (omega arith) (omega arith) (omega (arith, size_pos env))
      ∙ unfold both_stored in
        rw ((serialize_lem env (sub_size room (get_size argv))).0 (omega arith)),
  λ over. elim (dec_lt (get_size argv) room) [
    | yes some_room ↦
        argv_fits argv env room offset (omega arith) (omega arith) some_room
        ∙ env_fails offset (get_size argv) (encode (contents argv)) _
            ((serialize_lem env (sub_size room (get_size argv))).1 (omega arith))
    | no full ↦
        argv_fails env room offset _ ((serialize_lem argv (sub_size room 1)).1 (omega arith))
  ],
)
  where
    room : ℕ
    room = sub_size len offset

parse_array-encode :
    (xs : List Bytes) (rest : Bytes) (size : ℕ) (s : Child) (w : World)
    → GivesMemory w.kernel
    → All IsText xs
    → length (encode xs) ≤ size
    → (a : Array Bytes) × (parse_array (encode xs ++ rest) size s w
        ≡ done
            (some (length (encode xs), a))
            s
            (after w (malloc (8 * claimed (encode xs ++ rest) size))))
      × (a.array ≡ xs)
      × (a.count ≡ length xs)
unfolding parse_array parsed_of ◌>>=◌ resolve
parse_array-encode xs rest size s w m t h =
    let (a, p, c, q) = parse-encode Array.initialize xs rest size t h in
    (
      resolve a (encode xs ++ rest),
      rw (m.gives w.now (8 * claimed (encode xs ++ rest) size), p, parsed_of) refl,
      q,
      c,
    )

parse_env-encode :
    (ys : List Bytes) (wire : Bytes) (room ret : ℕ) (a : Array Bytes) (s : Child) (w : World)
    → GivesMemory w.kernel
    → All IsText ys
    → drop ret wire ≡ encode ys
    → length (encode ys) ≤ sub_size room ret
    → (e : Array Bytes) × (w' : World) × (parse_env wire room (some (ret, a)) s w
        ≡ done (some (a, e)) s w')
      × (e.array ≡ ys)
unfolding parse_env ◌>>=◌
parse_env-encode ys wire room ret a s w m t d h =
    let (e, p, q, _) = parse_array-encode ys [] (sub_size room ret) s w m t h in
    let p' = rw append-nil at p in
    (e, after w (malloc (8 * claimed (encode ys) (sub_size room ret))), rw (d, p') refl, q)

parse_strings-encode :
    (xs ys : List Bytes) (n offset : ℕ) (s : Child) (w : World)
    → GivesMemory w.kernel
    → All IsText xs
    → All IsText ys
    → n < 2 ^ 64
    → n ≡ offset + length (encode xs ++ encode ys)
    → (a e : Array Bytes) × (w' : World) × (parse_strings (encode xs ++ encode ys) n offset s w
        ≡ done (some (a, e)) s w')
      × (a.array ≡ xs)
      × (e.array ≡ ys)
unfolding parse_strings ◌>>=◌
parse_strings-encode xs ys n offset s w m tx ty h len =
    let (a, p, q, _) =
      parse_array-encode xs (encode ys) size s w m tx
        (omega (arith, length-append (encode xs) (encode ys), length-encode ys)) in
    let (e, w', p', q') =
      parse_env-encode ys (encode xs ++ encode ys) (sub_size n offset) (length (encode xs)) a s
        (after w (malloc (8 * claimed (encode xs ++ encode ys) size))) (record { gives = m.gives })
        ty (drop-append (encode xs) (encode ys))
        (omega (arith, length-append (encode xs) (encode ys))) in
    (a, e, w', rw (p, p') refl, q, q')
  where
    size : ℕ
    size = sub_size (sub_size n offset) 1

-- If memory is given, what the client stores for the two lists, if it fits into a message of at most `len` bytes and
-- no string is empty or holds a zero byte, for `len` below 2^64, is a request of the length that the client announces,
-- and `child_parse` reads the same two lists back from it.
pub request_round_trip :
    (argv env : Array Bytes) (len offset : ℕ) (s : Child) (w : World)
    → GivesMemory w.kernel
    → All IsText (contents argv)
    → All IsText (contents env)
    → len < 2 ^ 64
    → offset + get_size argv + get_size env ≤ len
    → (n : ℕ) × (wire : Bytes) × (argv' env' : Array Bytes) × (w' : World) × (serialize_both argv
          env len offset
        ≡ some (n, wire))
      × (n ≡ offset + length wire)
      × (n ≤ len)
      × (parse_strings wire n offset s w ≡ done (some (argv', env')) s w')
      × (argv'.array ≡ contents argv)
      × (env'.array ≡ contents env)
request_round_trip argv env len offset s w m ta te h fits =
    let (a, e, w', p, q, q') = parse_strings-encode xs ys n offset s w m ta te (omega arith) size in
    (
      n,
      encode xs ++ encode ys,
      a,
      e,
      w',
      (serialize_both_lem argv env len offset h (omega (arith, size_pos argv))).0 fits,
      size,
      fits,
      p,
      q,
      q',
    )
  where
    xs : List Bytes
    xs = contents argv

    ys : List Bytes
    ys = contents env

    n : ℕ
    n = offset + get_size argv + get_size env

    size : n ≡ offset + length (encode xs ++ encode ys)
    size = omega (arith, get_size_lem argv, get_size_lem env, length-append (encode xs) (encode ys))
