-- ===== src/Child/Execute/Safety.antt =====
-- The assertions and the bounds of `child_parse` and the handlers that start a program, of
-- server/child.c.
use jail.Base.{
  ◌*◌, ℕ, ◌-◌, ◌^◌, ◌≤◌, ◌<◌, ◌≡◌, Option, none, some, arith, length, length-drop, length-map, drop,
  ℤ, inl, inr,
}
use jail.Posix.{World, ◌>>=◌, malloc, answer}
use jail.Posix.Rules.{Ends, Ends-bind}
use jail.Array
use jail.Array.{Bytes, Array, c_string}
use jail.Array.Format.{strings}
use jail.Array.Parse.{parse_total}
use jail.Message.{Message}
use jail.Buffer.{sub_size}
use jail.Buffer.Contents.{length-slice}
use jail.Child.{Args, Child, nonzero}
use jail.Child.Exec.Safety.{ShellHasSlash}
use jail.Child.Fork.{Channel}
use jail.Child.Fork.Safety.{fork_child-Safe}
use jail.Child.Execute.{
  claimed, resolve, parsed_of, parse_array, parse_env, parse_strings, fork_parsed, execute_fork,
  bytes_from,
}

-- What `child_parse` leaves of one array, at most `size` bytes on.
abbrev Good : ℕ → Option (ℕ × Array Bytes) → Child → World → Type 0
Good size none s w = Unit
Good size (some (ret, a)) s w = (ret ≤ size) × (length a.array ≡ a.count)

parse_array_lem :
    (buffer : Bytes) (size : ℕ) (s : Child) (w : World)
    → size ≤ length buffer
    → Ends (Good size) (parse_array buffer size s w)
unfolding parse_array parsed_of ◌>>=◌ resolve strings
parse_array_lem buffer size s w h =
    elim (parse_total (nonzero (answer w (malloc (8 * claimed buffer size))).ret) Array.initialize
      buffer size h) [
        | inl (ret, a, e, fits, whole) ↦ rw (e, parsed_of, Ends) (fits, whole' a whole)
        | inr (a, e) ↦ rw (e, parsed_of, Ends) tt
      ]
  where
    whole' : (a : Array ℕ) → length a.array ≡ a.count → length (strings a buffer) ≡ a.count
    whole' a whole = omega (arith, whole, length-map a.array (λ o. c_string (drop o buffer)))

abbrev BothGood : Option (Array Bytes × Array Bytes) → Child → World → Type 0
BothGood none s w = Unit
BothGood (some (argv, env)) s w = length env.array ≡ env.count

second_of :
    (argv : Array Bytes) (size : ℕ) (o : Option (ℕ × Array Bytes)) (s : Child) (w : World)
    → Good size o s w
    → BothGood (elim o [ none ↦ none | some (_, env) ↦ some (argv, env) ]) s w
second_of argv size none s w g = tt
second_of argv size (some (ret, env)) s w g = g.1

parse_env_lem :
    (buffer : Bytes) (room : ℕ) (first : Option (ℕ × Array Bytes)) (s : Child) (w : World)
    → room ≤ length buffer
    → room < 2 ^ 64
    → Good room first s w
    → Ends BothGood (parse_env buffer room first s w)
unfolding parse_env ◌>>=◌
parse_env_lem buffer room none s w h k g = tt
parse_env_lem buffer room (some (ret, argv)) s w h k g =
    Ends-bind BothGood (parse_array (drop ret buffer) (sub_size room ret) s w) _
      (parse_array_lem (drop ret buffer) (sub_size room ret) s w
        (omega (arith, length-drop ret buffer)))
      (λ o s' w' good. second_of argv (sub_size room ret) o s' w' good)

Good_mono :
    (a b : ℕ) (o : Option (ℕ × Array Bytes)) (s : Child) (w : World)
    → a ≤ b
    → Good a o s w
    → Good b o s w
Good_mono a b none s w h g = tt
Good_mono a b (some r) s w h g = (omega arith, g.1)

-- The strings of a message begin inside it.
parse_strings_lem :
    (buffer : Bytes) (len offset : ℕ) (s : Child) (w : World)
    → offset < len
    → len < 65536
    → length buffer ≡ len - offset
    → Ends BothGood (parse_strings buffer len offset s w)
unfolding parse_strings ◌>>=◌
parse_strings_lem buffer len offset s w h k e =
    Ends-bind BothGood (parse_array buffer (sub_size (sub_size len offset) 1) s w) _
      (parse_array_lem buffer (sub_size (sub_size len offset) 1) s w (omega arith))
      (λ o s' w' good.
        parse_env_lem buffer (sub_size len offset) o s' w' (omega arith) (omega arith)
          (Good_mono _ _ o s' w' (omega arith) good))

abbrev pub Any : ℤ → Child → World → Type 0
Any ret s w = Unit

module _ (args : Args) (shell : ShellHasSlash args) where
  fork_parsed_lem :
      (channel : Channel) (o : Option (Array Bytes × Array Bytes)) (s : Child) (w : World)
      → BothGood o s w
      → Ends Any (fork_parsed args channel o s w)
  unfolding fork_parsed ◌>>=◌
  fork_parsed_lem channel none s w g = tt
  fork_parsed_lem channel (some (argv, env)) s w g =
      (fork_child-Safe args argv env shell g channel).on s w tt

  pub execute_fork_lem :
      (msg : Message) (offset : ℕ) (channel : Channel) (s : Child) (w : World)
      → offset < msg.length
      → msg.length < 65536
      → Ends Any (execute_fork args msg offset channel s w)
  unfolding execute_fork ◌>>=◌
  execute_fork_lem msg offset channel s w h k =
      Ends-bind Any (parse_strings (bytes_from msg offset) msg.length offset s w) _
        (parse_strings_lem (bytes_from msg offset) msg.length offset s w h k
          (length-slice msg.memory offset (msg.length - offset)))
        (λ o s' w' good. fork_parsed_lem channel o s' w' good)
