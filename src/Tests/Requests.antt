-- ===== src/Tests/Requests.antt =====
-- Applications of the theorems on requests.
use jail.Base.{
  ℕ, ◌+◌, ◌≤◌, ◌<◌, ◌≡◌, refl, none, some, [], ◌++◌, arith, length, drop, if◌then◌else◌, ◌==ℤ◌, pos,
  minus_one,
}
use jail.Posix.{World, done, answer, after, write}
use jail.Array.{Bytes, Array, get_size, get_size_from}
use jail.Array.Format.{encode, body}
use jail.Array.Write.{contents}
use jail.Message.{code, fork_pipe}
use jail.Buffer.Framing.{length_field, type_field}
use jail.Child.Execute.{parse_strings}
use jail.Client.Prepare.{serialize_both, prepare, execute_plain}
use jail.Client.Prepare.RoundTrip.{GivesMemory, serialize_both_lem, request_round_trip}
use jail.Client.Prepare.Request.{permitted_only, prepare_lem}
use jail.Client.Prepare.EndToEnd.{request_arrives}
use jail.Tests.{two, two-IsText, owned, machine, world}
use jail.Tests.Processes.{child, client}

gives : GivesMemory (machine [])
gives = record { gives = λ t size. refl }

request_round_trip_example :
    (n : ℕ) × (wire : Bytes) × (argv env : Array Bytes) × (w : World) × (serialize_both owned owned
        8192 4
      ≡ some (n, wire))
    × (n ≡ 4 + length wire)
    × (n ≤ 8192)
    × (parse_strings wire n 4 child (world []) ≡ done (some (argv, env)) child w)
    × (argv.array ≡ contents owned)
    × (env.array ≡ contents owned)
request_round_trip_example =
    request_round_trip owned owned 8192 4 child (world []) gives (unfold contents in two-IsText)
      (unfold contents in two-IsText) (omega arith) (unfold get_size get_size_from in omega arith)

serialize_both_lem_example :
    (4 + get_size owned + get_size owned ≤ 12
      → serialize_both owned owned 12 4
        ≡ some (
          4 + get_size owned + get_size owned,
          encode (contents owned) ++ encode (contents owned),
        ))
    × (12 < 4 + get_size owned + get_size owned → serialize_both owned owned 12 4 ≡ none)
serialize_both_lem_example = serialize_both_lem owned owned 12 4 (omega arith) (omega arith)

prepare_lem_example :
    (a e : Array Bytes) × (w : World) × (prepare 8192 4 client (world [])
      ≡ done (serialize_both a e 8192 4) client w)
    × (contents a ≡ two)
    × (contents e ≡ permitted_only [])
prepare_lem_example = prepare_lem client (world []) 8192 4 gives

request_arrives_example :
    (m : Bytes) × (w : World) × (argv env : Array Bytes) × (v : World) × (execute_plain fork_pipe
        (pos 5)
        client
        (world [])
      ≡ done
          (if (answer w (write (pos 5) m)).ret ==ℤ pos (length m) then pos 0 else minus_one)
          client
          (after w (write (pos 5) m)))
    × (length_field m ≡ length m)
    × (type_field m ≡ code fork_pipe)
    × (parse_strings (drop 4 m) (length m) 4 child (world []) ≡ done (some (argv, env)) child v)
    × (argv.array ≡ two)
    × (env.array ≡ permitted_only [])
request_arrives_example =
    request_arrives fork_pipe (pos 5) client (world []) child (world []) gives gives two-IsText tt
      (unfold encode body in omega arith)
