-- ===== src/Tests/Processes.antt =====
-- Applications of the theorems on the two programs.
use jail.Base.{
  ℕ, suc, ◌-◌, ◌^◌, ◌≡◌, refl, true, false, none, some, List, [], ◌∷◌, ◌||◌, length, drop, arith,
  if◌then◌else◌, ◌==ℤ◌, is_neg, is_zero, pos, minus_one,
}
use jail.Posix.{World, done, answer, after, close, write}
use jail.Posix.Rules.{Ends, Safe}
use jail.Array.{Bytes, Array, get_size, get_size_from}
use jail.Message.{Abi, code}
use jail.Buffer.Drain
use jail.Buffer.Drain.Safety.{Processed}
use jail.Buffer.Framing.{length_field, type_field}
use jail.Environ.{ascii}
use jail.Utility.{Strtol, atoi32}
use jail.Child.{Args, Child, get_shell}
use jail.Child.{drop_privileges}
use jail.Child.Privileges.{Succeeds, drop_privileges_lem}
use jail.Posix.{geteuid, setgroups, setgid, setuid}
use jail.Base.{◌⊎◌}
use jail.Child.Exec.{after_last_slash}
use jail.Child.Exec.Safety.{ShellHasSlash}
use jail.Child.Fork.{pipes, fork_child}
use jail.Child.Fork.Safety.{fork_child-Safe}
use jail.Child.Execute.{execute}
use jail.Child.Execute.Total.{child_process_remote_lem}
use jail.Child.Loop.{out, fd_of, close_stream, type_of, process_output, run}
use jail.Child.Loop.Output.{output_read, process_output_lem}
use jail.Child.Loop.Timeout.{Working, Tells, stop_timer, run_lem}
use jail.Child.{nonzero}
use jail.Client.{Client}
use jail.Client.Remote.{process_remote}
use jail.Client.Remote.Safety.{client_process_remote_lem}
use jail.Server.Args.{
  Settings, Given, uid, parsed, parse_args, socket_prefix, defaults, check, parse_options,
}
use jail.Server.Args.Ids.{Checked, parse_args-Checked, bad_uid_accepted}
use jail.Tests.{two, machine-ReadFits, world}
use jail.Tests.Buffers.{six}

abbrev pub args : Args
args = record { uid = 1000; gid = 1000; name = none; shell = some (ascii "/bin/sh") }

args-ShellHasSlash : ShellHasSlash args
args-ShellHasSlash pwd = (ascii "sh", unfold get_shell after_last_slash in refl)

abbrev pub child : Child
child = record {
  remote = pos 5;
  pid = pos 77;
  pty = false;
  stdin = pos 6;
  stdout = pos 7;
  stderr = minus_one;
  handshaking = true;
  sigalrm = true;
  sigchld = false;
}

abbrev pub client : Client
client = record {
  argv = two;
  environ = [];
  tty = false;
  pipe = false;
  status = [];
  termp = [];
  sigterm = false;
  sigwinch = false;
  restores = false;
}

abbrev pub abi : Abi
abi = record { sizeof_winsize = 8; sizeof_termios = 60 }

-- A message of input with two bytes.
abbrev input : Bytes
input = 4 ∷ 0 ∷ 6 ∷ 0 ∷ 104 ∷ 105 ∷ []

child_process_remote_lem_example :
    Ends Processed (Drain.process_remote (execute abi args) (pos 5) six child (world input))
child_process_remote_lem_example =
    child_process_remote_lem abi args args-ShellHasSlash (pos 5) six child (world input)
      (machine-ReadFits input) (omega arith)

client_process_remote_lem_example : Ends Processed (process_remote (pos 5) six client (world input))
client_process_remote_lem_example =
    client_process_remote_lem (pos 5) six client (world input) (machine-ReadFits input)
      (omega arith)

process_output_lem_example :
    let w = world (104 ∷ 105 ∷ []) in
    let r = answer w (output_read out child) in
    let w1 = after w (output_read out child) in
    ((is_neg r.ret || is_zero r.ret) ≡ true
      → process_output (pos 5) out child w
        ≡ done (pos 0) (close_stream out child) (after w1 (close (fd_of out child))))
    × ((n : ℕ)
        → r.ret ≡ pos (suc n)
        → (m : List ℕ) × (process_output (pos 5) out child w
            ≡ done
                (if (answer w1 (write (pos 5) m)).ret ==ℤ pos (length m) then pos 0 else minus_one)
                child
                (after w1 (write (pos 5) m)))
          × (length_field m ≡ length m)
          × (type_field m ≡ code (type_of out))
          × (drop 4 m ≡ r.bytes))
process_output_lem_example =
    process_output_lem (pos 5) out child (world (104 ∷ 105 ∷ []))
      (machine-ReadFits (104 ∷ 105 ∷ []))

run_lem_example :
    (true ≡ false → Tells (Working child) child (world []) (run child (world [])))
    × (true ≡ true
        → true ≡ false
        → Tells ((is_neg (pos 77) ≡ false) × Working child) child (world []) (run child (world [])))
    × (true ≡ true
        → true ≡ true
        → Tells
            ((nonzero (answer (world []) stop_timer).ret ≡ false)
              × ((is_neg (pos 77) ≡ false) × Working child))
            (record child { handshaking = false })
            (after (world []) stop_timer)
            (run child (world [])))
run_lem_example = run_lem child (world [])

none_passed : Array Bytes
none_passed = record { array = []; count = 0; capacity = 0 }

fork_child-Safe_example : Safe (fork_child args pipes none_passed none_passed)
unfolding none_passed
fork_child-Safe_example = fork_child-Safe args none_passed none_passed args-ShellHasSlash refl pipes

-- `strtol` that finds no number.
abbrev nothing : Bytes → Strtol
nothing text = record { value = pos 0; end = 0; is_erange = false }

abbrev given : Given
given = record {
  euid = 1000;
  egid = 100;
  left_over = false;
  strtol = nothing;
  format = λ prefix u g. prefix;
  strdup = true;
  realloc = true;
}

bad_uid_accepted_example :
    (s : Settings) × (parse_args given (uid (ascii "x") ∷ []) ≡ parsed s)
    × (s.uid ≡ 2 ^ 32 - 1)
    × (s.gid ≡ 100)
bad_uid_accepted_example =
    bad_uid_accepted given (ascii "x") (unfold atoi32 in refl) refl (omega arith) (omega arith) refl

abbrev pub plain : Settings
plain = record {
  name = none;
  shell = none;
  uid = 1000;
  gid = 100;
  root = none;
  socket = socket_prefix;
  mounts = record { array = []; count = 0; capacity = 0 };
  daemon = true;
}

plain_accepted : parse_args given [] ≡ parsed plain
unfolding parse_args parse_options check defaults jail.Array.initialize
plain_accepted = refl

parse_args-Checked_example : Checked given plain
parse_args-Checked_example = parse_args-Checked given [] plain plain_accepted

drop_privileges_lem_example :
    let w = world [] in
    let w1 = after w geteuid in
    let w2 = after w1 (setgroups 1000) in
    let w3 = after w2 (setgid 1000) in
    let w4 = after w3 (setuid 1000) in
    (¬ Succeeds w geteuid × (drop_privileges args child w ≡ done (pos 0) child w1))
    ⊎ (Succeeds w geteuid
        × ((failed : World) × (drop_privileges args child w ≡ done minus_one child failed)))
    ⊎ (Succeeds w geteuid
        × Succeeds w1 (setgroups 1000)
        × Succeeds w2 (setgid 1000)
        × Succeeds w3 (setuid 1000)
        × (drop_privileges args child w ≡ done (pos 0) child w4))
drop_privileges_lem_example = drop_privileges_lem args child (world [])
