-- ===== src/Tests/Servers.antt =====
-- Applications of the theorems on the server, on its helpers and on the client's `main`.
use jail.Base.{ℕ, ◌≡◌, ◌⊎◌, refl, inr, true, false, some, [], ◌∷◌, arith, pos, negsuc, minus_one}
use jail.Posix.{
  World, Reply, Call, done, after, Libc, get_flags, getrlimit, pselect, accept, fork, waitpid,
  isatty, get_attributes, bind, open_socket,
}
use jail.Posix.Rules.{Ends}
use jail.Array.{Bytes}
use jail.Environ.{ascii}
use jail.Utility.{fd_zero}
use jail.Utility.Files.{set_non_blocking_mode, set_blocking_mode, set_maximum_files}
use jail.Utility.Files.Flags.{Changed, modes_lem}
use jail.Utility.Files.Limit.{Set, set_maximum_files_lem}
use jail.Server.{Server}
use jail.Server.Args.{Settings}
use jail.Server.Socket.{start}
use jail.Server.Socket.Ledger.{Started, start_lem}
use jail.Server.Loop.{loop}
use jail.Server.Loop.Descriptors.{Served, loop_lem}
use jail.Server.Mounts.{bind_mount}
use jail.Server.Mounts.{daemonize_third}
use jail.Server.Mounts.Plan.{plan, planned}
use jail.Server.Mounts.Container.{daemonize_third_lem}
use jail.Server.Mounts.Bind.{Names, IsNamed, mounted, bind_mount_lem}
use jail.Server.Main.{Rounds, babysit}
use jail.Server.Main.Waiting.{IsExited, babysit-IsExited}
use jail.Server.Main.Cleanup.{Guarded, babysit_lem}
use jail.Client.Main as ClientMain
use jail.Client.Main.Restored.{Finished}
use jail.Client.Main.Exit.{main_lem}
use jail.Client.Main.Initial.{Leaves, no_status}
use jail.Client.Remote.{dispatch}
use jail.Client.Remote.Status.{Reports}
use jail.Client.{Client}
use jail.Message.{Message}
use jail.Tests.{reply, world}
use jail.Tests.Processes.{abi, client, plain}

abbrev server : Server
server = record { sigchld = true; sigterm = false; clone = false }

abbrev libc : Libc
libc = record {
  is_exited = λ status. true;
  exit_status = λ status. 7;
  is_socket = λ mode. true;
  is_fifo = λ mode. false;
  make_raw = λ attributes. 9 ∷ attributes;
  format = λ prefix u g. prefix;
}

-- Connections come, children end, and the input is a terminal.
abbrev busy : ℕ → Call → Reply
busy t (pselect n fds) = reply (pos 1) []
busy t (accept s) = reply (pos 9) []
busy t fork = reply (pos 20) []
busy t (isatty fd) = reply (pos 1) []
busy t (get_attributes fd) = reply (pos 0) (1 ∷ 2 ∷ [])
busy t _ = reply (pos 0) []

abbrev busy_world : World
busy_world = record { kernel = busy; now = 0; trace = [] }

-- The server ends.
abbrev ending : ℕ → Call → Reply
ending t waitpid = reply (pos 20) (0 ∷ 7 ∷ 0 ∷ 0 ∷ [])
ending t _ = reply (pos 0) []

abbrev ending_world : World
ending_world = record { kernel = ending; now = 0; trace = [] }

abbrev few : Rounds
few = record { rounds = 3; fuel = 1 }

modes_lem_example :
    Changed
      (pos 7)
      true
      (pos 0)
      server
      (after (world []) (get_flags (pos 7)))
      (set_non_blocking_mode (pos 7) server (world []))
    × Changed
        (pos 7)
        false
        (pos 0)
        server
        (after (world []) (get_flags (pos 7)))
        (set_blocking_mode (pos 7) server (world []))
modes_lem_example = modes_lem (pos 7) server (world [])

set_maximum_files_lem_example :
    let w = world [] in
    (set_maximum_files (negsuc 9) server w ≡ done minus_one server w)
    × (((false ≡ true)
          × (set_maximum_files (pos 9) server w ≡ done minus_one server (after w getrlimit)))
        ⊎ ((false ≡ false) × Set 3 9 3 4 server (set_maximum_files (pos 9) server w)))
set_maximum_files_lem_example = set_maximum_files_lem 3 9 server (world []) refl

start_lem_example :
    Ends (Started (ascii "/tmp/s") []) (start plain (ascii "/tmp/s") server (world []))
start_lem_example = start_lem [] plain (ascii "/tmp/s") server (world []) (omega arith) (refl, refl)

loop_lem_example : Ends (Served (ascii "/tmp/s") (pos 5) (pos 5 ∷ []) true 1) (
    loop 3 1 (pos 5) fd_zero server (record busy_world {
      trace =
          (bind (pos 5) (ascii "/tmp/s") 8, reply (pos 0) [])
          ∷ (open_socket, reply (pos 5) [])
          ∷ [];
    }))
loop_lem_example =
    loop_lem (ascii "/tmp/s") (pos 5) (pos 5 ∷ []) true 1 3 fd_zero server
      (record busy_world {
        trace =
            (bind (pos 5) (ascii "/tmp/s") 8, reply (pos 0) [])
            ∷ (open_socket, reply (pos 5) [])
            ∷ [];
      })
      ((refl, refl), record { last = λ t. (0, (omega arith, inr refl)) })

bind_mount_lem_example :
    ((rpath : Bytes) × ((target : Bytes) × (Names (some (ascii "/r")) (ascii "/a=/b") rpath target
          × (bind_mount (some (ascii "/r")) (ascii "/a=/b") server (world [])
              ≡ mounted rpath target server (world [])))))
    ⊎ ((¬ IsNamed (some (ascii "/r")) (ascii "/a=/b"))
        × (bind_mount (some (ascii "/r")) (ascii "/a=/b") server (world [])
            ≡ done minus_one server (world [])))
bind_mount_lem_example = bind_mount_lem (some (ascii "/r")) (ascii "/a=/b") server (world [])

babysit_lem_example :
    Guarded libc plain
      (pos 20)
      3
      (babysit abi libc plain few (pos 5) (some (pos 20)) server ending_world)
babysit_lem_example = babysit_lem abi libc plain few (pos 5) 20 server ending_world

main_lem_example :
    Finished libc [] (ClientMain.main abi libc 2 client busy_world)
    × Leaves no_status (ClientMain.initialize libc client busy_world)
    × ((msg : Message) (c : Client) (now : World) → Reports msg c (dispatch msg c now))
main_lem_example = main_lem abi libc 2 client busy_world refl

babysit-IsExited_example :
    IsExited (babysit abi libc plain few (pos 5) (some (pos 20)) server ending_world)
babysit-IsExited_example =
    babysit-IsExited abi libc plain few 2 (pos 5) 20 server ending_world
      (record { waits = λ t. refl; wakes = λ t. refl; reports = λ t h. refl }) (omega arith)
      (omega arith)

-- A container with a root and one mount.
abbrev rooted : Settings
rooted = record plain {
  root = some (ascii "/r");
  mounts = record { array = ascii "/a=/b" ∷ []; count = 1; capacity = 10 };
}

abbrev cloned : Server
cloned = record server { clone = true }

daemonize_third_lem_example :
    daemonize_third rooted cloned (world [])
    ≡ planned (plan (some (ascii "/r")) true ((ascii "/b", ascii "/r//a") ∷ [])) cloned (world [])
daemonize_third_lem_example =
    daemonize_third_lem rooted ((ascii "/b", ascii "/r//a") ∷ []) cloned (world []) refl
      ((ascii "/a", (refl, (omega arith, (omega arith, tt)), refl, refl, (refl, omega arith))), tt)
      (refl, omega arith)
