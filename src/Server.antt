-- ===== src/Server.antt =====
-- server/jaild.c: the server of a container. Its static variables are the record `Server`; those
-- that `parse_args` sets are `Settings` (Args). The modules follow the file: `Signals`, `Socket`,
-- `Loop` and `Mounts` hold the functions that `Main` puts together.
pub mod Args
pub mod Signals
pub mod Socket
pub mod Loop
pub mod Mounts
pub mod Main
use jail.Base.{Bool, true, false, if◌then◌else◌}
use jail.Posix.{Reply}

pub record Server : Type 0 where
  pub sigchld : Bool
  pub sigterm : Bool
  pub clone : Bool

-- `server_sigterm_handler` and `server_sigchld_handler`, in the order of the answer's two flags.
unfoldable pub sigterm_handler : Server → Server
sigterm_handler s = record s { sigterm = true }

unfoldable pub sigchld_handler : Server → Server
sigchld_handler s = record s { sigchld = true }

-- The handlers that run during a call.
unfoldable pub run_handlers : Reply → Server → Server
unfolding sigterm_handler sigchld_handler
run_handlers r s =
    let s' = if r.handled_first then sigterm_handler s else s in
    if r.handled_second then sigchld_handler s' else s'
