-- ===== src/Client.antt =====
-- client/jail.c: the program that a user runs to enter a container. Its static variables are the
-- record `Client`. The modules follow the file: `Prepare` builds and sends the request, `Remote`
-- handles what the server sends, `Loop` relays the input and the size of the terminal,
-- `Main` starts and ends the program.
pub mod Prepare
pub mod Remote
pub mod Loop
pub mod Main
use jail.Base.{ℕ, Bool, List}
use jail.Array.{Bytes}

pub record Client : Type 0 where
  pub argv : List Bytes
  pub environ : List Bytes
  pub tty : Bool
  pub pipe : Bool
  -- the bytes of `g_client_status`
  pub status : Bytes
  pub termp : Bytes
  pub sigterm : Bool
  pub sigwinch : Bool
  -- whether `client_atexit` is registered
  pub restores : Bool
