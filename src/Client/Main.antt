-- ===== src/Client/Main.antt =====
-- `client_initialize`, `client_start`, `client_atexit` and `main` of client/jail.c. `none` is a loop
-- that is still running after its rounds.
pub mod Steady
pub mod Restored
pub mod Initial
pub mod Exit
use jail.Base.{
  ℕ, ◌+◌, Bool, true, false, Option, none, some, List, [], ◌∷◌, leb, not, if◌then◌else◌, length, ℤ,
  pos, minus_one, is_neg, is_zero,
}
use jail.Posix.{
  M, ◌>>=◌, ◌>>◌, pure, get, modify, call, sys, exit, Libc, sighup, sigint, sigquit, sigterm,
  sigwinch, sigpipe, ignore, handler, sigemptyset, sigaddset, sigprocmask, sigaction, isatty, fstat,
  get_attributes, flush_attributes, atexit, getenv, getuid, getgid, open_socket, connect, close,
}
use jail.Array.{Bytes}
use jail.Message.{Abi}
use jail.Buffer.{Buffer}
use jail.Environ.{ascii}
use jail.Utility.{fd_zero}
use jail.Utility.Files.{int_of_bytes}
use jail.Child.{any_fails, nonzero, status_of}
use jail.Server.Args.{socket_prefix, path_max}
use jail.Server.Socket.{sun_path, address_size}
use jail.Client.{Client}
use jail.Client.Prepare.{execute}
use jail.Client.Loop.{loop}

-- `client_initialize_signals`
unfoldable pub initialize_signals : M Client ℤ
unfolding any_fails
initialize_signals = do
  failed ← any_fails (
      (nonzero, sigemptyset)
      ∷ (nonzero, sigaddset sighup)
      ∷ (nonzero, sigaddset sigint)
      ∷ (nonzero, sigaddset sigquit)
      ∷ (nonzero, sigaddset sigterm)
      ∷ (nonzero, sigaddset sigwinch)
      ∷ (nonzero, sigprocmask (sighup ∷ sigint ∷ sigquit ∷ sigterm ∷ sigwinch ∷ []))
      ∷ (nonzero, sigemptyset)
      ∷ (nonzero, sigaction sigpipe ignore)
      ∷ (nonzero, sigaction sigwinch handler)
      ∷ (nonzero, sigaction sighup handler)
      ∷ (nonzero, sigaction sigint handler)
      ∷ (nonzero, sigaction sigquit handler)
      ∷ (nonzero, sigaction sigterm handler)
      ∷ [])
  pure (status_of failed)

-- The variables that `client_initialize` sets first; the status is -1.
unfoldable pub reset : Client → Client
reset c = record c {
  tty = false;
  pipe = false;
  status = 255 ∷ 255 ∷ 255 ∷ 255 ∷ [];
  sigterm = false;
  sigwinch = false;
}

-- `client_initialize` where the input is no terminal.
unfoldable pub initialize_stream : Libc → M Client ℤ
initialize_stream libc = do
  st ← sys (fstat (pos 0))
  if nonzero st.ret
      then pure minus_one
      else if libc.is_socket st.bytes
      then (do modify (λ c. record c { pipe = false }); pure (pos 0))
      else if libc.is_fifo st.bytes
      then (do modify (λ c. record c { pipe = true }); pure (pos 0))
      else pure minus_one

-- `client_initialize` where the input is a terminal.
unfoldable pub initialize_terminal : Libc → M Client ℤ
initialize_terminal libc = do
  modify (λ c. record c { tty = true })
  r ← sys (get_attributes (pos 0))
  if nonzero r.ret then pure minus_one else do
    modify (λ c. record c { termp = r.bytes })
    registered ← call atexit
    if nonzero registered then pure minus_one else do
      modify (λ c. record c { restores = true })
      set ← call (flush_attributes (pos 0) (libc.make_raw r.bytes))
      pure (status_of (nonzero set))

-- `client_initialize`
unfoldable pub initialize : Libc → M Client ℤ
unfolding reset initialize_signals initialize_terminal initialize_stream
initialize libc = do
  modify reset
  signals ← initialize_signals
  if nonzero signals then pure minus_one else do
    terminal ← call (isatty (pos 0))
    if nonzero terminal then initialize_terminal libc else initialize_stream libc

-- `client_start`
unfoldable pub start : Abi → Bytes → M Client ℤ
unfolding execute sun_path address_size
start abi path = do
  s ← call open_socket
  if is_neg s then pure minus_one else do
    unconnected ← call (connect s (sun_path path) (address_size path))
    if is_neg unconnected then (do call (close s); pure minus_one) else do
      refused ← execute abi s
      if nonzero refused then (do call (close s); pure minus_one) else pure s

-- `client_atexit`
unfoldable pub at_exit : M Client Unit
at_exit = do
  c ← get
  if c.tty then (do call (flush_attributes (pos 0) c.termp); pure tt) else pure tt

-- The end of `main` and of the process, which calls what `atexit` registered.
unfoldable pub leave : ℕ → M Client (Option ℕ)
unfolding at_exit
leave code = do c ← get; if c.restores then (do at_exit; exit code) else exit code

-- `main` after the loop.
unfoldable pub end_main : Libc → Option ℤ → M Client (Option ℕ)
unfolding leave
end_main libc none = pure none
end_main libc (some ret) = if nonzero ret then leave 255 else do
  c ← get
  let status = int_of_bytes c.status
  if libc.is_exited status then leave (libc.exit_status status) else leave 255

-- `main` with the path of the socket.
unfoldable pub converse : Abi → Libc → ℕ → Bytes → M Client (Option ℕ)
unfolding start end_main
converse abi libc rounds path = do
  s ← start abi path
  if is_neg s then leave 255 else do
    ret ← loop abi rounds s fd_zero (record { buflen = 0; buffer = λ i. 0 })
    end_main libc ret

-- `main` after the initialization.
unfoldable pub run_client : Abi → Libc → ℕ → M Client (Option ℕ)
unfolding converse
run_client abi libc rounds = do
  socket ← sys (getenv (ascii "SOCKET"))
  let prefix = if is_zero socket.ret then socket_prefix else socket.bytes
  uid ← call getuid
  gid ← call getgid
  let path = libc.format prefix uid gid
  if leb path_max (length path) then leave 255 else converse abi libc rounds path

-- `main`
unfoldable pub main : Abi → Libc → ℕ → M Client (Option ℕ)
unfolding initialize run_client
main abi libc rounds = do
  failed ← initialize libc
  if nonzero failed then leave 255 else run_client abi libc rounds
