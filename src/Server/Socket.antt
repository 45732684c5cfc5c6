-- ===== src/Server/Socket.antt =====
-- The listening socket of server/jaild.c: `server_start` and `server_stop`.
pub mod Ledger
use jail.Base.{
  ◌-◌, ℕ, ◌+◌, Bool, true, false, List, [], ◌∷◌, leb, if◌then◌else◌, length, take, ℤ, pos,
  minus_one, is_zero, is_neg, ◌&&◌, not,
}
use jail.Posix.{M, ◌>>=◌, ◌>>◌, pure, call, open_socket, bind, close, chown, chmod, listen, unlink}
use jail.Array.{Bytes}
use jail.Utility.Files.{set_non_blocking_mode}
use jail.Child.{any_fails, nonzero, status_of}
use jail.Server.{Server}
use jail.Server.Args.{Settings}

-- `sizeof(addr.sun_path)`, `offsetof(struct sockaddr_un, sun_path)` and `sizeof(struct sockaddr_un)`
-- on Linux
abbrev pub sun_path_size : ℕ
sun_path_size = 108

abbrev pub sun_path_offset : ℕ
sun_path_offset = 2

-- The text in `sun_path`, cut to its size.
unfoldable pub sun_path : Bytes → Bytes
sun_path path = take (sun_path_size - 1) path

-- `len`, the size of the address.
unfoldable pub address_size : Bytes → ℕ
address_size path =
    if leb sun_path_size (length path)
    then sun_path_offset + sun_path_size - 1
    else length path + sun_path_offset

-- `server_start` after `bind` succeeded, with the descriptor.
unfoldable pub publish : Settings → Bytes → ℤ → M Server ℤ
unfolding any_fails
publish g path s = do
  failed ←
      any_fails (
        (nonzero, chown path g.uid g.gid) ∷ (nonzero, chmod path 384) ∷ (nonzero, listen s 10) ∷ [])
  if failed then (do call (close s); call (unlink path); pure minus_one) else pure s

-- `server_start` with the socket: the mode, and `bind` only if that could be set.
unfoldable pub start_on : Settings → Bytes → ℤ → M Server ℤ
unfolding publish sun_path address_size
start_on g path s = do
  mode ← set_non_blocking_mode s
  if nonzero mode then (do call (close s); pure minus_one) else do
    unbound ← call (bind s (sun_path path) (address_size path))
    if nonzero unbound then (do call (close s); pure minus_one) else publish g path s

-- `server_start`
unfoldable pub start : Settings → Bytes → M Server ℤ
unfolding start_on
start g path = do s ← call open_socket; if is_neg s then pure minus_one else start_on g path s

-- `server_stop`
unfoldable pub stop_server : ℤ → Bytes → M Server ℤ
stop_server s path = do
  closed ← call (close s)
  unlinked ← call (unlink path)
  pure (if is_zero closed && is_zero unlinked then pos 0 else minus_one)
