-- ===== src/Client/Prepare.antt =====
-- The request: `client_prepare` and the three `client_execute_…` of client/jail.c.
pub mod RoundTrip
pub mod Request
pub mod EndToEnd
use jail.Base.{
  ℕ, ◌+◌, ◌*◌, ◌%◌, ◌^◌, Bool, true, false, Option, none, some, List, [], ◌∷◌, ◌++◌, if◌then◌else◌,
  not, ◌==ℤ◌, ℤ, pos, negsuc, minus_one, is_zero, is_neg, to_nat, length,
}
use jail.Posix.{M, ◌>>=◌, ◌>>◌, pure, get, call, sys, stop, malloc, get_winsize, write}
use jail.Array
use jail.Array.{Bytes, Array}
use jail.Environ
use jail.Message.{
  Abi, MessageType, fork_socket, fork_pipe, fork_tty, header, offsetof_body, offsetof_fork_tty_env,
}
use jail.Buffer.{sub_size}
use jail.Client.{Client}

abbrev pub nonzero : ℤ → Bool
nonzero ret = not (is_zero ret)

-- `array_push` with the allocator's answers. Both calls are recorded on every push, and an answer
-- matters only where the function asks.
unfoldable pub push : Array Bytes → Bytes → M Client (ℤ × Array Bytes)
push a str = do
  copy ← call (malloc (length str + 1))
  grown ← call (malloc (8 * Array.grown (Array.get_count a)))
  elim (Array.push (nonzero copy) (nonzero grown) a str) [ none ↦ stop | some r ↦ pure r ]

-- `client_prepare_argv`: the array, if every push succeeded.
unfoldable pub prepare_argv : List Bytes → Array Bytes → M Client (Option (Array Bytes))
unfolding push
prepare_argv [] a = pure (some a)
prepare_argv (x ∷ xs) a = do
  r ← push a x
  let rest = prepare_argv xs r.1
  if nonzero r.0 then pure none else rest

-- `client_prepare_env`: only what `environ_permitted` lets through.
unfoldable pub prepare_env : List Bytes → Array Bytes → M Client (Option (Array Bytes))
unfolding push
prepare_env [] a = pure (some a)
prepare_env (x ∷ xs) a =
    let skip = prepare_env xs a in
    if not (Environ.permitted x)
    then skip
    else do r ← push a x; let rest = prepare_env xs r.1; if nonzero r.0 then pure none else rest

-- After the second `array_serialize`: the length of the message and the bytes stored.
unfoldable pub both_stored : ℕ → ℕ → Bytes → ℤ × Bytes → Option (ℕ × Bytes)
both_stored offset la first (negsuc n, second) = none
both_stored offset la first (pos le, second) = some (offset + la + le, first ++ second)

-- After the first one, with `length - offset` in `room`.
unfoldable pub argv_stored : Array Bytes → ℕ → ℕ → ℤ × Bytes → Option (ℕ × Bytes)
unfolding both_stored
argv_stored env room offset (negsuc n, first) = none
argv_stored env room offset (pos la, first) =
    both_stored offset la first (Array.serialize env (sub_size room la))

-- The two `array_serialize` calls into a message of at most `len` bytes: the length of the message
-- and the bytes stored from `offset` on. The lengths are of type `size_t`.
unfoldable pub serialize_both : Array Bytes → Array Bytes → ℕ → ℕ → Option (ℕ × Bytes)
unfolding argv_stored
serialize_both argv env len offset =
    argv_stored env (sub_size len offset) offset
      (Array.serialize argv (sub_size (sub_size len offset) 1))

-- `client_prepare`; `none` is -1.
unfoldable pub prepare : ℕ → ℕ → M Client (Option (ℕ × Bytes))
unfolding prepare_argv prepare_env serialize_both
prepare len offset = do
  s ← get
  argv ← prepare_argv s.argv Array.initialize
  elim argv [
    | none ↦ pure none
    | some a ↦ do
      env ← prepare_env s.environ Array.initialize
      elim env [ none ↦ pure none | some e ↦ pure (serialize_both a e len offset) ]
  ]

-- `sizeof(buffer)` of the three functions
abbrev pub request_size : ℕ
request_size = 8192

-- `write(s, buffer, msg->length) != msg->length`, where the field holds 16 bits of the length.
unfoldable pub send : ℤ → ℕ → Bytes → M Client ℤ
send s len bytes = do
  sent ← call (write s bytes)
  pure (if not (sent ==ℤ pos (len % 2 ^ 16)) then minus_one else pos 0)

-- `client_execute_pipe` and `client_execute_socket`
unfoldable pub execute_plain : MessageType → ℤ → M Client ℤ
unfolding send
execute_plain type s = do
  prepared ← prepare request_size offsetof_body
  elim prepared [ none ↦ pure minus_one | some (len, wire) ↦ send s len (header type len ++ wire) ]

-- `client_execute_tty`
unfoldable pub execute_tty : Abi → ℤ → M Client ℤ
unfolding send
execute_tty abi s = do
  prepared ← prepare request_size (offsetof_fork_tty_env abi)
  elim prepared [
    | none ↦ pure minus_one
    | some (len, wire) ↦ do
      c ← get
      winp ← sys (get_winsize (pos 0))
      if nonzero winp.ret
          then pure minus_one
          else send s len (header fork_tty len ++ c.termp ++ winp.bytes ++ wire)
  ]

-- `client_execute`
unfoldable pub execute : Abi → ℤ → M Client ℤ
unfolding execute_tty execute_plain
execute abi s = do
  c ← get
  if c.tty
      then execute_tty abi s
      else if c.pipe
      then execute_plain fork_pipe s
      else execute_plain fork_socket s
