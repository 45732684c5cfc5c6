-- ===== src/Child/Execute.antt =====
-- The messages of a client: `child_parse`, the handlers and `child_execute` of server/child.c. The
-- bytes of a message are read where they lie in the receive buffer.
mod Safety
pub mod Total
use jail.Base.{
  ◌*◌, ℕ, ◌+◌, ◌-◌, Bool, true, false, Option, none, some, List, ◌==◌, ltb, if◌then◌else◌, not,
  ◌||◌, ◌==ℤ◌, length, drop, ℤ, pos, negsuc, minus_one, is_zero, is_neg, to_nat,
}
use jail.Posix.{M, ◌>>=◌, ◌>>◌, pure, get, call, stop, set_winsize, write, malloc}
use jail.Array
use jail.Array.{Bytes, Array}
use jail.Array.Format.{strings}
use jail.Message.{
  Abi, Message, MessageType, fork_socket, fork_pipe, fork_tty, winsize, std_in, of_code, slice,
  sizeof_message, offsetof_body, sizeof_message_winsize, offsetof_fork_tty_env,
  sizeof_message_fork_tty,
}
use jail.Buffer.{sub_size}
use jail.Child.{Args, Child, nonzero, status_of}
use jail.Child.Fork.{Channel, tty, socket, pipes, fork_child}

-- A parsed array with each pointer replaced by the string that it points to.
unfoldable pub resolve : Array ℕ → Bytes → Array Bytes
resolve a buffer = record { array = strings a buffer; count = a.count; capacity = a.capacity }

-- `array_parse` into a variable that is not initialised. The allocator's answer matters only if the
-- function gets to `malloc`. `none` is the result -1.
unfoldable pub parsed_of : Bytes → Option (ℤ × Array ℕ) → M Child (Option (ℕ × Array Bytes))
parsed_of buffer none = stop
parsed_of buffer (some (ret, a)) =
    if is_neg ret then pure none else pure (some (to_nat ret, resolve a buffer))

-- The strings that `array_parse` asks memory for, if it gets that far.
unfoldable pub claimed : Bytes → ℕ → ℕ
claimed buffer size = elim (Array.sanity_test buffer size) [ none ↦ 0 | some count ↦ to_nat count ]

-- `array_parse` on a received request. A call of `malloc` is recorded also where the function returns
-- before it; the results are the same.
unfoldable pub parse_array : Bytes → ℕ → M Child (Option (ℕ × Array Bytes))
unfolding parsed_of
parse_array buffer size = do
  memory ← call (malloc (8 * claimed buffer size))
  parsed_of buffer (Array.parse (nonzero memory) Array.initialize buffer size)

-- `child_parse` after the first array, which ended `ret` bytes into the buffer.
unfoldable pub parse_env :
    Bytes → ℕ → Option (ℕ × Array Bytes) → M Child (Option (Array Bytes × Array Bytes))
unfolding parse_array
parse_env buffer room none = pure none
parse_env buffer room (some (ret, argv)) = do
  second ← parse_array (drop ret buffer) (sub_size room ret)
  pure (elim second [ none ↦ none | some (_, env) ↦ some (argv, env) ])

-- `child_parse`, of a message of the given length whose strings begin at `offset`: the two arrays,
-- or -1. The lengths are of type `size_t`.
unfoldable pub parse_strings : Bytes → ℕ → ℕ → M Child (Option (Array Bytes × Array Bytes))
unfolding parse_array parse_env
parse_strings buffer len offset = do
  first ← parse_array buffer (sub_size (sub_size len offset) 1)
  parse_env buffer (sub_size len offset) first

-- The bytes of a message from `offset` to its end.
abbrev pub bytes_from : Message → ℕ → Bytes
bytes_from msg offset = slice msg.memory offset (msg.length - offset)

-- The common part of the three `child_execute_fork_…`: after `child_parse`, and whole.
unfoldable pub fork_parsed : Args → Channel → Option (Array Bytes × Array Bytes) → M Child ℤ
fork_parsed args channel none = pure minus_one
fork_parsed args channel (some (argv, env)) = fork_child args channel argv env

unfoldable pub execute_fork : Args → Message → ℕ → Channel → M Child ℤ
unfolding fork_parsed
execute_fork args msg offset channel = do
  parsed ← parse_strings (bytes_from msg offset) msg.length offset
  fork_parsed args channel parsed

module _ (abi : Abi) where
  -- `&msg->termp` and `&msg->winp` of a `message_fork_tty_t`
  pub terminal_of : Message → Channel
  terminal_of msg =
      tty (slice msg.memory 4 abi.sizeof_termios)
        (slice msg.memory (4 + abi.sizeof_termios) abi.sizeof_winsize)

  unfoldable pub execute_winsize : Message → M Child ℤ
  execute_winsize msg = do
    s ← get
    if not s.pty then pure (pos 0) else do
      ret ← call (set_winsize s.stdin (slice msg.memory 4 abi.sizeof_winsize))
      pure (status_of (nonzero ret))

  unfoldable pub execute_stdin : Message → M Child ℤ
  execute_stdin msg = do
    let len = sub_size msg.length sizeof_message + 1
    s ← get
    size ← call (write s.stdin (slice msg.memory offsetof_body len))
    pure (status_of (is_neg size || not (size ==ℤ pos len)))

  -- The body of a case of the `switch`, on a message whose length the case has checked.
  unfoldable pub execute_case : Args → Option MessageType → Message → M Child ℤ
  unfolding terminal_of
  execute_case args (some fork_socket) msg =
      if ltb msg.length sizeof_message
      then pure minus_one
      else execute_fork args msg offsetof_body socket
  execute_case args (some fork_pipe) msg =
      if ltb msg.length sizeof_message
      then pure minus_one
      else execute_fork args msg offsetof_body pipes
  execute_case args (some fork_tty) msg =
      if ltb msg.length (sizeof_message_fork_tty abi)
      then pure minus_one
      else execute_fork args msg (offsetof_fork_tty_env abi) (terminal_of msg)
  execute_case args (some winsize) msg =
      if not (msg.length == sizeof_message_winsize abi) then pure minus_one else execute_winsize msg
  execute_case args (some std_in) msg =
      if ltb msg.length sizeof_message then pure minus_one else execute_stdin msg
  execute_case args _ msg = pure minus_one

  -- `child_execute`
  unfoldable pub execute : Args → Message → M Child ℤ
  execute args msg = execute_case args (of_code msg.type) msg
