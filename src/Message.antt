-- ===== src/Message.antt =====
-- common/message.h: the types of messages and the layout of their headers. The header is packed:
-- a type and a length of 16 bits each, little-endian as on the machines that the program is for.
-- `sizeof(struct winsize)` and `sizeof(struct termios)` are the C library's: `Abi` holds them.
use jail.Base.{
  ℕ, zero, suc, ◌+◌, ◌-◌, ◌*◌, ◌/◌, ◌%◌, ◌<◌, ◌≡◌, refl, Option, none, some, List, [], ◌∷◌, ◌++◌,
  arith, leb, if◌then◌else◌, get_elem?,
}

-- `type_t`
pub data MessageType : Type 0 where
  fork_socket fork_pipe fork_tty winsize std_in std_out std_err status : MessageType

-- The enumerator's value.
unfoldable pub code : MessageType → ℕ
code fork_socket = 0
code fork_pipe = 1
code fork_tty = 2
code winsize = 3
code std_in = 4
code std_out = 5
code std_err = 6
code status = 7

-- The `switch` on a received type: no case for other values.
unfoldable pub of_code : ℕ → Option MessageType
of_code zero = some fork_socket
of_code (suc zero) = some fork_pipe
of_code (suc (suc zero)) = some fork_tty
of_code (suc (suc (suc zero))) = some winsize
of_code (suc (suc (suc (suc zero)))) = some std_in
of_code (suc (suc (suc (suc (suc zero))))) = some std_out
of_code (suc (suc (suc (suc (suc (suc zero)))))) = some std_err
of_code (suc (suc (suc (suc (suc (suc (suc zero))))))) = some status
of_code _ = none

pub of_code-code : (t : MessageType) → of_code (code t) ≡ some t
unfolding code of_code
of_code-code fork_socket = refl
of_code-code _ = refl

pub record Abi : Type 0 where
  pub sizeof_winsize : ℕ
  pub sizeof_termios : ℕ

-- `sizeof(message_t)`, of which `message_fork_pipe_t`, `message_fork_socket_t` and the messages of
-- the standard streams are copies: two fields and one byte of the body.
abbrev pub sizeof_message : ℕ
sizeof_message = 5

-- `sizeof(message_status_t)`
abbrev pub sizeof_message_status : ℕ
sizeof_message_status = 8

-- `offsetof(message_t, body)`, `offsetof(message_fork_pipe_t, env)`
abbrev pub offsetof_body : ℕ
offsetof_body = 4

abbrev pub sizeof_message_winsize : Abi → ℕ
sizeof_message_winsize abi = 4 + abi.sizeof_winsize

abbrev pub offsetof_fork_tty_env : Abi → ℕ
offsetof_fork_tty_env abi = 4 + abi.sizeof_termios + abi.sizeof_winsize

abbrev pub sizeof_message_fork_tty : Abi → ℕ
sizeof_message_fork_tty abi = offsetof_fork_tty_env abi + 1

-- A `uint16_t` from its bytes.
abbrev pub u16 : ℕ → ℕ → ℕ
u16 lo hi = lo % 256 + 256 * (hi % 256)

-- The bytes of a `uint16_t` that a number is assigned to.
abbrev pub u16_bytes : ℕ → List ℕ
u16_bytes n = n % 256 ∷ n / 256 % 256 ∷ []

pub u16-lt : (lo hi : ℕ) → u16 lo hi < 65536
u16-lt lo hi = omega arith

pub u16_bytes_lem : (n : ℕ) → u16 (n % 256) (n / 256 % 256) ≡ n % 65536
u16_bytes_lem n = omega arith

-- The header that a sender writes.
unfoldable pub header : MessageType → ℕ → List ℕ
header t len = u16_bytes (code t) ++ u16_bytes len

-- The memory of a buffer: a byte at each index.
abbrev pub Memory : Type 0
Memory = ℕ → ℕ

-- The `n` bytes from `offset` on.
unfoldable pub slice : Memory → ℕ → ℕ → List ℕ
slice m offset zero = []
slice m offset (suc n) = m offset ∷ slice m (offset + 1) n

-- The memory after `bytes` were stored from `offset` on.
unfoldable pub store : Memory → ℕ → List ℕ → Memory
store m offset bytes i =
    if leb offset i then elim (get_elem? bytes (i - offset)) [ none ↦ m i | some b ↦ b ] else m i

-- `message_t *`: where a message lies, with the fields of its header as stored there.
pub record Message : Type 0 where
  pub memory : Memory
  pub type : ℕ
  pub length : ℕ

unfoldable pub message_at : Memory → Message
message_at m = record { memory = m; type = u16 (m 0) (m 1); length = u16 (m 2) (m 3) }
