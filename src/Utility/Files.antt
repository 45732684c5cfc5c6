-- ===== src/Utility/Files.antt =====
-- The descriptor flags and the limit on open files of common/utility.c.
--
-- A flags word is a number, and one flag of it a power of two: `|` with that flag adds it where it
-- is not set, `& ~` takes it away where it is.
pub mod Flags
pub mod Limit
use jail.Base.{
  ℕ, ◌+◌, ◌*◌, ◌-◌, ◌/◌, ◌%◌, ◌^◌, Bool, true, false, Option, none, some, List, [], ◌∷◌, not, ◌&&◌,
  ◌||◌, ltb, ◌==◌, if◌then◌else◌, ℤ, pos, negsuc, minus_one, is_zero, to_nat,
}
use jail.Posix.{
  M, ◌>>=◌, pure, call, sys, get_flags, set_flags, get_fd_flags, set_fd_flags, set_reuse_address,
  getrlimit, setrlimit,
}

abbrev pub nonzero : ℤ → Bool
nonzero ret = not (is_zero ret)

-- `O_NONBLOCK` and `FD_CLOEXEC`
abbrev pub o_nonblock : ℕ
o_nonblock = 2048

abbrev pub fd_cloexec : ℕ
fd_cloexec = 1

-- `(options & flag) == flag`
unfoldable pub has_flag : ℕ → ℕ → Bool
has_flag flag options = options / flag % 2 == 1

-- `options | flag`
unfoldable pub with_flag : ℕ → ℕ → ℕ
unfolding has_flag
with_flag flag options = if has_flag flag options then options else options + flag

-- `options & ~flag`
unfoldable pub without_flag : ℕ → ℕ → ℕ
unfolding has_flag
without_flag flag options = if has_flag flag options then options - flag else options

-- `if (fcntl(fd, F_SETFL, options)) return -1; return 0;`
unfoldable pub store_flags : {S : Type 0} → ℤ → ℕ → M S ℤ
store_flags fd options = do
  ret ← call (set_flags fd options)
  pure (if nonzero ret then minus_one else pos 0)

-- `set_non_blocking_mode` after the first `fcntl`.
unfoldable pub non_blocking_from : {S : Type 0} → ℤ → ℤ → M S ℤ
unfolding store_flags has_flag with_flag
non_blocking_from fd (negsuc n) = pure minus_one
non_blocking_from fd (pos options) =
    if has_flag o_nonblock options
    then pure (pos 0)
    else store_flags fd (with_flag o_nonblock options)

unfoldable pub set_non_blocking_mode : {S : Type 0} → ℤ → M S ℤ
unfolding non_blocking_from
set_non_blocking_mode fd = do options ← call (get_flags fd); non_blocking_from fd options

-- `set_blocking_mode` after the first `fcntl`.
unfoldable pub blocking_from : {S : Type 0} → ℤ → ℤ → M S ℤ
unfolding store_flags has_flag without_flag
blocking_from fd (negsuc n) = pure minus_one
blocking_from fd (pos options) =
    if not (has_flag o_nonblock options)
    then pure (pos 0)
    else store_flags fd (without_flag o_nonblock options)

unfoldable pub set_blocking_mode : {S : Type 0} → ℤ → M S ℤ
unfolding blocking_from
set_blocking_mode fd = do options ← call (get_flags fd); blocking_from fd options

unfoldable pub set_socket_address_reuse : {S : Type 0} → ℤ → M S ℤ
set_socket_address_reuse fd = call (set_reuse_address fd)

-- `set_close_on_exec` after the first `fcntl`.
unfoldable pub close_on_exec_from : {S : Type 0} → ℤ → ℤ → M S ℤ
unfolding with_flag has_flag
close_on_exec_from fd (negsuc n) = pure (negsuc n)
close_on_exec_from fd (pos flags) = call (set_fd_flags fd (with_flag fd_cloexec flags))

unfoldable pub set_close_on_exec : {S : Type 0} → ℤ → M S ℤ
unfolding close_on_exec_from
set_close_on_exec fd = do flags ← call (get_fd_flags fd); close_on_exec_from fd flags

-- `RLIM_INFINITY` of an `rlim_t` of 64 bits
abbrev pub rlim_infinity : ℕ
rlim_infinity = 2 ^ 64 - 1

-- An `rlim_t` converted to `int`.
abbrev pub to_int : ℕ → ℤ
to_int n = let low = n % 2 ^ 32 in if ltb low (2 ^ 31) then pos low else negsuc (2 ^ 32 - 1 - low)

-- The four bytes of an `int` in memory.
unfoldable pub int_of_bytes : List ℕ → ℤ
int_of_bytes (a ∷ b ∷ c ∷ d ∷ _) = to_int (a + 256 * b + 65536 * c + 16777216 * d)
int_of_bytes _ = pos 0

-- The last `setrlimit` of `set_maximum_files`, with the old limit.
unfoldable pub set_limit : {S : Type 0} → ℕ → ℕ → ℕ → M S ℤ
set_limit current maximum old = do
  ret ← call (setrlimit current maximum)
  pure (if nonzero ret then to_int old else to_int current)

-- The attempt to raise the maximum too.
unfoldable pub raise_limit : {S : Type 0} → ℕ → ℕ → ℕ → M S ℤ
unfolding set_limit
raise_limit n current maximum = do
  ret ← call (setrlimit n n)
  if not (nonzero ret)
      then pure (to_int n)
      else if current == maximum
      then pure (to_int current)
      else set_limit maximum maximum current

-- `set_maximum_files` with the limits that `getrlimit` gave.
unfoldable pub limit_from : {S : Type 0} → ℕ → ℕ → ℕ → M S ℤ
unfolding raise_limit set_limit
limit_from n current maximum =
    if current == n
    then pure (to_int current)
    else if not (maximum == rlim_infinity) && ltb maximum n
    then raise_limit n current maximum
    else set_limit n maximum current

-- `set_maximum_files`; `getrlimit` answers with the pair of limits.
unfoldable pub set_maximum_files : {S : Type 0} → ℤ → M S ℤ
unfolding limit_from
set_maximum_files (negsuc n) = pure minus_one
set_maximum_files (pos n) = do
  limits ← sys getrlimit
  if nonzero limits.ret
      then pure minus_one
      else limit_from n (to_nat limits.first) (to_nat limits.second)
