-- ===== src/Utility.antt =====
-- common/utility.c: numbers from the command line, descriptor sets, timers and limits.
pub mod Numbers
pub mod Sets
pub mod Files
use jail.Base.{
  ℕ, ◌+◌, ◌-◌, ◌*◌, ◌/◌, ◌%◌, ◌^◌, Bool, true, false, Option, none, some, List, [], ◌∷◌, not, ◌||◌,
  ◌&&◌, ltb, leb, ◌==◌, if◌then◌else◌, length, ℤ, pos, negsuc, minus_one, is_neg, is_zero, ◌==ℤ◌,
  to_nat,
}
use jail.Posix.{M, ◌>>=◌, ◌>>◌, pure, call, sys, setitimer, Call, Reply}

-- What `strtol(value, &end, 10)` gives: its result, the index of `end`, and whether `errno` is
-- `ERANGE` afterwards. `strtol` itself is the C library's.
pub record Strtol : Type 0 where
  pub value : ℤ
  pub end : ℕ
  pub is_erange : Bool

-- `i > n` for a number of the source.
abbrev pub exceeds : ℤ → ℕ → Bool
exceeds (pos i) n = ltb n i
exceeds (negsuc i) n = false

abbrev pub long_max : ℤ
long_max = pos (2 ^ 63 - 1)

abbrev pub int32_max : ℕ
int32_max = 2 ^ 31 - 1

-- `atoi32`; `none` is the null pointer.
unfoldable pub atoi32 : (List ℕ → Strtol) → Option (List ℕ) → ℤ
atoi32 strtol none = minus_one
atoi32 strtol (some []) = minus_one
atoi32 strtol (some (c ∷ cs)) =
    let r = strtol (c ∷ cs) in
    if not (r.end == length (c ∷ cs))
      || (r.value ==ℤ long_max && r.is_erange)
      || exceeds r.value int32_max
      || is_neg r.value
    then minus_one
    else r.value

-- A set of descriptors, `fd_set`, with `FD_ZERO`, `FD_SET` and `FD_ISSET`.
abbrev pub FdSet : Type 0
FdSet = ℤ → Bool

abbrev pub fd_zero : FdSet
fd_zero fd = false

abbrev pub fd_set : ℤ → FdSet → FdSet
fd_set fd set other = if other ==ℤ fd then true else set other

abbrev pub fd_setsize : ℕ
fd_setsize = 1024

-- `max_fd < fd ? fd : max_fd`
abbrev pub max_of : ℤ → ℕ → ℤ
max_of (pos m) fd = if ltb m fd then pos fd else pos m
max_of (negsuc m) fd = pos fd

-- `add_to_set`: the new maximum and the new set.
unfoldable pub add_to_set : ℤ → ℤ → FdSet → ℤ × FdSet
add_to_set max_fd (negsuc n) set = (max_fd, set)
add_to_set max_fd (pos fd) set =
    if leb fd_setsize fd then (max_fd, set) else (max_of max_fd fd, fd_set (pos fd) set)

-- `set_alarm_timer`: a negative time is 0 (`to_nat`); the timer's value and interval, in microseconds, are the same.
unfoldable pub set_alarm_timer : {S : Type 0} → ℤ → M S ℤ
set_alarm_timer milliseconds = do
  let ms = to_nat milliseconds
  ret ← call (setitimer (ms / 1000) (ms % 1000 * 1000))
  pure (if not (is_zero ret) then minus_one else pos 0)
