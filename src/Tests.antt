-- ===== src/Tests.antt =====
-- Concrete kernels, processes and strings on which the theorems are applied.
mod Strings
mod Buffers
mod Processes
mod Requests
mod Exits
mod Titles
mod Servers
use jail.Base.{
  ℕ, ◌≤◌, ◌≡◌, ◌≢◌, refl, inl, inr, Bool, true, false, Bool-cases, if◌then◌else◌, leb, Option, none,
  some, List, [], ◌∷◌, arith, length, All, ℤ, pos, negsuc, minus_one,
}
use jail.Posix.{World, Reply, Call, read, malloc, other}
use jail.Posix.Rules.{ReadFits}
use jail.Array.{Bytes, Array}
use jail.Array.Format.{IsText}
use jail.Environ.{ascii}

abbrev pub reply : ℤ → Bytes → Reply
reply ret bytes = record {
  ret = ret;
  errno = other;
  bytes = bytes;
  first = pos 3;
  second = pos 4;
  ready = λ fd. false;
  passwd = none;
  handled_first = false;
  handled_second = false;
}

-- Each read of enough room brings the same bytes, and memory is given.
abbrev pub machine : Bytes → ℕ → Call → Reply
machine bytes t (read fd size) =
    if leb (length bytes) size then reply (pos (length bytes)) bytes else reply minus_one []
machine bytes t (malloc size) = reply (pos 1) []
machine bytes t _ = reply (pos 0) []

abbrev pub world : Bytes → World
world bytes = record { kernel = machine bytes; now = 0; trace = [] }

pub machine-ReadFits : (bytes : Bytes) → ReadFits (machine bytes)
machine-ReadFits bytes = record {
  fits = λ t fd size n e. elim (Bool-cases (leb (length bytes) size)) [
    | inl h ↦ rw h (ground arith)
    | inr h ↦ absurd (ground arith)
  ];
}

-- The strings `a` and `bc`.
abbrev pub two : List Bytes
two = (97 ∷ []) ∷ (98 ∷ 99 ∷ []) ∷ []

pub two-IsText : All IsText two
two-IsText = (
  record { no_zero = (omega arith, tt); non_empty = omega arith },
  (record { no_zero = (omega arith, (omega arith, tt)); non_empty = omega arith }, tt),
)

abbrev pub owned : Array Bytes
owned = record { array = two; count = 2; capacity = 10 }
