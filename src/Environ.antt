-- ===== src/Environ.antt =====
-- common/environ.c: the environment variables that may pass between the client and a container.
pub mod Policy
use Prim.Native.String.{String}
use Prim.Native.Char.{code as char_code}
use jail.Base.{
  ℕ, Bool, true, false, Option, none, some, List, [], ◌∷◌, ◌==◌, ◌&&◌, if◌then◌else◌, length,
  get_elem?,
}

-- The bytes of an ASCII literal of the source.
abbrev pub ascii : String → List ℕ
ascii String.[] = []
ascii (String.◌∷◌ c s) = char_code c ∷ ascii s

-- `good_t`
pub record Good : Type 0 where
  pub what : List ℕ
  pub prefix : Bool

-- `GOOD`
abbrev pub good_names : List Good
good_names =
    record { what = ascii "SSH_CONNECTION"; prefix = false }
    ∷ record { what = ascii "SSH_CLIENT"; prefix = false }
    ∷ record { what = ascii "SSH_TTY"; prefix = false }
    ∷ record { what = ascii "TERM"; prefix = false }
    ∷ record { what = ascii "LANG"; prefix = false }
    ∷ record { what = ascii "LC_"; prefix = true }
    ∷ []

-- `memcmp(env, what, strlen(what)) == 0`, on a string that ends in a terminator: the comparison is
-- decided at the first byte that differs, so at the terminator at the latest.
pub same_bytes : List ℕ → List ℕ → Bool
same_bytes env [] = true
same_bytes [] (w ∷ what) = false
same_bytes (e ∷ env) (w ∷ what) = e == w && same_bytes env what

-- `env[l] == '='`; at `l == strlen(env)` the terminator is read.
pub is_equals_at : List ℕ → ℕ → Bool
is_equals_at env l = elim (get_elem? env l) [ none ↦ false | some c ↦ c == b'=' ]

-- The loop of `environ_permitted` over `GOOD`.
pub permitted_by : List Good → List ℕ → Bool
permitted_by [] env = false
permitted_by (p ∷ good) env =
    let rest = permitted_by good env in
    if same_bytes env p.what
    then (if p.prefix then true else if is_equals_at env (length p.what) then true else rest)
    else rest

pub permitted : List ℕ → Bool
permitted env = permitted_by good_names env
