-- ===== src/Child.antt =====
-- server/child.c: the process that serves one connection. Its static variables are the record
-- `Child`; the receive buffer is a variable of the loop (Buffer/Drain). The options of the command
-- line that it reads are `Args`. The modules below follow the file: `Signals` and `Exec` prepare
-- the program of the container, `Fork` starts it, `Execute` handles a message, `Loop` serves.
pub mod Privileges
pub mod Signals
pub mod Exec
pub mod Fork
pub mod Execute
pub mod Loop
use jail.Base.{
  ℕ, Bool, true, false, Option, none, some, List, [], ◌∷◌, ◌==◌, if◌then◌else◌, not, ℤ, pos,
  minus_one, is_zero, is_neg,
}
use jail.Array.{Bytes}
use jail.Posix.{M, ◌>>=◌, ◌>>◌, pure, call, Call, geteuid, setgroups, setgid, setuid, Passwd}
use jail.Environ.{ascii}

pub record Args : Type 0 where
  pub uid : ℕ
  pub gid : ℕ
  pub name : Option Bytes
  pub shell : Option Bytes

pub record Child : Type 0 where
  pub remote : ℤ
  -- -1 if not started, 0 if exited
  pub pid : ℤ
  pub pty : Bool
  pub stdin : ℤ
  pub stdout : ℤ
  pub stderr : ℤ
  pub handshaking : Bool
  pub sigalrm : Bool
  pub sigchld : Bool

-- `a() || b() || …`: the calls in order up to the first whose result the test refuses.
unfoldable pub any_fails : {S : Type 0} → List ((ℤ → Bool) × Call) → M S Bool
any_fails [] = pure false
any_fails ((fails, c) ∷ cs) = do
  ret ← call c
  let rest = any_fails cs
  if fails ret then pure true else rest

abbrev pub nonzero : ℤ → Bool
nonzero ret = not (is_zero ret)

-- `if (…) return -1; return 0;`
abbrev pub status_of : Bool → ℤ
status_of true = minus_one
status_of false = pos 0

unfoldable pub drop_privileges : Args → M Child ℤ
unfolding any_fails
drop_privileges args = do
  euid ← call geteuid
  if nonzero euid then pure (pos 0) else do
    failed ← any_fails (
        (nonzero, setgroups args.gid)
        ∷ (nonzero, setgid args.gid)
        ∷ (nonzero, setuid args.uid)
        ∷ [])
    pure (status_of failed)

-- `kDefaultShell` of common/config.c
abbrev pub default_shell : Bytes
default_shell = ascii "/bin/sh"

unfoldable pub get_name : Args → Passwd → Bytes
get_name args pwd = elim args.name [ none ↦ pwd.name | some name ↦ name ]

-- `pw_shell[0] == '/'`
abbrev pub is_absolute : Bytes → Bool
is_absolute [] = false
is_absolute (c ∷ cs) = c == b'/'

unfoldable pub get_shell : Args → Passwd → Bytes
get_shell args pwd = elim args.shell [
  | some shell ↦ shell
  | none ↦ elim pwd.shell [
    | none ↦ default_shell
    | some shell ↦ if is_absolute shell then shell else default_shell
  ]
]
