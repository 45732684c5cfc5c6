-- ===== src/Child/Exec.antt =====
-- The forked process of server/child.c: from `child_exec_child` to `execve`.
pub mod Safety
use jail.Base.{
  ℕ, zero, suc, ◌+◌, ◌-◌, ◌*◌, Bool, true, false, Option, none, some, List, [], ◌∷◌, ◌==◌, leb,
  if◌then◌else◌, not, length, ℤ, pos, minus_one, is_zero, is_neg,
}
use jail.Posix.{
  M, ◌>>=◌, ◌>>◌, pure, get, call, sys, exit, stop, replace, Call, Passwd, setsid, getpwuid, chdir,
  setenv, putenv, unsetenv, getenv, ttyname, malloc, execve, clear_environ,
}
use jail.Array.{Bytes, Array, get_count, get_element}
use jail.Environ
use jail.Environ.{ascii}
use jail.Child.{Args, Child, any_fails, nonzero, status_of, get_name, get_shell}
use jail.Child.Signals.{restore_signals}

abbrev pub exit_failure : ℕ
exit_failure = 1

-- The loop over the received variables, with `n` rounds left: whether `putenv` failed.
unfoldable pub put_permitted : ℕ → ℕ → Array Bytes → M Child Bool
put_permitted zero i env = pure false
put_permitted (suc n) i env = elim (get_element env i) [
  | none ↦ stop
  | some e ↦
      let rest = put_permitted n (i + 1) env in
      if not (Environ.permitted e)
      then rest
      else do ret ← call (putenv e); if nonzero ret then pure true else rest
]

-- `SSH_TTY` names the new terminal, if there is one. `ttyname` of the terminal just opened is taken to
-- return a name.
unfoldable pub modify_ssh_tty : M Child ℤ
modify_ssh_tty = do
  found ← call (getenv (ascii "SSH_TTY"))
  if is_zero found then pure (pos 0) else do
    s ← get
    if s.pty
        then (do
          tty ← sys (ttyname (pos 0))
          ret ← call (setenv (ascii "SSH_TTY") tty.bytes)
          pure (status_of (nonzero ret)))
        else (do ret ← call (unsetenv (ascii "SSH_TTY")); pure (status_of (nonzero ret)))

unfoldable pub setup_envvars : Args → Passwd → Array Bytes → M Child ℤ
unfolding any_fails
setup_envvars args pwd env = do
  failed ← put_permitted (get_count env) 0 env
  if failed then pure minus_one else do
    unset ← any_fails (
        (nonzero, setenv (ascii "SHELL") (get_shell args pwd))
        ∷ (nonzero, setenv (ascii "LOGNAME") (get_name args pwd))
        ∷ (nonzero, setenv (ascii "USER") (get_name args pwd))
        ∷ [])
    if unset then pure minus_one else modify_ssh_tty

-- `NAME_MAX`
abbrev pub name_max : ℕ
name_max = 255

-- `strrchr(sh, '/') + 1`, or the null pointer of `strrchr`.
unfoldable pub after_last_slash : Bytes → Option Bytes
after_last_slash [] = none
after_last_slash (c ∷ cs) = elim (after_last_slash cs) [
  | some base ↦ some base
  | none ↦ if c == b'/' then some cs else none
]

-- The first argument is absent, or begins with `-`.
unfoldable pub is_login : Array Bytes → Bool
is_login argv = elim (get_element argv 0) [
  | none ↦ true
  | some [] ↦ false
  | some (c ∷ cs) ↦ c == b'-'
]

-- `args[i] = array_get_element(argv, i)` with `n` rounds left; a null pointer ends the vector.
unfoldable pub args_from : ℕ → ℕ → Array Bytes → List Bytes
args_from zero i argv = []
args_from (suc n) i argv = elim (get_element argv i) [
  | none ↦ []
  | some a ↦ a ∷ args_from n (i + 1) argv
]

-- The vector for `execve`, or the null pointer. `args[0]` is kept as the bytes of `shell`.
unfoldable pub construct_args : Args → Passwd → Array Bytes → M Child (Option (List Bytes))
construct_args args pwd argv = elim (after_last_slash (get_shell args pwd)) [
  | none ↦ stop
  | some sh ↦
      let login = is_login argv in
      let size = if login then name_max - 1 else name_max in
      let count = if get_count argv == 0 then 1 else get_count argv in
      if leb size (length sh) then pure none else do
        memory ← call (malloc (8 * (count + 1)))
        if is_zero memory
            then pure none
            else pure (some ((if login then b'-' ∷ sh else sh) ∷ args_from (count - 1) 1 argv))
]

-- `chdir(dir) == 0 && setenv("PWD", dir, 1) == 0`
unfoldable pub enter : Bytes → M Child Bool
enter dir = do
  moved ← call (chdir dir)
  if is_zero moved
      then (do set ← call (setenv (ascii "PWD") dir); pure (is_zero set))
      else pure false

unfoldable pub chdir_to_home : Passwd → M Child ℤ
unfolding enter
chdir_to_home pwd = do
  ret ← call (setenv (ascii "HOME") pwd.home)
  if nonzero ret then pure minus_one else do
    home ← enter pwd.home
    if home
        then pure (pos 0)
        else do root ← enter (ascii "/"); if root then pure (pos 0) else pure minus_one

-- `execve` returns only if it fails.
unfoldable pub run_program : Args → Passwd → List Bytes → M Child Unit
run_program args pwd vector = do
  ret ← call (execve (get_shell args pwd) vector)
  if is_neg ret then pure tt else replace

-- `child_exec_child` after `child_construct_args`.
unfoldable pub exec_vector : Args → Passwd → Option (List Bytes) → M Child ℤ
exec_vector args pwd none = exit exit_failure
exec_vector args pwd (some v) = do run_program args pwd v; exit exit_failure

-- `child_exec_child` after a `getpwuid` that found the user.
unfoldable pub exec_as : Args → Passwd → Array Bytes → Array Bytes → M Child ℤ
unfolding exec_vector
exec_as args pwd argv env = do
  home ← chdir_to_home pwd
  if nonzero home then exit exit_failure else do
    vars ← setup_envvars args pwd env
    if nonzero vars
        then exit exit_failure
        else do vector ← construct_args args pwd argv; exec_vector args pwd vector

unfoldable pub exec_found : Args → Option Passwd → Array Bytes → Array Bytes → M Child ℤ
exec_found args none argv env = exit exit_failure
exec_found args (some pwd) argv env = exec_as args pwd argv env

unfoldable pub exec_child : Args → Array Bytes → Array Bytes → M Child ℤ
unfolding exec_found
exec_child args argv env = do
  call clear_environ
  s ← get
  session ← (if s.pty then pure (pos 0) else call setsid)
  if is_neg session then exit exit_failure else do
    signals ← restore_signals
    if nonzero signals
        then exit exit_failure
        else do found ← sys (getpwuid args.uid); exec_found args found.passwd argv env
