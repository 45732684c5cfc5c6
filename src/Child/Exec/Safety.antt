-- ===== src/Child/Exec/Safety.antt =====
-- The assertions of server/child.c in the forked process, up to `execve`.
use jail.Base.{
  ℕ, zero, suc, ◌+◌, ◌≤◌, ◌<◌, ◌≡◌, refl, Bool, true, Option, none, some, List, [], ◌∷◌, arith,
  length, ℤ, not, get_elem?,
}
use jail.Posix.{Call, Passwd, call, sys, pure, sigaction, number, default, putenv}
use jail.Posix.Rules.{
  Safe, safe_rules, Safe-call, Safe-sys, Keeps-bind, Keeps-if, Keeps-pure, Keeps-exit,
}
use jail.Array.{Bytes, Array, get_element, get_count}
use jail.Child.{Args, Child, any_fails, drop_privileges, get_shell, nonzero}
use jail.Child.Signals.{is_einval, reset_from, restore_signals}
use jail.Child.Exec.{
  put_permitted, modify_ssh_tty, setup_envvars, after_last_slash, construct_args, enter,
  chdir_to_home, run_program, exec_vector, exec_as, exec_found, exec_child,
}
use jail.Environ

pub any_fails-Safe : (cs : List ((ℤ → Bool) × Call)) → Safe (any_fails {S = Child} cs)
unfolding any_fails
any_fails-Safe [] = search safe_rules depth 16
any_fails-Safe ((f, c) ∷ cs) =
    Keeps-bind (call c) _ (Safe-call c)
      (λ ret. Keeps-if (f ret) (pure true) (any_fails cs) (Keeps-pure true) (any_fails-Safe cs))

reset_from-Safe : (n i : ℕ) → Safe (reset_from n i)
unfolding reset_from
reset_from-Safe zero i = search safe_rules depth 16
reset_from-Safe (suc n) i = Keeps-bind (sys (sigaction (number i) default)) _ (Safe-sys _) (λ r.
    Keeps-if (nonzero r.ret) _ (reset_from n (i + 1))
      (Keeps-if (is_einval r.errno) (reset_from n (i + 1)) (pure true) (reset_from-Safe n (i + 1))
        (Keeps-pure true))
      (reset_from-Safe n (i + 1)))

restore_signals-Safe : Safe restore_signals
unfolding restore_signals
restore_signals-Safe = search (safe_rules, any_fails-Safe, reset_from-Safe) depth 16

enter-Safe : (dir : Bytes) → Safe (enter dir)
unfolding enter
enter-Safe dir = search safe_rules depth 16

chdir_to_home-Safe : (pwd : Passwd) → Safe (chdir_to_home pwd)
unfolding chdir_to_home
chdir_to_home-Safe pwd = search (safe_rules, enter-Safe) depth 16

modify_ssh_tty-Safe : Safe modify_ssh_tty
unfolding modify_ssh_tty
modify_ssh_tty-Safe = search safe_rules depth 16

run_program-Safe : (args : Args) (pwd : Passwd) (v : List Bytes) → Safe (run_program args pwd v)
unfolding run_program
run_program-Safe args pwd v = search safe_rules depth 16

pub drop_privileges-Safe : (args : Args) → Safe (drop_privileges args)
unfolding drop_privileges
drop_privileges-Safe args = search (safe_rules, any_fails-Safe) depth 16

get_elem?-lt : (xs : List Bytes) (i : ℕ) → i < length xs → (x : Bytes) × (get_elem? xs i ≡ some x)
get_elem?-lt [] i h = absurd (omega arith)
get_elem?-lt (x ∷ xs) zero h = (x, refl)
get_elem?-lt (x ∷ xs) (suc i) h = get_elem?-lt xs i (omega arith)

get_element_lem :
    (a : Array Bytes) (i : ℕ)
    → i < a.count
    → length a.array ≡ a.count
    → (x : Bytes) × (get_element a i ≡ some x)
unfolding get_element
get_element_lem a i h e = let (x, found) = get_elem?-lt a.array i (omega arith) in (x, ground arith)

-- The loop over the received variables: every index below the count has an element.
put_permitted-Safe :
    (n i : ℕ) (env : Array Bytes)
    → i + n ≤ env.count
    → length env.array ≡ env.count
    → Safe (put_permitted n i env)
unfolding put_permitted
put_permitted-Safe zero i env h e = search safe_rules
put_permitted-Safe (suc n) i env h e =
    let (x, found) = get_element_lem env i (omega arith) e in
    rw (found, put_permitted, Safe)
      (Keeps-if (not (Environ.permitted x)) (put_permitted n (i + 1) env) _
        (put_permitted-Safe n (i + 1) env (omega arith) e)
        (Keeps-bind (call (putenv x)) _ (Safe-call _) (λ ret.
          Keeps-if (nonzero ret) (pure true) _ (Keeps-pure true)
            (put_permitted-Safe n (i + 1) env (omega arith) e))))

setup_envvars-Safe :
    (args : Args) (pwd : Passwd) (env : Array Bytes)
    → length env.array ≡ env.count
    → Safe (setup_envvars args pwd env)
unfolding setup_envvars get_count
setup_envvars-Safe args pwd env e =
    let put : Safe (put_permitted (get_count env) 0 env) =
      put_permitted-Safe env.count 0 env (omega arith) e in
    search (safe_rules, any_fails-Safe, modify_ssh_tty-Safe) depth 16

-- The shell that is started has a directory part.
abbrev pub HasSlash : Bytes → Type 0
HasSlash sh = (base : Bytes) × (after_last_slash sh ≡ some base)

construct_args-Safe :
    (args : Args) (pwd : Passwd) (argv : Array Bytes)
    → HasSlash (get_shell args pwd)
    → Safe (construct_args args pwd argv)
unfolding construct_args
construct_args-Safe args pwd argv (base, found) =
    rw (found, construct_args, Safe) (search safe_rules depth 16)

exec_vector-Safe :
    (args : Args) (pwd : Passwd) (v : Option (List Bytes)) → Safe (exec_vector args pwd v)
unfolding exec_vector
exec_vector-Safe args pwd none = search safe_rules
exec_vector-Safe args pwd (some v) =
    Keeps-bind (run_program args pwd v) _ (run_program-Safe args pwd v) (λ _. Keeps-exit 1)

exec_as-Safe :
    (args : Args) (pwd : Passwd) (argv env : Array Bytes)
    → HasSlash (get_shell args pwd)
    → length env.array ≡ env.count
    → Safe (exec_as args pwd argv env)
unfolding exec_as
exec_as-Safe args pwd argv env sh e =
    let vars : Safe (setup_envvars args pwd env) = setup_envvars-Safe args pwd env e in
    let vector : Safe (construct_args args pwd argv) = construct_args-Safe args pwd argv sh in
    search (safe_rules, chdir_to_home-Safe, exec_vector-Safe) depth 20

-- Every shell that the user database or the command line can name has a directory part.
abbrev pub ShellHasSlash : Args → Type 0
ShellHasSlash args = (pwd : Passwd) → HasSlash (get_shell args pwd)

exec_found-Safe :
    (args : Args) (found : Option Passwd) (argv env : Array Bytes)
    → ShellHasSlash args
    → length env.array ≡ env.count
    → Safe (exec_found args found argv env)
unfolding exec_found
exec_found-Safe args none argv env sh e = Keeps-exit 1
exec_found-Safe args (some pwd) argv env sh e = exec_as-Safe args pwd argv env (sh pwd) e

pub exec_child-Safe :
    (args : Args) (argv env : Array Bytes)
    → ShellHasSlash args
    → length env.array ≡ env.count
    → Safe (exec_child args argv env)
unfolding exec_child
exec_child-Safe args argv env sh e =
    let run : (found : Option Passwd) → Safe (exec_found args found argv env) =
      λ found. exec_found-Safe args found argv env sh e in
    search (safe_rules, restore_signals-Safe) depth 20
