-- ===== src/Server/Args.antt =====
-- `parse_args` of server/jaild.c. `getopt` is the C library's: the options that it finds, in order,
-- are the argument, and whether words are left over behind them (`optind < argc`). So are
-- `strtol`, the ids of the process, the text that `snprintf` makes of `"%s-%d-%d.sock"`, and the
-- allocator's answers.
pub mod Ids
use jail.Base.{
  ℕ, ◌+◌, ◌-◌, ◌%◌, ◌^◌, Bool, true, false, Option, none, some, List, [], ◌∷◌, ◌==◌, ◌||◌, leb,
  if◌then◌else◌, length, ℤ, pos, negsuc,
}
use jail.Array
use jail.Array.{Bytes, Array}
use jail.Environ.{ascii}
use jail.Utility.{Strtol, atoi32}

-- The variables that the options set.
pub record Settings : Type 0 where
  pub name : Option Bytes
  pub shell : Option Bytes
  pub uid : ℕ
  pub gid : ℕ
  pub root : Option Bytes
  pub socket : Bytes
  pub mounts : Array Bytes
  pub daemon : Bool

-- What `getopt` returns, with `optarg`.
pub data Opt : Type 0 where
  console help version invalid : Opt
  uid gid name root shell socket mount : Bytes → Opt

-- What the function is given.
pub record Given : Type 0 where
  pub euid : ℕ
  pub egid : ℕ
  pub left_over : Bool
  pub strtol : Bytes → Strtol
  pub format : Bytes → ℕ → ℕ → Bytes
  pub strdup : Bool
  pub realloc : Bool

-- The results 0, 1 and -1.
pub data Parsed : Type 0 where
  parsed : Settings → Parsed
  finished failed : Parsed

-- `kSocketPrefix`
abbrev pub socket_prefix : Bytes
socket_prefix = ascii "/tmp/jaild"

-- `PATH_MAX`
abbrev pub path_max : ℕ
path_max = 4096

-- An `int32_t` assigned to a `uid_t`, which is an unsigned number of 32 bits.
unfoldable pub to_id : ℤ → ℕ
to_id (pos n) = n % 2 ^ 32
to_id (negsuc n) = 2 ^ 32 - 1 - n

unfoldable pub defaults : Given → Settings
defaults g = record {
  name = none;
  shell = none;
  uid = g.euid;
  gid = g.egid;
  root = none;
  socket = socket_prefix;
  mounts = Array.initialize;
  daemon = true;
}

-- `array_push(&g_args_mounts, optarg)`, whose result is not looked at.
unfoldable pub add_mount : Given → Bytes → Settings → Settings
add_mount g entry s = elim (Array.push g.strdup g.realloc s.mounts entry) [
  | none ↦ s
  | some (ret, mounts) ↦ record s { mounts = mounts }
]

-- `g_args_uid = atoi32(optarg); if (g_args_gid <= 0) g_args_gid = g_args_uid;`
unfoldable pub set_uid : ℕ → Settings → Settings
set_uid id s = record s { uid = id; gid = if s.gid == 0 then id else s.gid }

-- A case of the `switch` that goes on.
unfoldable pub set_option : Given → Opt → Settings → Settings
unfolding set_uid add_mount
set_option g console s = record s { daemon = false }
set_option g (uid a) s = set_uid (to_id (atoi32 g.strtol (some a))) s
set_option g (gid a) s = record s { gid = to_id (atoi32 g.strtol (some a)) }
set_option g (name a) s = record s { name = some a }
set_option g (root a) s = record s { root = some a }
set_option g (shell a) s = record s { shell = some a }
set_option g (socket a) s = record s { socket = a }
set_option g (mount a) s = add_mount g a s
set_option g _ s = s

-- What follows the loop. An id is unsigned, so `<= 0` is `== 0`.
unfoldable pub check : Given → Settings → Parsed
check g s =
    if g.left_over || s.uid == 0 || s.gid == 0
    then failed
    else let path = g.format s.socket s.uid s.gid in
      if leb path_max (length path)
      then failed
      else if g.strdup
      then parsed (record s { socket = path })
      else failed

-- The loop over the options.
unfoldable pub parse_options : Given → List Opt → Settings → Parsed
unfolding check
parse_options g [] s = check g s
parse_options g (help ∷ opts) s = finished
parse_options g (version ∷ opts) s = finished
parse_options g (invalid ∷ opts) s = failed
parse_options g (opt ∷ opts) s = parse_options g opts (set_option g opt s)

unfoldable pub parse_args : Given → List Opt → Parsed
unfolding parse_options defaults
parse_args g opts = parse_options g opts (defaults g)
