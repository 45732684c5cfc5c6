-- ===== src/Server/Args/Ids.antt =====
-- The ids and the socket that `parse_args` lets through.
use jail.Base.{
  ◌-◌, ◌^◌, ◌<◌, ◌≡◌, ◌≢◌, refl, true, false, some, List, [], ◌∷◌, arith, length, minus_one,
}
use jail.Array.{Bytes}
use jail.Utility.{atoi32}
use jail.Server.Args.{
  Settings, Opt, console, help, version, invalid, uid, gid, name, root, shell, socket, mount, Given,
  parsed, path_max, to_id, defaults, set_option, check, parse_options, parse_args, socket_prefix,
}

-- What settings satisfy that were let through.
abbrev pub Checked : Given → Settings → Type 0
Checked g s =
    (g.left_over ≡ false)
    × (s.uid ≢ 0)
    × (s.gid ≢ 0)
    × (length s.socket < path_max)
    × ((prefix : Bytes) × (s.socket ≡ g.format prefix s.uid s.gid))

-- Settings that `check` lets through.
check_lem : (g : Given) (s s' : Settings) → check g s ≡ parsed s' → Checked g s'
unfolding check
check_lem g s s' e =
    (ground arith, ground arith, ground arith, ground arith, (s.socket, ground arith))

options_lem :
    (g : Given) (opts : List Opt) (s s' : Settings)
    → parse_options g opts s ≡ parsed s'
    → Checked g s'
unfolding parse_options
options_lem g [] s s' e = check_lem g s s' e
options_lem g (help ∷ opts) s s' e = cc
options_lem g (version ∷ opts) s s' e = cc
options_lem g (invalid ∷ opts) s s' e = cc
options_lem g (console ∷ opts) s s' e = options_lem g opts (set_option g console s) s' e
options_lem g (uid a ∷ opts) s s' e = options_lem g opts (set_option g (uid a) s) s' e
options_lem g (gid a ∷ opts) s s' e = options_lem g opts (set_option g (gid a) s) s' e
options_lem g (name a ∷ opts) s s' e = options_lem g opts (set_option g (name a) s) s' e
options_lem g (root a ∷ opts) s s' e = options_lem g opts (set_option g (root a) s) s' e
options_lem g (shell a ∷ opts) s s' e = options_lem g opts (set_option g (shell a) s) s' e
options_lem g (socket a ∷ opts) s s' e = options_lem g opts (set_option g (socket a) s) s' e
options_lem g (mount a ∷ opts) s s' e = options_lem g opts (set_option g (mount a) s) s' e

-- Settings that `parse_args` accepts have ids that are not 0 and a socket path made of a prefix and
-- these ids that fits into a path, and no words were left over.
pub parse_args-Checked :
    (g : Given) (opts : List Opt) (s : Settings) → parse_args g opts ≡ parsed s → Checked g s
unfolding parse_args
parse_args-Checked g opts s e = options_lem g opts (defaults g) s e

-- A user id that `atoi32` refuses is not refused: with `-u` alone, for a process whose group is not
-- the superuser's, the server runs with the user id 2^32 - 1, and with the group of the process.
pub bad_uid_accepted :
    (g : Given) (text : Bytes)
    → atoi32 g.strtol (some text) ≡ minus_one
    → g.left_over ≡ false
    → g.egid ≢ 0
    → length (g.format socket_prefix (2 ^ 32 - 1) g.egid) < path_max
    → g.strdup ≡ true
    → (s : Settings) × (parse_args g (uid text ∷ []) ≡ parsed s)
      × (s.uid ≡ 2 ^ 32 - 1)
      × (s.gid ≡ g.egid)
unfolding parse_args check set_option to_id
bad_uid_accepted g text bad lo ge short mem = (
  record (defaults g) { uid = 2 ^ 32 - 1; socket = g.format socket_prefix (2 ^ 32 - 1) g.egid },
  ground arith,
  refl,
  refl,
)
