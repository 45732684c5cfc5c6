-- ===== src/Server/Mounts.antt =====
-- The steps of server/jaild.c that make the container: `server_bind_mount`, `server_mount_dev` and
-- the `server_daemonize_…`. A path that `snprintf` puts together is the text of its parts.
pub mod Bind
pub mod Plan
pub mod Container
use jail.Base.{
  ℕ, zero, suc, ◌+◌, ◌-◌, Bool, true, false, Option, none, some, List, [], ◌∷◌, ◌++◌, leb, not,
  ◌||◌, ◌&&◌, ◌==◌, if◌then◌else◌, length, ℤ, pos, minus_one, is_neg, is_zero, ◌==ℤ◌,
}
use jail.Posix.{
  M, ◌>>=◌, ◌>>◌, pure, get, call, stop, Call, mount, umount, chroot, chdir, setsid, open_file,
  dup2, close, bind_flag, nosuid, noexec, nodev,
}
use jail.Array
use jail.Array.{Bytes, Array}
use jail.Environ.{ascii}
use jail.Child.{any_fails, nonzero, status_of, is_absolute}
use jail.Server.{Server}
use jail.Server.Args.{Settings, path_max}

-- `strchr(entry, '=')`: what stands in front of it and behind it.
unfoldable pub split_equals : Bytes → Option (Bytes × Bytes)
split_equals [] = none
split_equals (c ∷ cs) =
    let rest = split_equals cs in
    if c == b'=' then some ([], cs) else elim rest [ none ↦ none | some (a, b) ↦ some (c ∷ a, b) ]

-- The path in the container as the host sees it, if it fits.
unfoldable pub place : Option Bytes → Bytes → Option Bytes
place none jpath = some jpath
place (some root) jpath =
    let path = root ++ (b'/' ∷ jpath) in if leb path_max (length path) then none else some path

-- `server_bind_mount` with the two paths.
unfoldable pub bind_paths : Option Bytes → Bytes × Bytes → M Server ℤ
unfolding place
bind_paths root (jpath, rpath) =
    if not (is_absolute rpath) then pure minus_one else elim (place root jpath) [
      | none ↦ pure minus_one
      | some target ↦ call (mount rpath target none (bind_flag ∷ []))
    ]

-- `server_bind_mount`. The source puts a zero byte over the equals sign of the stored entry, which
-- no later step of the process reads.
unfoldable pub bind_mount : Option Bytes → Bytes → M Server ℤ
unfolding split_equals bind_paths
bind_mount root entry =
    if not (is_absolute entry)
    then pure minus_one
    else elim (split_equals entry) [ none ↦ pure minus_one | some paths ↦ bind_paths root paths ]

-- The loop of `server_daemonize_bind_mount` with `n` rounds left. A null entry would be read.
unfoldable pub bind_from : Settings → ℕ → ℕ → M Server ℤ
unfolding bind_mount
bind_from g zero i = pure (pos 0)
bind_from g (suc n) i = elim (Array.get_element g.mounts i) [
  | none ↦ stop
  | some entry ↦ do
    ret ← bind_mount g.root entry
    let rest = bind_from g n (i + 1)
    if nonzero ret then pure minus_one else rest
]

-- `server_daemonize_bind_mount`
unfoldable pub bind_mounts : Settings → M Server ℤ
unfolding bind_from
bind_mounts g = bind_from g (Array.get_count g.mounts) 0

-- `server_mount_dev`
unfoldable pub mount_dev : Bytes → M Server ℤ
mount_dev root =
    let path = root ++ ascii "/dev" in
    if leb path_max (length path) then pure minus_one else do
      ret ← call (mount (ascii "/dev") path none (bind_flag ∷ []))
      pure (status_of (nonzero ret))

-- `server_daemonize_chroot`, of a root; its first assertion is on `g_server_clone`.
unfoldable pub daemonize_chroot : Bytes → M Server ℤ
unfolding mount_dev any_fails
daemonize_chroot root = do
  s ← get
  if not s.clone then stop else do
    dev ← mount_dev root
    if nonzero dev then pure minus_one else do
      outside ← any_fails ((nonzero, chdir root) ∷ (nonzero, chroot root) ∷ [])
      if outside then pure minus_one else do
        call (umount (ascii "/dev/pts"))
        call (umount (ascii "/proc"))
        call (umount (ascii "/sys"))
        failed ← any_fails (
            (
              nonzero,
              mount (ascii "devpts") (ascii "/dev/pts") (some (ascii "devpts"))
                  (nosuid ∷ noexec ∷ []),
            )
            ∷ (
              nonzero,
              mount (ascii "proc") (ascii "/proc") (some (ascii "proc"))
                  (nosuid ∷ noexec ∷ nodev ∷ []),
            )
            ∷ (
              nonzero,
              mount (ascii "sysfs") (ascii "/sys") (some (ascii "sysfs"))
                  (nosuid ∷ noexec ∷ nodev ∷ []),
            )
            ∷ [])
        pure (status_of failed)

-- The remount of `/proc` in a new namespace without a root of its own.
unfoldable pub remount_proc : Settings → M Server Bool
remount_proc g = do
  s ← get
  if not s.clone then pure false else elim g.root [
    | some root ↦ pure false
    | none ↦ do
      call (umount (ascii "/proc"))
      ret ← call (
          mount (ascii "proc") (ascii "/proc") (some (ascii "proc")) (nosuid ∷ nodev ∷ noexec ∷ []))
      pure (nonzero ret)
  ]

-- `server_daemonize_third`
unfoldable pub daemonize_third : Settings → M Server ℤ
unfolding remount_proc bind_mounts daemonize_chroot
daemonize_third g = do
  session ← call setsid
  if is_neg session then pure minus_one else do
    unmounted ← remount_proc g
    if unmounted then pure minus_one else do
      bound ← bind_mounts g
      if nonzero bound then pure minus_one else elim g.root [
        | none ↦ pure (pos 0)
        | some root ↦ do inside ← daemonize_chroot root; pure (status_of (nonzero inside))
      ]

-- `server_daemonize_second`
unfoldable pub daemonize_second : M Server ℤ
daemonize_second = do
  session ← call setsid
  if is_neg session then pure minus_one else do
    s ← call (open_file (ascii "/dev/null"))
    if is_neg s then pure minus_one else do
      call (dup2 s 0)
      call (dup2 s 1)
      call (dup2 s 2)
      if s ==ℤ pos 0 || s ==ℤ pos 1 || s ==ℤ pos 2
          then pure (pos 0)
          else do call (close s); pure (pos 0)

-- `for (i = 3; i < 64; ++i) close(i);` with `n` rounds left.
unfoldable pub close_from : ℕ → ℕ → M Server Unit
close_from zero i = pure tt
close_from (suc n) i = do call (close (pos i)); close_from n (i + 1)

-- `server_daemonize_first`
unfoldable pub daemonize_first : M Server ℤ
unfolding close_from
daemonize_first = do close_from 61 3; ret ← call (chdir (ascii "/")); pure (status_of (nonzero ret))
