-- ===== src/Server/Mounts/Plan.antt =====
-- What the steps of server/jaild.c that make the container should be: a list of calls; and rules for
-- the functions that carry such lists out.
use jail.Base.{
  ◌<◌, ◌≡◌, refl, Bool, true, false, Bool-cases, inl, inr, Option, none, some, List, [], ◌∷◌, ◌++◌,
  map, length, if◌then◌else◌, ℤ, minus_one, is_neg,
}
use jail.Posix.{
  World, Outcome, done, M, Call, call, pure, answer, after, ◌>>=◌, mount, umount, chroot, chdir,
  setsid, bind_flag, nosuid, noexec, nodev,
}
use jail.Array.{Bytes}
use jail.Environ.{ascii}
use jail.Child.{any_fails, nonzero, status_of}
use jail.Server.{Server}
use jail.Server.Args.{path_max}
use jail.Server.Mounts.Bind.{Names}

-- A call, with the results that end the work.
abbrev pub Step : Type 0
Step = (ℤ → Bool) × Call

abbrev pub never : ℤ → Bool
never ret = false

-- The steps in order up to the first that fails: whether one did, and the world then.
unfoldable pub attempt : List Step → World → Bool × World
attempt [] w = (false, w)
attempt ((fails, c) ∷ steps) w =
    let rest = attempt steps (after w c) in
    if fails (answer w c).ret then (true, after w c) else rest

pub attempt-append :
    (xs ys : List Step) (w : World)
    → attempt (xs ++ ys) w
      ≡ (if (attempt xs w).0 then attempt xs w else attempt ys (attempt xs w).1)
unfolding attempt
attempt-append [] ys w = refl
attempt-append ((fails, c) ∷ xs) ys w = elim (Bool-cases (fails (answer w c).ret)) [
  | inl bad ↦ rw bad refl
  | inr good ↦ rw good (attempt-append xs ys (after w c))
]

pub any_fails-attempt :
    (steps : List Step) (s : Server) (w : World)
    → any_fails steps s w ≡ done (attempt steps w).0 s (attempt steps w).1
unfolding attempt any_fails ◌>>=◌
any_fails-attempt [] s w = refl
any_fails-attempt ((fails, c) ∷ steps) s w = elim (Bool-cases (fails (answer w c).ret)) [
  | inl bad ↦ rw bad refl
  | inr good ↦ rw good (any_fails-attempt steps s (after w c))
]

-- The bind mounts, pairs of a path on the host and its place.
abbrev pub bind_step : Bytes × Bytes → Step
bind_step (rpath, target) = (nonzero, mount rpath target none (bind_flag ∷ []))

abbrev pub proc_steps : Option Bytes → Bool → List Step
proc_steps none true =
    (never, umount (ascii "/proc"))
    ∷ (
      nonzero,
      mount (ascii "proc") (ascii "/proc") (some (ascii "proc")) (nosuid ∷ nodev ∷ noexec ∷ []),
    )
    ∷ []
proc_steps _ _ = []

abbrev pub new_mounts : List Step
new_mounts =
    (
      nonzero,
      mount (ascii "devpts") (ascii "/dev/pts") (some (ascii "devpts")) (nosuid ∷ noexec ∷ []),
    )
    ∷ (
      nonzero,
      mount (ascii "proc") (ascii "/proc") (some (ascii "proc")) (nosuid ∷ noexec ∷ nodev ∷ []),
    )
    ∷ (
      nonzero,
      mount (ascii "sysfs") (ascii "/sys") (some (ascii "sysfs")) (nosuid ∷ noexec ∷ nodev ∷ []),
    )
    ∷ []

abbrev pub dev_steps : Bytes → List Step
dev_steps root = (nonzero, mount (ascii "/dev") (root ++ ascii "/dev") none (bind_flag ∷ [])) ∷ []

abbrev pub enter_steps : Bytes → List Step
enter_steps root = (nonzero, chdir root) ∷ (nonzero, chroot root) ∷ []

abbrev pub fresh_steps : List Step
fresh_steps =
    (never, umount (ascii "/dev/pts"))
    ∷ (never, umount (ascii "/proc"))
    ∷ (never, umount (ascii "/sys"))
    ∷ new_mounts

abbrev pub root_steps : Option Bytes → List Step
root_steps none = []
root_steps (some root) = dev_steps root ++ (enter_steps root ++ fresh_steps)

-- The whole plan: a new session, `/proc` of a new namespace, the mounts of the options, the root.
abbrev pub plan : Option Bytes → Bool → List (Bytes × Bytes) → List Step
plan root clone binds =
    (is_neg, setsid) ∷ (proc_steps root clone ++ (map bind_step binds ++ root_steps root))

-- Each entry of the option `-m` names its pair.
abbrev pub Named : Option Bytes → List Bytes → List (Bytes × Bytes) → Type 0
Named root [] [] = Unit
Named root (entry ∷ entries) ((rpath, target) ∷ binds) =
    Names root entry rpath target × Named root entries binds
Named root _ _ = ⊥

-- A root has a namespace of its own, and its `/dev` has a path.
abbrev pub Rooted : Option Bytes → Bool → Type 0
Rooted none clone = Unit
Rooted (some root) clone = (clone ≡ true) × (length (root ++ ascii "/dev") < path_max)

-- The outcome of a function that carries out steps.
abbrev pub planned : List Step → Server → World → Outcome Server ℤ
planned steps s w = done (status_of (attempt steps w).0) s (attempt steps w).1

module _ (s : Server) where
  pub after_steps :
      (xs ys : List Step) (m : M Server Bool) (k : M Server ℤ) (w : World)
      → m s w ≡ done (attempt xs w).0 s (attempt xs w).1
      → ((w' : World) → k s w' ≡ planned ys s w')
      → (m >>= (λ failed. if failed then pure minus_one else k)) s w ≡ planned (xs ++ ys) s w
  unfolding ◌>>=◌
  after_steps xs ys m k w e rest = elim (Bool-cases (attempt xs w).0) [
    | inl bad ↦ rw (e, attempt-append xs ys w, bad) refl
    | inr good ↦ rw (e, attempt-append xs ys w, good) (rest (attempt xs w).1)
  ]

  pub after_planned :
      (xs ys : List Step) (m k : M Server ℤ) (w : World)
      → m s w ≡ planned xs s w
      → ((w' : World) → k s w' ≡ planned ys s w')
      → (m >>= (λ ret. if nonzero ret then pure minus_one else k)) s w ≡ planned (xs ++ ys) s w
  unfolding ◌>>=◌
  after_planned xs ys m k w e rest = elim (Bool-cases (attempt xs w).0) [
    | inl bad ↦ rw (e, attempt-append xs ys w, bad) refl
    | inr good ↦ rw (e, attempt-append xs ys w, good) (rest (attempt xs w).1)
  ]

  pub after_call :
      (fails : ℤ → Bool) (c : Call) (ys : List Step) (m k : M Server ℤ) (w : World)
      → m s w ≡ done (answer w c).ret s (after w c)
      → ((w' : World) → k s w' ≡ planned ys s w')
      → (m >>= (λ ret. if fails ret then pure minus_one else k)) s w ≡ planned ((fails, c) ∷ ys) s w
  unfolding attempt ◌>>=◌
  after_call fails c ys m k w e rest = elim (Bool-cases (fails (answer w c).ret)) [
    | inl bad ↦ rw (e, bad) refl
    | inr good ↦ rw (e, good) (rest (after w c))
  ]

  pub called : (c : Call) (w : World) → call c s w ≡ done (answer w c).ret s (after w c)
  unfolding ◌>>=◌
  called c w = refl

  pub last_steps :
      (xs : List Step) (w : World)
      → (any_fails xs >>= (λ failed. pure (status_of failed))) s w ≡ planned xs s w
  unfolding ◌>>=◌
  last_steps xs w = rw (any_fails-attempt xs s w) refl

  pub last_planned :
      (xs : List Step) (m : M Server ℤ) (w : World)
      → m s w ≡ planned xs s w
      → (m >>= (λ ret. pure (status_of (nonzero ret)))) s w ≡ planned xs s w
  unfolding ◌>>=◌
  last_planned xs m w e = elim (Bool-cases (attempt xs w).0) [
    | inl bad ↦ rw (e, bad) refl
    | inr good ↦ rw (e, good) refl
  ]
