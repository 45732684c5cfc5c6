-- ===== src/Server/Mounts/Container.antt =====
-- `server_daemonize_third` and the functions that it calls: they carry out the plan.
use jail.Base.{
  ap, ℕ, zero, suc, ◌+◌, ◌<◌, ◌≡◌, refl, Bool, true, false, Bool-cases, inl, inr, Option, none,
  some, List, [], ◌∷◌, ◌++◌, map, drop, get_elem?, length-drop, lt→leb, length, not, if◌then◌else◌,
  arith, ℤ, pos, is_neg,
}
use jail.Posix.{
  World, Outcome, done, M, Call, call, pure, stop, answer, after, ◌>>=◌, ◌>>◌, mount, umount,
  setsid, bind_flag, nosuid, noexec, nodev,
}
use jail.Array
use jail.Array.{Bytes, Array}
use jail.Environ.{ascii}
use jail.Child.{any_fails, nonzero, status_of}
use jail.Server.{Server}
use jail.Server.Args.{Settings, path_max}
use jail.Server.Mounts.{
  bind_mount, bind_from, bind_mounts, mount_dev, daemonize_chroot, remount_proc, daemonize_third,
}
use jail.Server.Mounts.Bind.{bind_named}
use jail.Server.Mounts.Plan.{
  attempt, any_fails-attempt, bind_step, proc_steps, root_steps, new_mounts, dev_steps, enter_steps,
  fresh_steps, plan, Named, Rooted, planned, after_steps, after_planned, after_call, called,
  last_steps, last_planned,
}

get_elem?-drop :
    (xs : List Bytes) (i : ℕ) (e : Bytes) (es : List Bytes)
    → drop i xs ≡ e ∷ es
    → get_elem? xs i ≡ some e
get_elem?-drop [] zero e es h = absurd (ground (arith, h))
get_elem?-drop [] (suc i) e es h = absurd (ground (arith, h))
get_elem?-drop (x ∷ xs) zero e es h = cc h
get_elem?-drop (x ∷ xs) (suc i) e es h = get_elem?-drop xs i e es h

element :
    (a : Array Bytes) (i : ℕ) (e : Bytes) (es : List Bytes)
    → i < a.count
    → drop i a.array ≡ e ∷ es
    → Array.get_element a i ≡ some e
unfolding Array.get_element
element a i e es h d = rw (lt→leb a.count i h) (get_elem?-drop a.array i e es d)

drop_next :
    (xs : List Bytes) (i : ℕ) (e : Bytes) (es : List Bytes)
    → drop i xs ≡ e ∷ es
    → drop (suc i) xs ≡ es
drop_next [] zero e es h = absurd (ground (arith, h))
drop_next [] (suc i) e es h = absurd (ground (arith, h))
drop_next (x ∷ xs) zero e es h = cc h
drop_next (x ∷ xs) (suc i) e es h = drop_next xs i e es h

module _ (s : Server) where
  mount_dev_lem :
      (root : Bytes) (w : World)
      → length (root ++ ascii "/dev") < path_max
      → mount_dev root s w ≡ planned (dev_steps root) s w
  unfolding mount_dev attempt ◌>>=◌
  mount_dev_lem root w fits =
      rw (lt→leb path_max (length (root ++ ascii "/dev")) fits)
        (elim (Bool-cases (
          nonzero
            (answer w (mount (ascii "/dev") (root ++ ascii "/dev") none (bind_flag ∷ []))).ret)) [
              | inl bad ↦ rw bad refl
              | inr good ↦ rw good refl
            ])

  guarded :
      (b : Bool) (m k : M Server ℤ) (w : World) (o : Outcome Server ℤ)
      → b ≡ true
      → k s w ≡ o
      → (if not b then m else k) s w ≡ o
  guarded true m k w o e h = h
  guarded false m k w o e h = absurd (ground arith)

  chroot_lem :
      (root : Bytes) (w : World)
      → s.clone ≡ true
      → length (root ++ ascii "/dev") < path_max
      → daemonize_chroot root s w ≡ planned (root_steps (some root)) s w
  unfolding daemonize_chroot attempt ◌>>=◌
  chroot_lem root w c fits = guarded s.clone stop _ w (planned (root_steps (some root)) s w) c (
      after_planned s (dev_steps root) (enter_steps root ++ fresh_steps) (mount_dev root) _ w
        (mount_dev_lem root w fits)
        (λ w1.
          after_steps s (enter_steps root) fresh_steps (any_fails (enter_steps root)) _ w1
            (any_fails-attempt (enter_steps root) s w1)
            (λ w2. last_steps s new_mounts (
              after (after (after w2 (umount (ascii "/dev/pts"))) (umount (ascii "/proc")))
                (umount (ascii "/sys"))))))

  remount_lem :
      (g : Settings) (w : World)
      → remount_proc g s w
        ≡ done (attempt (proc_steps g.root s.clone) w).0 s (attempt (proc_steps g.root s.clone) w).1
  unfolding remount_proc attempt ◌>>=◌
  remount_lem g w = go g.root s.clone
    where
      new_proc : Call
      new_proc =
          mount (ascii "proc") (ascii "/proc") (some (ascii "proc")) (nosuid ∷ nodev ∷ noexec ∷ [])

      go :
          (root : Option Bytes) (clone : Bool)
          → (if not clone then pure false else elim root [
            | some path ↦ pure false
            | none ↦ call (umount (ascii "/proc")) >> (call new_proc >>= λ ret. pure (nonzero ret))
          ])
              s w
            ≡ done (attempt (proc_steps root clone) w).0 s (attempt (proc_steps root clone) w).1
      go none false = refl
      go (some path) false = refl
      go (some path) true = refl
      go none true =
          elim (Bool-cases (nonzero (answer (after w (umount (ascii "/proc"))) new_proc).ret)) [
            | inl bad ↦ rw bad refl
            | inr good ↦ rw good refl
          ]

  bind_from_lem :
      (g : Settings) (n i : ℕ) (entries : List Bytes) (binds : List (Bytes × Bytes)) (w : World)
      → length g.mounts.array ≡ g.mounts.count
      → n + i ≡ g.mounts.count
      → drop i g.mounts.array ≡ entries
      → Named g.root entries binds
      → bind_from g n i s w ≡ planned (map bind_step binds) s w
  unfolding bind_from attempt ◌>>=◌
  bind_from_lem g zero i [] [] w l c d h = refl
  bind_from_lem g zero i [] (b ∷ binds) w l c d h = absurd h
  bind_from_lem g zero i (e ∷ es) binds w l c d h =
      absurd (omega (arith, ap length d, length-drop i g.mounts.array, l, c))
  bind_from_lem g (suc n) i [] binds w l c d h =
      absurd (omega (arith, ap length d, length-drop i g.mounts.array, l, c))
  bind_from_lem g (suc n) i (e ∷ es) [] w l c d h = absurd h
  bind_from_lem g (suc n) i (e ∷ es) ((rpath, target) ∷ binds) w l c d (named, h) =
      let next : i + 1 ≡ suc i = omega arith in
      rw (bind_from, element g.mounts i e es (omega (arith, c)) d)
        (after_call s nonzero (mount rpath target none (bind_flag ∷ [])) (map bind_step binds)
          (bind_mount g.root e) (bind_from g n (i + 1)) w
          (bind_named g.root e rpath target s w named)
          (λ w'.
            bind_from_lem g n (i + 1) es binds w' l (omega (arith, c))
              (rw next (drop_next g.mounts.array i e es d)) h))

  root_lem :
      (root : Option Bytes) (w : World)
      → Rooted root s.clone
      → (elim root as (λ x. M Server ℤ) [
        | none ↦ pure (pos 0)
        | some path ↦ (daemonize_chroot path >>= λ inside. pure (status_of (nonzero inside)))
      ])
          s w
        ≡ planned (root_steps root) s w
  unfolding attempt ◌>>=◌
  root_lem none w r = refl
  root_lem (some root) w (c, fits) =
      last_planned s (root_steps (some root)) (daemonize_chroot root) w (chroot_lem root w c fits)

-- With a root only in a namespace of its own, a path for its `/dev` that fits, and entries of the
-- option `-m` that name their pairs of paths, `server_daemonize_third` fails no assertion and makes
-- exactly the calls of the plan, in its order, up to the first that must not fail and does; it
-- returns -1 if there is one and 0 if there is none.
pub daemonize_third_lem :
    (g : Settings) (binds : List (Bytes × Bytes)) (s : Server) (w : World)
    → length g.mounts.array ≡ g.mounts.count
    → Named g.root g.mounts.array binds
    → Rooted g.root s.clone
    → daemonize_third g s w ≡ planned (plan g.root s.clone binds) s w
unfolding daemonize_third bind_mounts Array.get_count
daemonize_third_lem g binds s w l h r =
    after_call s is_neg setsid
      (proc_steps g.root s.clone ++ (map bind_step binds ++ root_steps g.root)) (call setsid) _ w
      (called s setsid w)
      (λ w1.
        after_steps s (proc_steps g.root s.clone) (map bind_step binds ++ root_steps g.root)
          (remount_proc g) _ w1 (remount_lem s g w1)
          (λ w2.
            after_planned s (map bind_step binds) (root_steps g.root) (bind_from g g.mounts.count 0)
              _ w2
              (bind_from_lem s g g.mounts.count 0 g.mounts.array binds w2 l (omega arith) refl h)
              (λ w3. root_lem s g.root w3 r)))
