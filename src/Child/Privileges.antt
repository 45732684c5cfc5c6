-- ===== src/Child/Privileges.antt =====
-- `child_drop_privileges` of server/child.c.
use jail.Base.{◌≡◌, refl, ◌⊎◌, inl, inr, false, Bool-cases, pos, minus_one}
use jail.Posix.{World, done, Call, answer, after, ◌>>=◌, geteuid, setgroups, setgid, setuid}
use jail.Child.{Args, Child, any_fails, nonzero, drop_privileges}

-- The call succeeds.
abbrev pub Succeeds : World → Call → Type 0
Succeeds w c = nonzero (answer w c).ret ≡ false

-- Without an effective user id of 0 nothing is done. With it, `child_drop_privileges` either
-- returns -1, or it sets the groups, then the group id, then the user id, to the ids of the command
-- line; each of these calls succeeds, and it returns 0.
pub drop_privileges_lem :
    (args : Args) (s : Child) (w : World)
    → let w1 = after w geteuid in
      let w2 = after w1 (setgroups args.gid) in
      let w3 = after w2 (setgid args.gid) in
      let w4 = after w3 (setuid args.uid) in
      (¬ Succeeds w geteuid × (drop_privileges args s w ≡ done (pos 0) s w1))
      ⊎ (Succeeds w geteuid
          × ((failed : World) × (drop_privileges args s w ≡ done minus_one s failed)))
      ⊎ (Succeeds w geteuid
          × Succeeds w1 (setgroups args.gid)
          × Succeeds w2 (setgid args.gid)
          × Succeeds w3 (setuid args.uid)
          × (drop_privileges args s w ≡ done (pos 0) s w4))
unfolding drop_privileges any_fails ◌>>=◌
drop_privileges_lem args s w = elim (Bool-cases (nonzero (answer w geteuid).ret)) [
  | inl user ↦ inl (λ z. cc, rw user refl)
  | inr root ↦ elim (Bool-cases (nonzero (answer w1 (setgroups args.gid)).ret)) [
    | inl bad ↦ inr (inl (root, (w2, rw (root, bad) refl)))
    | inr groups ↦ elim (Bool-cases (nonzero (answer w2 (setgid args.gid)).ret)) [
      | inl bad ↦ inr (inl (root, (w3, rw (root, groups, bad) refl)))
      | inr group ↦ elim (Bool-cases (nonzero (answer w3 (setuid args.uid)).ret)) [
        | inl bad ↦ inr (inl (root, (w4, rw (root, groups, group, bad) refl)))
        | inr user ↦ inr (inr (root, groups, group, user, rw (root, groups, group, user) refl))
      ]
    ]
  ]
]
  where
    w1 : World
    w1 = after w geteuid

    w2 : World
    w2 = after w1 (setgroups args.gid)

    w3 : World
    w3 = after w2 (setgid args.gid)

    w4 : World
    w4 = after w3 (setuid args.uid)
