-- ===== src/Server/Main/Waiting.antt =====
-- The wait for the server of server/jaild.c comes to an end.
use jail.Base.{
  ℕ, zero, suc, ◌+◌, ◌≤◌, ◌<◌, ◌≡◌, true, false, Bool-cases, inl, inr, Option, none, some, not,
  ◌&&◌, ◌==ℤ◌, leb, arith, ℤ, pos, is_neg,
}
use jail.Posix.{
  World, Call, Reply, Outcome, exited, Libc, answer, after, ◌>>=◌, waitpid, sigsuspend, sigemptyset,
  set_process_ids, close,
}
use jail.Posix.Rules.{Returns, Returns-bind}
use jail.Environ.{ascii}
use jail.Message.{Abi}
use jail.Child.{nonzero}
use jail.Child.Loop.{is_eintr}
use jail.Server.{Server, run_handlers}
use jail.Server.Args.{Settings}
use jail.Server.Main.{
  Rounds, wait_from, wait_for_child, forward_sigterm, destroy, end_main, babysit,
}

-- The child `pid` ends: waitpid(2) does not fail while there is a child, sigsuspend(2) only comes
-- back with EINTR, and from the moment `last` on the child is reported.
pub record Ending (last : ℕ) (pid : ℤ) (kernel : ℕ → Call → Reply) : Type 0 where
  pub waits : (t : ℕ) → is_neg (kernel t waitpid).ret ≡ false
  pub wakes :
      (t : ℕ)
      → (is_neg (kernel t sigsuspend).ret && not (is_eintr (kernel t sigsuspend).errno)) ≡ false
  pub reports : (t : ℕ) → last ≤ t → ((kernel t waitpid).ret ==ℤ pid) ≡ true

abbrev IsSome : Option ℤ → Type 0
IsSome none = ⊥
IsSome (some ret) = Unit

abbrev pub IsExited : Outcome Server (Option ℕ) → Type 0
IsExited (exited code s w) = Unit
IsExited _ = ⊥

module _ (last : ℕ) (pid : ℤ) where
  early_lem :
      (kernel : ℕ → Call → Reply)
      → Ending last pid kernel
      → (t : ℕ) → ((kernel t waitpid).ret ==ℤ pid) ≡ false
      → t < last
  early_lem kernel e t other = elim (Bool-cases (leb last t)) [
    | inl h ↦ let reported = e.reports t (ground arith) in absurd (cc (reported, other))
    | inr h ↦ ground arith
  ]

  forward_later :
      (s : Server) (w : World)
      → Ending last pid w.kernel
      → Returns (λ u s' w'. Ending last pid w'.kernel × (w.now ≤ w'.now)) (forward_sigterm pid s w)
  unfolding forward_sigterm ◌>>=◌
  forward_later s w e = elim (Bool-cases s.sigterm) [
    | inl set ↦ simp set (e, omega arith)
    | inr clear ↦ simp clear (e, omega arith)
  ]

  destroy_ends : (s : Server) (w : World) → Returns (λ ret s' w'. IsSome ret) (destroy pid s w)
  unfolding destroy ◌>>=◌
  destroy_ends s w = tt

  wait_from_ends :
      (rounds : ℕ) (s : Server) (w : World)
      → Ending last pid w.kernel
      → 0 < rounds
      → last < w.now + rounds
      → Returns (λ ret s' w'. IsSome ret) (wait_from rounds pid s w)
  unfolding wait_from ◌>>=◌
  wait_from_ends zero s w e h k = absurd (omega (arith, h))
  wait_from_ends (suc rounds) s w e h k =
      Returns-bind (Returns (λ ret s' w'. IsSome ret)) (forward_sigterm pid s w) _
        (forward_later s w e)
        (λ u s1 w1 (e1, later). elim (Bool-cases ((answer w1 waitpid).ret ==ℤ pid)) [
          | inl ended ↦ rw (e1.waits w1.now, ended, Returns) tt
          | inr other ↦
              let w2 = after w1 waitpid in
              let early = early_lem w1.kernel e1 w1.now other in
              rw (e1.waits w1.now, other, e1.wakes w2.now)
                (wait_from_ends rounds (run_handlers (answer w2 sigsuspend) s1)
                  (after w2 sigsuspend) e1 (omega (arith, early, later, k))
                  (omega (arith, early, later, k)))
        ])

  wait_for_child_ends :
      (rounds : ℕ) (s : Server) (w : World)
      → Ending last pid w.kernel
      → 0 < rounds
      → last < w.now + rounds
      → Returns (λ ret s' w'. IsSome ret) (wait_for_child rounds pid s w)
  unfolding wait_for_child ◌>>=◌
  wait_for_child_ends rounds s w e h k = elim (Bool-cases (nonzero (answer w sigemptyset).ret)) [
    | inl bad ↦ rw bad (destroy_ends s (after w sigemptyset))
    | inr good ↦ rw good (wait_from_ends rounds s (after w sigemptyset) e h (omega (arith, k)))
  ]

end_main-IsExited :
    (abi : Abi) (libc : Libc) (g : Settings) (n : Rounds) (ret : Option ℤ) (s : Server) (w : World)
    → IsSome ret
    → IsExited (end_main abi libc g n ret s w)
unfolding end_main ◌>>=◌
end_main-IsExited abi libc g n none s w h = h
end_main-IsExited abi libc g n (some ret) s w h = tt

-- If the server ends and is reported to the process that waits for it, that process exits: from some
-- moment on the child is reported, and the wait has at least one round and more rounds than there
-- are moments up to this one.
pub babysit-IsExited :
    (abi : Abi) (libc : Libc) (g : Settings) (n : Rounds) (last : ℕ) (socket : ℤ) (pid : ℕ)
    (s : Server) (w : World)
    → Ending last (pos pid) w.kernel
    → 0 < n.rounds
    → last < w.now + n.rounds
    → IsExited (babysit abi libc g n socket (some (pos pid)) s w)
unfolding babysit ◌>>=◌
babysit-IsExited abi libc g n last socket pid s w e h k =
    Returns-bind IsExited (wait_for_child n.rounds (pos pid) s w1)
      (λ ret. end_main abi libc g n ret)
      (wait_for_child_ends last (pos pid) n.rounds s w1 e h (omega (arith, k)))
      (λ ret s1 w2 j. end_main-IsExited abi libc g n ret s1 w2 j)
  where
    w1 : World
    w1 = after (after w (set_process_ids (ascii "babysitter [%d:%d]") g.uid g.gid)) (close socket)
