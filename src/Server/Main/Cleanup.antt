-- ===== src/Server/Main/Cleanup.antt =====
-- The end of the server of server/jaild.c: the wait for the container and the end of `main`.
use jail.Base.{
  ℕ, zero, suc, ◌+◌, ◌≡◌, ◌⊎◌, refl, true, Bool-cases, inl, inr, Option, none, some, List, [], ◌∷◌,
  not, ◌&&◌, ◌==◌, ◌==ℤ◌, if◌then◌else◌, ℤ, pos, minus_one, is_neg, arith,
}
use jail.Posix.{
  World, Call, Reply, Outcome, done, exited, Libc, answer, after, ◌>>=◌, kill, sigkill, sigcont,
  waitpid, sigemptyset, sigsuspend, unlink, set_process_ids, close,
}
use jail.Posix.Rules.{Returns, Returns-bind}
use jail.Environ.{ascii}
use jail.Message.{Abi}
use jail.Utility.Files.{int_of_bytes}
use jail.Child.{nonzero}
use jail.Child.Loop.{is_eintr}
use jail.Server.{Server, run_handlers}
use jail.Server.Args.{Settings}
use jail.Server.Main.{
  Rounds, wait_from, wait_for_child, forward_sigterm, destroy, end_main, babysit,
}

-- The two signals were sent last.
abbrev pub Destroyed : ℤ → List (Call × Reply) → Type 0
Destroyed pid trace =
    (calls : List (Call × Reply)) × ((first : Reply) × ((second : Reply) × (trace
          ≡ (kill pid sigcont, second) ∷ (kill pid sigkill, first) ∷ calls)))

-- The last call told that `pid` ended with `status`.
abbrev pub Reported : ℤ → ℤ → List (Call × Reply) → Type 0
Reported pid status trace =
    (calls : List (Call × Reply)) × ((r : Reply) × ((trace ≡ (waitpid, r) ∷ calls)
        × (((r.ret ==ℤ pid) ≡ true) × (status ≡ int_of_bytes r.bytes))))

-- How often the process slept.
abbrev pub sleeps : List (Call × Reply) → ℕ
sleeps [] = 0
sleeps ((sigsuspend, r) ∷ calls) = sleeps calls + 1
sleeps (_ ∷ calls) = sleeps calls

-- What a wait comes to; while it is running, the process has slept `n` times.
abbrev Waited : ℤ → ℕ → Option ℤ → World → Type 0
Waited pid n none w = sleeps w.trace ≡ n
Waited pid n (some ret) w = (Destroyed pid w.trace × (ret ≡ minus_one)) ⊎ Reported pid ret w.trace

forward_lem :
    (pid : ℤ) (s : Server) (w : World)
    → Returns (λ u s' w'. sleeps w'.trace ≡ sleeps w.trace) (forward_sigterm pid s w)
unfolding forward_sigterm ◌>>=◌
forward_lem pid s w = elim (Bool-cases s.sigterm) [
  | inl set ↦ simp set refl
  | inr clear ↦ simp clear refl
]

destroy_lem :
    (pid : ℤ) (n : ℕ) (s : Server) (w : World)
    → Returns (λ ret s' w'. Waited pid n ret w') (destroy pid s w)
unfolding destroy ◌>>=◌
destroy_lem pid n s w = inl ((w.trace, (_, (_, refl))), refl)

wait_from_lem :
    (rounds : ℕ) (pid : ℤ) (n : ℕ) (s : Server) (w : World)
    → sleeps w.trace + rounds ≡ n
    → Returns (λ ret s' w'. Waited pid n ret w') (wait_from rounds pid s w)
unfolding wait_from ◌>>=◌
wait_from_lem zero pid n s w h = omega (arith, h)
wait_from_lem (suc rounds) pid n s w h =
    Returns-bind (Returns (λ ret s' w'. Waited pid n ret w')) (forward_sigterm pid s w) _
      (forward_lem pid s w)
      (λ u s1 w1 same. elim (Bool-cases (is_neg (answer w1 waitpid).ret)) [
        | inl gone ↦ rw gone (destroy_lem pid n s1 (after w1 waitpid))
        | inr here ↦ elim (Bool-cases ((answer w1 waitpid).ret ==ℤ pid)) [
          | inl ended ↦
              rw (here, ended, Returns) (inr (w1.trace, (answer w1 waitpid, (refl, (ended, refl)))))
          | inr other ↦
              let w2 = after w1 waitpid in
              elim (Bool-cases (
                is_neg (answer w2 sigsuspend).ret && not (is_eintr (answer w2 sigsuspend).errno))) [
                  | inl bad ↦
                      rw (here, other, bad)
                        (destroy_lem pid n (run_handlers (answer w2 sigsuspend) s1)
                          (after w2 sigsuspend))
                  | inr woken ↦
                      rw (here, other, woken)
                        (wait_from_lem rounds pid n (run_handlers (answer w2 sigsuspend) s1)
                          (after w2 sigsuspend) (omega (arith, same, h)))
                ]
        ]
      ])

wait_for_child_lem :
    (rounds : ℕ) (pid : ℤ) (s : Server) (w : World)
    → Returns
        (λ ret s' w'. Waited pid (sleeps w.trace + rounds) ret w')
        (wait_for_child rounds pid s w)
unfolding wait_for_child ◌>>=◌
wait_for_child_lem rounds pid s w = elim (Bool-cases (nonzero (answer w sigemptyset).ret)) [
  | inl bad ↦ rw bad (destroy_lem pid (sleeps w.trace + rounds) s (after w sigemptyset))
  | inr good ↦
      rw good (wait_from_lem rounds pid (sleeps w.trace + rounds) s (after w sigemptyset) refl)
]

-- How the program ends, after the calls `trace`.
abbrev pub Verdict : Libc → ℤ → ℕ → List (Call × Reply) → Type 0
Verdict libc pid code trace =
    ((code ≡ 1) × Destroyed pid trace)
    ⊎ ((status : ℤ) × (Reported pid status trace
          × (code ≡ (
              if not (is_neg status) && libc.is_exited status && (libc.exit_status status == 0)
              then 0
              else 1))))

-- The process that waits is still waiting after `n` naps, or it ended with its code.
abbrev pub Guarded : Libc → Settings → ℤ → ℕ → Outcome Server (Option ℕ) → Type 0
Guarded libc g pid n (done none s w) = sleeps w.trace ≡ n
Guarded libc g pid n (exited code s w) =
    (calls : List (Call × Reply)) × ((r : Reply) × ((w.trace ≡ (unlink g.socket, r) ∷ calls)
        × Verdict libc pid code calls))
Guarded libc g pid n _ = ⊥

end_main_lem :
    (abi : Abi) (libc : Libc) (g : Settings) (n : Rounds) (pid : ℤ) (m : ℕ) (ret : Option ℤ)
    (s : Server) (w : World)
    → Waited pid m ret w
    → Guarded libc g pid m (end_main abi libc g n ret s w)
unfolding end_main ◌>>=◌
end_main_lem abi libc g n pid m none s w h = h
end_main_lem abi libc g n pid m (some ret) s w (inl (d, e)) =
    (w.trace, (answer w (unlink g.socket), (refl, inl (rw e refl, d))))
end_main_lem abi libc g n pid m (some ret) s w (inr r) =
    (w.trace, (answer w (unlink g.socket), (refl, inr (ret, (r, ground arith)))))

-- In `main` the process that has started the server, whose number is not negative, always cleans
-- up. After at most `rounds` rounds of its wait it has ended, and then its last call asked to remove
-- the socket's name; or every round slept and waits on. Its exit code is 0 if the call before told
-- that the server exited with code 0; it is 1 if that told something else, or if the wait failed,
-- and then the two calls before were the signals that kill the server.
pub babysit_lem :
    (abi : Abi) (libc : Libc) (g : Settings) (n : Rounds) (socket : ℤ) (pid : ℕ) (s : Server)
    (w : World)
    → Guarded libc g
        (pos pid)
        (sleeps w.trace + n.rounds)
        (babysit abi libc g n socket (some (pos pid)) s w)
unfolding babysit ◌>>=◌
babysit_lem abi libc g n socket pid s w =
    Returns-bind (Guarded libc g (pos pid) m) (wait_for_child n.rounds (pos pid) s w1)
      (λ ret. end_main abi libc g n ret) (wait_for_child_lem n.rounds (pos pid) s w1)
      (λ ret s1 w2 h. end_main_lem abi libc g n (pos pid) m ret s1 w2 h)
  where
    m : ℕ
    m = sleeps w.trace + n.rounds

    w1 : World
    w1 = after (after w (set_process_ids (ascii "babysitter [%d:%d]") g.uid g.gid)) (close socket)
