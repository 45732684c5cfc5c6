-- ===== src/Tests/Exits.antt =====
-- A kernel that reports the exit of the program, and the loop that it ends.
use jail.Base.{
  ℕ, zero, suc, ◌≡◌, refl, false, true, some, [], ◌∷◌, inl, inr, pos, minus_one, negsuc, ◌==◌,
}
use jail.Posix.{World, Reply, Call, waitpid, write, pselect, done, echild}
use jail.Utility.{FdSet, fd_zero}
use jail.Child.{Child}
use jail.Child.Loop.{loop}
use jail.Child.Loop.Exit.{Reported, exit_ends_loop}
use jail.Tests.{reply}
use jail.Tests.Buffers.{six}
use jail.Tests.Processes.{args, child, abi}

-- One exit, then no child; writes succeed.
abbrev reporting : ℕ → Call → Reply
reporting zero waitpid = reply (pos 77) (0 ∷ 1 ∷ 0 ∷ 0 ∷ [])
reporting (suc t) waitpid = record (reply minus_one []) { errno = echild }
reporting t (write fd bytes) = reply (pos 8) []
reporting t c = reply (pos 0) []

abbrev dying : World
dying = record { kernel = reporting; now = 0; trace = [] }

-- After the handshake, and the alarm has rung.
abbrev parent : Child
parent = record child { handshaking = false; sigchld = true }

exit_ends_loop_example :
    (s : Child) × ((w : World) × ((loop abi args 3 4 (pos 5) fd_zero six parent dying
          ≡ done (some minus_one) s w)
        × Reported parent dying s w))
exit_ends_loop_example =
    exit_ends_loop abi args 2 2 76 (pos 5) fd_zero six parent dying (inr refl) refl refl refl
      (inl refl)

-- Descriptor 7 alone.
abbrev seven : FdSet
seven (pos n) = n == 7
seven (negsuc n) = false

-- The first `pselect` finds descriptor 7, which is at its end; the next one fails.
abbrev ending : ℕ → Call → Reply
ending zero (pselect max set) = record (reply (pos 1) []) { ready = seven }
ending (suc t) (pselect max set) = reply minus_one []
ending t c = reply (pos 0) []

abbrev drained : World
drained = record { kernel = ending; now = 0; trace = [] }

abbrev running : Child
running = record child { handshaking = false }
