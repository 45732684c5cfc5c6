-- ===== src/Client/Main/Exit.antt =====
-- The end of the program of client/jail.c: its exit code and the terminal.
use jail.Base.{
  ℕ, ◌≡◌, refl, ap, false, Bool-cases, inl, inr, Option, none, some, ◌∷◌, leb, length,
  if◌then◌else◌, ℤ, pos, is_neg, is_zero,
}
use jail.Posix.{
  World, Reply, ◌>>=◌, Libc, answer, after, isatty, get_attributes, atexit, getenv, getuid, getgid,
}
use jail.Array.{Bytes}
use jail.Message.{Abi, Message}
use jail.Environ.{ascii}
use jail.Utility.{fd_zero}
use jail.Utility.Files.{int_of_bytes}
use jail.Child.{nonzero}
use jail.Server.Args.{socket_prefix, path_max}
use jail.Client.{Client}
use jail.Client.Loop.{loop}
use jail.Client.Main.{
  reset, initialize_signals, initialize_stream, initialize_terminal, initialize, start, end_main,
  converse, run_client, main,
}
use jail.Client.Remote.{dispatch}
use jail.Client.Remote.Status.{Reports, dispatch_lem}
use jail.Client.Main.Initial.{Leaves, no_status, initialize-Leaves}
use jail.Client.Main.Steady.{
  terminal_calls, Partly, Partly-bind, Steady, any_fails-Steady, start-Steady, steady_rules,
}
use jail.Client.Main.Steady.Relay.{loop-Steady}
use jail.Client.Main.Restored.{
  Calls, Prepared, Finished, raw_calls, Steady-Prepared, then-Finished, leave_lem,
}

module _ (libc : Libc) (before : Calls) where
  end_main_lem :
      (ret : Option ℤ) (s : Client) (w : World)
      → Prepared libc before s w
      → Finished libc before (end_main libc ret s w)
  unfolding end_main ◌>>=◌
  end_main_lem none s w h = tt
  end_main_lem (some ret) s w h = elim (Bool-cases (nonzero ret)) [
    | inl bad ↦ rw bad (leave_lem libc before 255 s w (inl refl) h)
    | inr good ↦ elim (Bool-cases (libc.is_exited (int_of_bytes s.status))) [
      | inl e ↦
          rw (good, e)
            (leave_lem libc before (libc.exit_status (int_of_bytes s.status)) s w (inr (e, refl)) h)
      | inr n ↦ rw (good, n) (leave_lem libc before 255 s w (inl refl) h)
    ]
  ]

  converse_lem :
      (abi : Abi) (rounds : ℕ) (path : Bytes) (s : Client) (w : World)
      → Prepared libc before s w
      → Finished libc before (converse abi libc rounds path s w)
  unfolding converse ◌>>=◌
  converse_lem abi rounds path s w h =
      then-Finished libc before (start abi path s w) _
        (Steady-Prepared libc before (start abi path) (start-Steady abi path) s w h)
        (λ fd s1 w1 h1. elim (Bool-cases (is_neg fd)) [
          | inl bad ↦ rw bad (leave_lem libc before 255 s1 w1 (inl refl) h1)
          | inr good ↦ rw good (
              then-Finished libc before
                (loop abi rounds fd fd_zero (record { buflen = 0; buffer = λ i. 0 }) s1 w1) _
                (Steady-Prepared libc before
                  (loop abi rounds fd fd_zero (record { buflen = 0; buffer = λ i. 0 }))
                  (loop-Steady abi rounds fd fd_zero (record { buflen = 0; buffer = λ i. 0 })) s1 w1
                  h1)
                (λ ret s2 w2 h2. end_main_lem ret s2 w2 h2))
        ])

run_lem :
    (abi : Abi) (libc : Libc) (before : Calls) (rounds : ℕ) (s : Client) (w : World)
    → Prepared libc before s w
    → Finished libc before (run_client abi libc rounds s w)
unfolding run_client ◌>>=◌
run_lem abi libc before rounds s w h = elim (Bool-cases (leb path_max (length path))) [
  | inl long ↦ rw long (leave_lem libc before 255 s w3 (inl refl) h)
  | inr fits ↦ rw fits (converse_lem libc before abi rounds path s w3 h)
]
  where
    w1 : World
    w1 = after w (getenv (ascii "SOCKET"))

    w2 : World
    w2 = after w1 getuid

    w3 : World
    w3 = after w2 getgid

    named : Reply
    named = answer w (getenv (ascii "SOCKET"))

    path : Bytes
    path =
        libc.format (if is_zero named.ret then socket_prefix else named.bytes)
          (answer w1 getuid).ret (answer w2 getgid).ret

initialize_signals-Steady : Steady initialize_signals
unfolding initialize_signals
initialize_signals-Steady = search (steady_rules, any_fails-Steady)

initialize_stream-Steady : (libc : Libc) → Steady (initialize_stream libc)
unfolding initialize_stream
initialize_stream-Steady libc = search steady_rules depth 16

module _ (libc : Libc) (before : Calls) where
  terminal_lem :
      (s : Client) (w : World)
      → s.restores ≡ false
      → terminal_calls w.trace ≡ before
      → Partly (λ a s' w'. Prepared libc before s' w') (initialize_terminal libc s w)
  unfolding initialize_terminal ◌>>=◌
  terminal_lem s w h e = elim (Bool-cases (nonzero got.ret)) [
    | inl unread ↦
        rw (unread, Partly) (inl (h, inr (got, ap (λ cs. (get_attributes (pos 0), got) ∷ cs) e)))
    | inr had ↦ elim (Bool-cases (nonzero (answer w1 atexit).ret)) [
      | inl unregistered ↦
          rw (had, unregistered, Partly)
            (inl (h, inr (got, ap (λ cs. (get_attributes (pos 0), got) ∷ cs) e)))
      | inr registered ↦
          rw (had, registered, Partly)
            (inr (got, (_, (refl, refl, refl, ap (raw_calls libc got _) e))))
    ]
  ]
    where
      got : Reply
      got = answer w (get_attributes (pos 0))

      w1 : World
      w1 = after w (get_attributes (pos 0))

  initialize_lem :
      (s : Client) (w : World)
      → s.restores ≡ false
      → terminal_calls w.trace ≡ before
      → Partly (λ a s' w'. Prepared libc before s' w') (initialize libc s w)
  unfolding initialize reset ◌>>=◌
  initialize_lem s w h e =
      Partly-bind _ (initialize_signals (reset s) w) _
        (initialize_signals-Steady.on
          (record { tty = false; termp = s.termp; restores = false; calls = before }) (reset s) w
          (refl, refl, h, e))
        (λ signals s1 w1 k. elim (Bool-cases (nonzero signals)) [
          | inl bad ↦ rw (bad, Partly) (inl (k.2, inl k.3))
          | inr good ↦ elim (Bool-cases (nonzero (answer w1 (isatty (pos 0))).ret)) [
            | inl tty ↦ rw (good, tty) (terminal_lem s1 (after w1 (isatty (pos 0))) k.2 k.3)
            | inr stream ↦
                rw (good, stream)
                  (Steady-Prepared libc before (initialize_stream libc)
                    (initialize_stream-Steady libc) s1 (after w1 (isatty (pos 0)))
                    (inl (k.2, inl k.3)))
          ]
        ])

finished_lem :
    (abi : Abi) (libc : Libc) (rounds : ℕ) (s : Client) (w : World)
    → s.restores ≡ false
    → Finished libc (terminal_calls w.trace) (main abi libc rounds s w)
unfolding main ◌>>=◌
finished_lem abi libc rounds s w h =
    then-Finished libc (terminal_calls w.trace) (initialize libc s w) _
      (initialize_lem libc (terminal_calls w.trace) s w h refl)
      (λ failed s1 w1 k. elim (Bool-cases (nonzero failed)) [
        | inl bad ↦ rw bad (leave_lem libc (terminal_calls w.trace) 255 s1 w1 (inl refl) k)
        | inr good ↦ rw good (run_lem abi libc (terminal_calls w.trace) rounds s1 w1 k)
      ])

-- Whenever the client ends by itself, started without an exit handler, its exit code is 255 or the
-- exit code in the variable `g_client_status`, and then that is the status of an `exit`. At that
-- moment it has made no call that sets a terminal's attributes, or exactly two, after reading them:
-- it set the raw form, and last it set back what it had read. `client_initialize` returns with -1
-- in the variable. `client_dispatch_remote` stores the four bytes behind the header in it, succeeds
-- and has the loop end, for a status message of at least five bytes; for any other message it
-- leaves the client's variables as they are.
pub main_lem :
    (abi : Abi) (libc : Libc) (rounds : ℕ) (s : Client) (w : World)
    → s.restores ≡ false
    → Finished libc (terminal_calls w.trace) (main abi libc rounds s w)
      × Leaves no_status (initialize libc s w)
      × ((msg : Message) (c : Client) (now : World) → Reports msg c (dispatch msg c now))
main_lem abi libc rounds s w h =
    (finished_lem abi libc rounds s w h, initialize-Leaves libc s w, dispatch_lem)
