-- ===== src/Server/Signals.antt =====
-- The signal set-up of server/jaild.c.
use jail.Base.{ℕ, zero, suc, ◌+◌, Bool, true, false, [], ◌∷◌, if◌then◌else◌, ℤ, minus_one}
use jail.Posix.{
  M, ◌>>=◌, pure, sys, call, number, sighup, sigint, sigquit, sigterm, sigchld, ignore, handler,
  sigemptyset, sigaddset, sigprocmask, sigunblock, sigaction,
}
use jail.Child.{any_fails, nonzero, status_of}
use jail.Child.Signals.{nsig, is_einval}
use jail.Server.{Server}

-- `for (i = 1; i <= NSIG; ++i)` with `n` rounds left: whether a `sigaction` failed.
unfoldable pub ignore_from : ℕ → ℕ → M Server Bool
ignore_from zero i = pure false
ignore_from (suc n) i = do
  r ← sys (sigaction (number i) ignore)
  let rest = ignore_from n (i + 1)
  if nonzero r.ret then (if is_einval r.errno then rest else pure true) else rest

-- `server_initialize_signals_first`
unfoldable pub initialize_first : M Server ℤ
unfolding ignore_from any_fails
initialize_first = do
  mask ← call sigemptyset
  if nonzero mask then pure minus_one else do
    unset ← ignore_from nsig 1
    if unset then pure minus_one else do
      blocked ← any_fails (
          (nonzero, sigemptyset)
          ∷ (nonzero, sigaddset sigchld)
          ∷ (nonzero, sigaddset sighup)
          ∷ (nonzero, sigaddset sigint)
          ∷ (nonzero, sigaddset sigquit)
          ∷ (nonzero, sigaddset sigterm)
          ∷ (nonzero, sigprocmask (sigchld ∷ sighup ∷ sigint ∷ sigquit ∷ sigterm ∷ []))
          ∷ [])
      if blocked then pure minus_one else do
        unhandled ← any_fails (
            (nonzero, sigaction sighup handler)
            ∷ (nonzero, sigaction sigint handler)
            ∷ (nonzero, sigaction sigquit handler)
            ∷ (nonzero, sigaction sigterm handler)
            ∷ [])
        if unhandled then pure minus_one else do
          children ← any_fails ((nonzero, sigaction sigchld handler) ∷ [])
          pure (status_of children)

-- `server_initialize_signals_second`
unfoldable pub initialize_second : M Server ℤ
unfolding any_fails
initialize_second = do
  unset ← any_fails ((nonzero, sigaction sigquit ignore) ∷ (nonzero, sigaction sigterm ignore) ∷ [])
  if unset then pure minus_one else do
    blocked ← any_fails (
        (nonzero, sigemptyset)
        ∷ (nonzero, sigaddset sigquit)
        ∷ (nonzero, sigaddset sigterm)
        ∷ (nonzero, sigunblock (sigquit ∷ sigterm ∷ []))
        ∷ [])
    pure (status_of blocked)
