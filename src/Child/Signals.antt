-- ===== src/Child/Signals.antt =====
-- The signal set-up of server/child.c, and its handlers, which run only while `pselect` waits.
use jail.Base.{ℕ, zero, suc, ◌+◌, ◌-◌, Bool, true, false, [], ◌∷◌, if◌then◌else◌, ℤ, minus_one}
use jail.Posix.{
  M, ◌>>=◌, ◌>>◌, pure, sys, call, Reply, Errno, einval, number, sigchld, sigalrm, sigpipe, default,
  ignore, handler, sigemptyset, sigaddset, sigprocmask, sigaction,
}
use jail.Child.{Child, any_fails, nonzero, status_of}

-- `NSIG` of the C library
abbrev pub nsig : ℕ
nsig = 65

-- `errno != EINVAL`
unfoldable pub is_einval : Errno → Bool
is_einval einval = true
is_einval _ = false

-- `for (i = 1; i < NSIG; ++i)` with `n` rounds left: whether a `sigaction` failed.
unfoldable pub reset_from : ℕ → ℕ → M Child Bool
unfolding is_einval
reset_from zero i = pure false
reset_from (suc n) i = do
  r ← sys (sigaction (number i) default)
  let rest = reset_from n (i + 1)
  if nonzero r.ret then (if is_einval r.errno then rest else pure true) else rest

pub sigalrm_handler : Child → Child
sigalrm_handler s = record s { sigalrm = true }

pub sigchld_handler : Child → Child
sigchld_handler s = record s { sigchld = true }

-- The handlers that run during a call.
unfoldable pub run_handlers : Reply → Child → Child
unfolding sigalrm_handler sigchld_handler
run_handlers r s =
    let s' = if r.handled_first then sigalrm_handler s else s in
    if r.handled_second then sigchld_handler s' else s'

unfoldable pub initialize_signals : M Child ℤ
unfolding any_fails reset_from
initialize_signals = do
  mask ← call sigemptyset
  if nonzero mask then pure minus_one else do
    unset ← reset_from (nsig - 1) 1
    if unset then pure minus_one else do
      unblocked ← any_fails (
          (nonzero, sigemptyset)
          ∷ (nonzero, sigaddset sigalrm)
          ∷ (nonzero, sigaddset sigchld)
          ∷ (nonzero, sigprocmask (sigalrm ∷ sigchld ∷ []))
          ∷ [])
      if unblocked then pure minus_one else do
        call sigemptyset
        unhandled ← any_fails (
            (nonzero, sigaction sigpipe ignore)
            ∷ (nonzero, sigaction sigalrm handler)
            ∷ (nonzero, sigaction sigchld handler)
            ∷ [])
        pure (status_of unhandled)

unfoldable pub restore_signals : M Child ℤ
unfolding any_fails reset_from
restore_signals = do
  empty ← any_fails ((nonzero, sigemptyset) ∷ (nonzero, sigemptyset) ∷ [])
  if empty then pure minus_one else do
    unmasked ← call (sigprocmask [])
    if nonzero unmasked
        then pure minus_one
        else do unset ← reset_from (nsig - 1) 1; pure (status_of unset)
