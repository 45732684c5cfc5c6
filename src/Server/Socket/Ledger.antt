-- ===== src/Server/Socket/Ledger.antt =====
-- What the calls of a process leave behind: its sockets, and the name of a socket in the file
-- system; and what `server_start` and `server_stop` of server/jaild.c do to them.
use jail.Base.{
  ap, ℕ, ◌+◌, ◌-◌, ◌≡◌, refl, Bool, true, false, Bool-cases, inl, inr, List, [], ◌∷◌, ◌==◌, ◌&&◌,
  eq→eqb, lt→leb, ◌∙◌, ◌==ℤ◌, zero, suc, ◌≤◌, ◌<◌, length, take, if◌then◌else◌, arith, ℤ, pos,
  negsuc, is_neg,
}
use jail.Posix.{
  World, Call, Reply, answer, after, ◌>>=◌, open_socket, accept, bind, close, unlink, chown, chmod,
  listen,
}
use jail.Posix.Rules.{Ends, Ends-bind}
use jail.Array.{Bytes}
use jail.Utility.Files.{set_non_blocking_mode}
use jail.Utility.Files.Flags.{modes_lem}
use jail.Child.{any_fails, nonzero}
use jail.Server.{Server}
use jail.Server.Args.{Settings}
use jail.Server.Socket.{publish, start_on, start, sun_path, sun_path_size, address_size}

-- A list without the first occurrence of a descriptor.
abbrev pub remove : ℤ → List ℤ → List ℤ
remove fd [] = []
remove fd (x ∷ xs) = let rest = remove fd xs in if x ==ℤ fd then xs else x ∷ rest

-- The descriptors opened or accepted and not closed, the newest first. close(2): the descriptor is
-- gone whatever the result.
abbrev pub sockets : List (Call × Reply) → List ℤ
sockets [] = []
sockets ((open_socket, r) ∷ calls) =
    let fds = sockets calls in if is_neg r.ret then fds else r.ret ∷ fds
sockets ((accept s, r) ∷ calls) =
    let fds = sockets calls in if is_neg r.ret then fds else r.ret ∷ fds
sockets ((close s, r) ∷ calls) = remove s (sockets calls)
sockets (_ ∷ calls) = sockets calls

abbrev same : Bytes → Bytes → Bool
same [] [] = true
same (x ∷ xs) (y ∷ ys) = x == y && same xs ys
same _ _ = false

same_refl : (xs : Bytes) → same xs xs ≡ true
same_refl [] = refl
same_refl (x ∷ xs) = rw (eq→eqb x x refl) (same_refl xs)

take_all : (n : ℕ) (xs : Bytes) → length xs ≤ n → take n xs ≡ xs
take_all zero [] h = refl
take_all (suc n) [] h = refl
take_all zero (x ∷ xs) h = absurd (omega (arith, h))
take_all (suc n) (x ∷ xs) h = ap (λ t. x ∷ t) (take_all n xs (omega (arith, h)))

-- Whether a socket was bound to this name, and nobody has asked to remove the name since. unix(7):
-- the path of an address is what its length covers behind the two bytes of the family.
abbrev pub is_linked : Bytes → List (Call × Reply) → Bool
is_linked name [] = false
is_linked name ((bind s path size, r) ∷ calls) =
    let b = is_linked name calls in
    if nonzero r.ret then b else if same (take (size - 2) path) name then true else b
is_linked name ((unlink path, r) ∷ calls) =
    let b = is_linked name calls in if same path name then false else b
is_linked name (_ ∷ calls) = is_linked name calls

-- The process has the sockets `fds`, and the name is there or not.
abbrev pub Holds : Bytes → List ℤ → Bool → World → Type 0
Holds name fds b w = (sockets w.trace ≡ fds) × (is_linked name w.trace ≡ b)

-- What `server_start` comes to.
abbrev pub Started : Bytes → List ℤ → ℤ → Server → World → Type 0
Started name fds ret s w =
    if is_neg ret then Holds name fds false w else Holds name (ret ∷ fds) true w

pub remove_head : (fd : ℤ) (fds : List ℤ) → remove fd (fd ∷ fds) ≡ fds
remove_head (pos n) fds = rw (eq→eqb n n refl) refl
remove_head (negsuc n) fds = rw (eq→eqb n n refl) refl

publish_lem :
    (fds : List ℤ) (g : Settings) (path : Bytes) (m : ℕ) (s : Server) (w : World)
    → Holds path (pos m ∷ fds) true w
    → Ends (Started path fds) (publish g path (pos m) s w)
unfolding publish any_fails ◌>>=◌
publish_lem fds g path m s w (h, k) = elim (Bool-cases (nonzero (answer w owned).ret)) [
  | inl a ↦ rw (a, Ends, same_refl path) (ap (remove (pos m)) h ∙ remove_head (pos m) fds, refl)
  | inr a ↦ elim (Bool-cases (nonzero (answer w1 allowed).ret)) [
    | inl b ↦
        rw (a, b, Ends, same_refl path) (ap (remove (pos m)) h ∙ remove_head (pos m) fds, refl)
    | inr b ↦ elim (Bool-cases (nonzero (answer w2 (listen (pos m) 10)).ret)) [
      | inl c ↦
          rw (a, b, c, Ends, same_refl path) (ap (remove (pos m)) h ∙ remove_head (pos m) fds, refl)
      | inr c ↦ rw (a, b, c, Ends) (h, k)
    ]
  ]
]
  where
    owned : Call
    owned = chown path g.uid g.gid

    w1 : World
    w1 = after w owned

    allowed : Call
    allowed = chmod path 384

    w2 : World
    w2 = after w1 allowed

mode_lem :
    (path : Bytes) (fds : List ℤ) (b : Bool) (fd : ℤ) (s : Server) (w : World)
    → Holds path fds b w
    → Ends (λ ret s' w'. Holds path fds b w') (set_non_blocking_mode fd s w)
mode_lem path fds b fd s w h = elim (modes_lem fd s w).0 [
  | inl (k, e, o) ↦ rw (o, Ends) h
  | inr (inl (options, e, set, o)) ↦ rw (o, Ends) h
  | inr (inr (options, word, e, clear, d, o)) ↦ rw (o, Ends) h
]

bound_lem :
    (fds : List ℤ) (g : Settings) (path : Bytes) (m : ℕ) (s : Server) (w : World)
    → length path < sun_path_size
    → Holds path (pos m ∷ fds) false w
    → Ends (Started path fds) (start_on g path (pos m) s w)
unfolding start_on ◌>>=◌
bound_lem fds g path m s w fits h =
    Ends-bind (Started path fds) (set_non_blocking_mode (pos m) s w) _
      (mode_lem path (pos m ∷ fds) false (pos m) s w h)
      (λ mode s1 w1 h1. elim (Bool-cases (nonzero mode)) [
        | inl bad ↦ rw (bad, Ends) (ap (remove (pos m)) h1.0 ∙ remove_head (pos m) fds, h1.1)
        | inr good ↦
            elim (Bool-cases
              (nonzero (answer w1 (bind (pos m) (sun_path path) (address_size path))).ret)) [
                | inl unbound ↦
                    rw (good, unbound, Ends)
                      (rw unbound (ap (remove (pos m)) h1.0 ∙ remove_head (pos m) fds, h1.1))
                | inr bound ↦
                    rw (good, bound, Ends)
                      (publish_lem fds g path m s1
                        (after w1 (bind (pos m) (sun_path path) (address_size path)))
                        (rw (bound, whole, covered, same_refl path) (h1.0, refl)))
              ]
      ])
  where
    whole : sun_path path ≡ path
    whole = unfold sun_path in take_all 107 path (omega (arith, fits))

    covered : take (address_size path - 2) path ≡ path
    covered =
        unfold address_size in
        rw (lt→leb sun_path_size (length path) fits)
          (take_all (length path + 2 - 2) path (omega arith))

-- With a path that fits into an address, and from a process with the sockets `fds` and without that
-- name, `server_start` ends. Where it fails, the process has exactly the same sockets, and the path
-- is not bound or was asked to be removed, on every branch; where it succeeds, it has one socket
-- more, the descriptor returned, and the path is bound as a whole.
pub start_lem :
    (fds : List ℤ) (g : Settings) (path : Bytes) (s : Server) (w : World)
    → length path < sun_path_size
    → Holds path fds false w
    → Ends (Started path fds) (start g path s w)
unfolding start ◌>>=◌
start_lem fds g path s w fits h = go (answer w open_socket).ret refl
  where
    go : (r : ℤ) → (answer w open_socket).ret ≡ r → Ends (Started path fds) (start g path s w)
    go (negsuc k) e = rw (e, Ends) (rw e h)
    go (pos m) e =
        rw (e, Ends)
          (bound_lem fds g path m s (after w open_socket) fits
            (rw e (ap (λ t. pos m ∷ t) h.0, h.1)))
