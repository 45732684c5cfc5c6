-- ===== src/Client/Prepare/Request.antt =====
-- From the client's arguments and environment to the arrays that the server reads: all of
-- `client_prepare` of client/jail.c, against `child_parse` of server/child.c.
use jail.Base.{
  ℕ, ◌+◌, ◌*◌, ◌≡◌, refl, sym, ap, ◌∙◌, Bool-cases, inl, inr, not, if◌then◌else◌, Option, none,
  some, List, [], ◌∷◌, ◌++◌, append_assoc, append-nil, arith, length, ℤ, pos,
}
use jail.Posix.{M, stop, pure, World, Call, answer, done, ◌>>=◌, malloc, after}
use jail.Array
use jail.Array.{Bytes, Array}
use jail.Array.Push.{IsValid, initialize-IsValid, push-given, take_all}
use jail.Array.Write.{contents}
use jail.Environ
use jail.Client.{Client}
use jail.Client.Prepare.{nonzero, push, prepare_argv, prepare_env, prepare, serialize_both}
use jail.Client.Prepare.RoundTrip.{GivesMemory}

-- The entries that may pass.
abbrev pub permitted_only : List Bytes → List Bytes
permitted_only [] = []
permitted_only (x ∷ xs) =
    let rest = permitted_only xs in if not (Environ.permitted x) then rest else x ∷ rest

abbrev room_for : Bytes → Call
room_for x = malloc (length x + 1)

abbrev slots_for : Array Bytes → Call
slots_for a = malloc (8 * Array.grown (Array.get_count a))

-- `push` with the answers of the two calls.
push_answers :
    (a a' : Array Bytes) (x : Bytes) (s : Client) (w : World)
    → Array.push
        (nonzero (answer w (room_for x)).ret)
        (nonzero (answer (after w (room_for x)) (slots_for a)).ret)
        a
        x
      ≡ some (pos 0, a')
    → push a x s w ≡ done (pos 0, a') s (after (after w (room_for x)) (slots_for a))
unfolding push ◌>>=◌
push_answers a a' x s w e = ap (λ o. stored o s (after (after w (room_for x)) (slots_for a))) e
  where
    stored : Option (ℤ × Array Bytes) → M Client (ℤ × Array Bytes)
    stored o = elim o [ none ↦ stop | some r ↦ pure r ]

push-gives :
    (a : Array Bytes) (x : Bytes) (s : Client) (w : World)
    → GivesMemory w.kernel
    → IsValid a
    → (a' : Array Bytes) × (w' : World) × (push a x s w ≡ done (pos 0, a') s w')
      × (a'.array ≡ a.array ++ (x ∷ []))
      × IsValid a'
      × GivesMemory w'.kernel
push-gives a x s w m v =
    let (a', p, e, v') = push-given a x v in
    (
      a',
      after (after w (room_for x)) (slots_for a),
      push_answers a a' x s w (
          rw
            (
              m.gives w.now (length x + 1),
              m.gives (w.now + 1) (8 * Array.grown (Array.get_count a)),
            )
            p),
      e,
      v',
      record { gives = m.gives },
    )

prepare_argv_lem :
    (xs : List Bytes) (a : Array Bytes) (s : Client) (w : World)
    → GivesMemory w.kernel
    → IsValid a
    → (a' : Array Bytes) × (w' : World) × (prepare_argv xs a s w ≡ done (some a') s w')
      × (a'.array ≡ a.array ++ xs)
      × IsValid a'
      × GivesMemory w'.kernel
unfolding prepare_argv ◌>>=◌
prepare_argv_lem [] a s w m v = (a, w, refl, sym (append-nil a.array), v, m)
prepare_argv_lem (x ∷ xs) a s w m v =
    let (a', w', p, e, v', m') = push-gives a x s w m v in
    let (b, u, q, f, z, t) = prepare_argv_lem xs a' s w' m' v' in
    (b, u, rw (p, q) refl, f ∙ ap (λ t. t ++ xs) e ∙ append_assoc a.array (x ∷ []) xs, z, t)

prepare_env_lem :
    (xs : List Bytes) (a : Array Bytes) (s : Client) (w : World)
    → GivesMemory w.kernel
    → IsValid a
    → (a' : Array Bytes) × (w' : World) × (prepare_env xs a s w ≡ done (some a') s w')
      × (a'.array ≡ a.array ++ permitted_only xs)
      × IsValid a'
      × GivesMemory w'.kernel
unfolding prepare_env ◌>>=◌
prepare_env_lem [] a s w m v = (a, w, refl, sym (append-nil a.array), v, m)
prepare_env_lem (x ∷ xs) a s w m v = elim (Bool-cases (not (Environ.permitted x))) [
  | inl drop_it ↦ rw drop_it (prepare_env_lem xs a s w m v)
  | inr keep ↦
      let (a', w', p, e, v', m') = push-gives a x s w m v in
      let (b, u, q, f, z, t) = prepare_env_lem xs a' s w' m' v' in
      rw keep (
        b,
        u,
        rw (p, q) refl,
        f ∙ ap (λ t. t ++ permitted_only xs) e ∙ append_assoc a.array (x ∷ []) (permitted_only xs),
        z,
        t,
      )
]

contents_all : (a : Array Bytes) → IsValid a → contents a ≡ a.array
unfolding contents
contents_all a v = take_all a.array a.count (omega (arith, v.filled))

-- If memory is given, `client_prepare` serialises an array of all the arguments and an array of
-- exactly the entries of the environment that may pass, both in order.
pub prepare_lem :
    (c : Client) (w : World) (len offset : ℕ)
    → GivesMemory w.kernel
    → (a e : Array Bytes) × (w' : World) × (prepare len offset c w
        ≡ done (serialize_both a e len offset) c w')
      × (contents a ≡ c.argv)
      × (contents e ≡ permitted_only c.environ)
unfolding prepare ◌>>=◌ Array.initialize
prepare_lem c w len offset m =
    let (a, w1, p, f, v, m1) = prepare_argv_lem c.argv Array.initialize c w m initialize-IsValid in
    let (e, w2, q, g, u, _) =
      prepare_env_lem c.environ Array.initialize c w1 m1 initialize-IsValid in
    (a, e, w2, rw (p, q) refl, contents_all a v ∙ f, contents_all e u ∙ g)
