-- ===== src/Server/Mounts/Bind.antt =====
-- The entries of the option `-m` of server/jaild.c, and what `server_bind_mount` does with one.
use jail.Base.{
  ap, ℕ, ◌<◌, ◌≡◌, ◌≢◌, ◌⊎◌, refl, true, false, Bool-cases, inl, inr, Option, none, some, [], ◌∷◌,
  ◌++◌, leb, ◌==◌, ne→eqb, eqb→eq, lt→leb, sym, ◌∙◌, length, arith, ℤ, minus_one,
}
use jail.Posix.{World, Outcome, done, answer, after, ◌>>=◌, mount, bind_flag}
use jail.Array.{Bytes}
use jail.Child.{is_absolute}
use jail.Server.{Server}
use jail.Server.Args.{path_max}
use jail.Server.Mounts.{split_equals, place, bind_paths, bind_mount}

abbrev pub Lacks : Bytes → Type 0
Lacks [] = Unit
Lacks (c ∷ cs) = (c ≢ b'=') × Lacks cs

-- Where a path of the container is on the host.
abbrev pub Placed : Option Bytes → Bytes → Bytes → Type 0
Placed none jpath target = target ≡ jpath
Placed (some root) jpath target = (target ≡ root ++ (b'/' ∷ jpath)) × (length target < path_max)

-- `jpath=rpath`, two absolute paths.
abbrev pub Names : Option Bytes → Bytes → Bytes → Bytes → Type 0
Names root entry rpath target =
    (jpath : Bytes) × ((entry ≡ jpath ++ (b'=' ∷ rpath))
      × Lacks jpath
      × (is_absolute jpath ≡ true)
      × (is_absolute rpath ≡ true)
      × Placed root jpath target)

-- Some path is named.
abbrev pub IsNamed : Option Bytes → Bytes → Type 0
IsNamed root entry = (rpath : Bytes) × ((target : Bytes) × Names root entry rpath target)

split_at :
    (jpath rpath : Bytes)
    → Lacks jpath
    → split_equals (jpath ++ (b'=' ∷ rpath)) ≡ some (jpath, rpath)
unfolding split_equals
split_at [] rpath l = refl
split_at (c ∷ cs) rpath (n, l) = simp (ne→eqb c b'=' n, split_at cs rpath l)

ne_of : (c d : ℕ) → (c == d) ≡ false → c ≢ d
ne_of c d e h = ground arith

split-Lacks :
    (entry : Bytes)
    → (split_equals entry ≡ none)
      ⊎ ((jpath : Bytes) × ((rpath : Bytes) × ((split_equals entry ≡ some (jpath, rpath))
              × ((entry ≡ jpath ++ (b'=' ∷ rpath)) × Lacks jpath))))
unfolding split_equals
split-Lacks [] = inl refl
split-Lacks (c ∷ cs) = elim (Bool-cases (c == b'=')) [
  | inl e ↦ inr ([], (cs, (simp e refl, (ap (λ x. x ∷ cs) (eqb→eq c b'=' e), tt))))
  | inr e ↦ elim (split-Lacks cs) [
    | inl n ↦ inl (simp (e, n) refl)
    | inr (j, (r, (h, (eq, l)))) ↦
        inr (c ∷ j, (r, (simp (e, h) refl, (ap (λ t. c ∷ t) eq, (ne_of c b'=' e, l)))))
  ]
]

place-Placed :
    (root : Option Bytes) (jpath : Bytes)
    → (place root jpath ≡ none)
      ⊎ ((target : Bytes) × ((place root jpath ≡ some target) × Placed root jpath target))
unfolding place
place-Placed none jpath = inr (jpath, (refl, refl))
place-Placed (some root) jpath = elim (Bool-cases (leb path_max (length path))) [
  | inl long ↦ inl (simp long refl)
  | inr fits ↦ inr (path, (simp fits refl, (refl, (ground arith))))
]
  where
    path : Bytes
    path = root ++ (b'/' ∷ jpath)

Placed-place :
    (root : Option Bytes) (jpath target : Bytes)
    → Placed root jpath target
    → place root jpath ≡ some target
unfolding place
Placed-place none jpath target e = ap some (sym e)
Placed-place (some root) jpath target (e, f) =
    let fits : length (root ++ (b'/' ∷ jpath)) < path_max = rw⁻¹ e f in
    simp (lt→leb path_max (length (root ++ (b'/' ∷ jpath))) fits, e) refl

-- The one call.
abbrev pub mounted : Bytes → Bytes → Server → World → Outcome Server ℤ
mounted rpath target s w =
    let c = mount rpath target none (bind_flag ∷ []) in done (answer w c).ret s (after w c)

absolute_entry :
    (jpath rest : Bytes) → is_absolute jpath ≡ true → is_absolute (jpath ++ rest) ≡ true
absolute_entry (c ∷ cs) rest e = e
absolute_entry [] rest e = absurd (ground arith)

pub bind_named :
    (root : Option Bytes) (entry rpath target : Bytes) (s : Server) (w : World)
    → Names root entry rpath target
    → bind_mount root entry s w ≡ mounted rpath target s w
unfolding bind_mount bind_paths ◌>>=◌
bind_named root entry rpath target s w (jpath, (e, l, a, b, p)) =
    simp
      (
        e,
        absolute_entry jpath (b'=' ∷ rpath) a,
        split_at jpath rpath l,
        b,
        Placed-place root jpath target p,
      )
      refl

abbrev moment : Outcome Server ℤ → ℕ
moment (done ret s w) = w.now
moment _ = 0

unnamed :
    (root : Option Bytes) (entry : Bytes) (s : Server) (w : World)
    → bind_mount root entry s w ≡ done minus_one s w
    → ¬ IsNamed root entry
unnamed root entry s w e (rpath, (target, named)) =
    let called = ap moment (sym (bind_named root entry rpath target s w named) ∙ e) in
    omega (arith, called)

absolute_path :
    (jpath rpath : Bytes) → is_absolute (jpath ++ (b'=' ∷ rpath)) ≡ true → is_absolute jpath ≡ true
absolute_path (c ∷ cs) rpath e = e
absolute_path [] rpath e = absurd (ground arith)

refused :
    (root : Option Bytes) (entry : Bytes) (s : Server) (w : World)
    → bind_mount root entry s w ≡ done minus_one s w
    → (¬ IsNamed root entry) × (bind_mount root entry s w ≡ done minus_one s w)
refused root entry s w e = (unnamed root entry s w e, e)

-- `server_bind_mount` on any argument: either the argument is `jpath=rpath`, split at its first
-- equals sign, with two absolute paths and a place for the first that fits, and the function makes
-- exactly one call, the bind mount of `rpath` at that place, whose result it returns; or the
-- argument is nothing of the kind, and it returns -1 without a call.
pub bind_mount_lem :
    (root : Option Bytes) (entry : Bytes) (s : Server) (w : World)
    → ((rpath : Bytes) × ((target : Bytes) × (Names root entry rpath target
            × (bind_mount root entry s w ≡ mounted rpath target s w))))
      ⊎ ((¬ IsNamed root entry) × (bind_mount root entry s w ≡ done minus_one s w))
unfolding bind_mount bind_paths ◌>>=◌
bind_mount_lem root entry s w = elim (Bool-cases (is_absolute entry)) [
  | inr relative ↦ inr (refused root entry s w (simp relative refl))
  | inl starts ↦ elim (split-Lacks entry) [
    | inl n ↦ inr (refused root entry s w (simp (starts, n) refl))
    | inr (j, (r, (h, (e, l)))) ↦ elim (Bool-cases (is_absolute r)) [
      | inr relative ↦ inr (refused root entry s w (simp (starts, h, relative) refl))
      | inl a ↦ elim (place-Placed root j) [
        | inl long ↦ inr (refused root entry s w (simp (starts, h, a, long) refl))
        | inr (target, (q, p)) ↦
            let named : Names root entry r target =
              (j, (e, l, absolute_path j r (rw⁻¹ e starts), a, p)) in
            inl (r, (target, (named, bind_named root entry r target s w named)))
      ]
    ]
  ]
]
