-- ===== src/Cmdline.antt =====
-- common/cmdline.c: the title of a process, which is written over its arguments and environment.
--
-- `Text` is a string with its address. The memory from `argv[0]` on is a byte at each index, of
-- which `size` may be written; a write past them is a fault, `none`. What `vsnprintf` makes of a
-- format and its arguments is a parameter (`none` for a negative result), and so are `basename` and
-- the answers of `malloc`, in order.
pub mod Stores
pub mod Write
pub mod Extent
use jail.Base.{
  ℕ, zero, suc, ◌+◌, ◌-◌, ◌*◌, Bool, true, false, Option, none, some, List, [], ◌∷◌, ◌++◌, not,
  ◌||◌, ltb, leb, ◌==◌, if◌then◌else◌, length, take, map, ℤ, pos, minus_one,
}
use jail.Array.{Bytes}
use jail.Message.{Memory, store}

-- `g_arg_name` (whether it is set, and the memory that it points to), `g_max_length`, `g_prefix` and
-- `g_module_arg`.
pub record Title : Type 0 where
  pub is_named : Bool
  pub area : Memory
  pub size : ℕ
  pub max_length : ℕ
  pub prefix : Bytes
  pub module_arg : Option Bytes

-- `g_prefix_length`
abbrev pub prefix_length : Title → ℕ
prefix_length t = length t.prefix

-- A write of bytes at an offset.
unfoldable pub put : ℕ → ℕ → Bytes → Memory → Option Memory
put size offset bytes m =
    if leb (offset + length bytes) size then some (store m offset bytes) else none

abbrev pub zeros : ℕ → Bytes
zeros zero = []
zeros (suc n) = 0 ∷ zeros n

-- The format and whether the prefix is written; `none` is a null format without a name to restore.
unfoldable pub chosen : Option Bytes → Title → Option (Bytes × Bool)
chosen none t = elim t.module_arg [ none ↦ none | some name ↦ some (name, false) ]
chosen (some []) t = some ([], not (prefix_length t == 0))
chosen (some (c ∷ fmt)) t =
    if c == b'-' then some (fmt, false) else some (c ∷ fmt, not (prefix_length t == 0))

-- `off` after the prefix.
unfoldable pub prefix_room : Bool → Title → ℕ
prefix_room with_prefix t =
    if with_prefix
    then (if leb (prefix_length t) t.max_length then prefix_length t else t.max_length)
    else 0

-- `vsnprintf(g_arg_name + off, max + 1, …)` of a text and the `memset` behind it.
unfoldable pub write_text : ℕ → Bytes → Title → Memory → Option Memory
unfolding put
write_text off text t m =
    let max = t.max_length - off in
    let end = off + (if ltb (length text) max then length text else max) in
    elim (put t.size off (take max text ++ (0 ∷ [])) m) [
      | none ↦ none
      | some m1 ↦ put t.size end (zeros (t.max_length - end)) m1
    ]

-- From `with_prefix` on.
unfoldable pub write_title : (Bytes → Option Bytes) → Bytes × Bool → Title → Option (ℤ × Title)
unfolding prefix_room write_text put
write_title print (fmt, with_prefix) t =
    let off = prefix_room with_prefix t in
    elim (put t.size 0 (take off t.prefix) t.area) [
      | none ↦ none
      | some m ↦ elim (print fmt) [
        | none ↦ some (minus_one, record t { area = m })
        | some text ↦ elim (write_text off text t m) [
          | none ↦ none
          | some m' ↦ some (pos 0, record t { area = m' })
        ]
      ]
    ]

-- `cmdline_set_process_name`
unfoldable pub set_process_name : (Bytes → Option Bytes) → Option Bytes → Title → Option (ℤ × Title)
unfolding chosen write_title
set_process_name print fmt t =
    if t.max_length == 0 || not t.is_named
    then some (minus_one, t)
    else elim (chosen fmt t) [ none ↦ none | some c ↦ write_title print c t ]

-- `cmdline_malloc`: what is left of the static buffer, and how often `malloc` was called.
pub record Heap : Type 0 where
  pub left : ℕ
  pub calls : ℕ

unfoldable pub alloc : (ℕ → Bool) → ℕ → Heap → Bool × Heap
alloc malloc size h =
    if ltb h.left size
    then (malloc h.calls, record h { calls = h.calls + 1 })
    else (true, record h { left = h.left - size })

-- `cmdline_strdup` of a string.
unfoldable pub strdup : (ℕ → Bool) → Bytes → Heap → Option Bytes × Heap
unfolding alloc
strdup malloc str h =
    let (given, h') = alloc malloc (length str + 1) h in (if given then some str else none, h')

pub record Text : Type 0 where
  pub address : ℕ
  pub bytes : Bytes

-- The loops that copy the strings.
unfoldable pub strdup_all : (ℕ → Bool) → List Text → Heap → List (Option Bytes) × Heap
unfolding strdup
strdup_all malloc [] h = ([], h)
strdup_all malloc (x ∷ xs) h =
    let (copy, h1) = strdup malloc x.bytes h in
    let (copies, h2) = strdup_all malloc xs h1 in (copy ∷ copies, h2)

-- `cmdline_reserve_prefix`, of the base name.
unfoldable pub reserve_prefix : Bytes → Bytes
reserve_prefix base =
    take (if ltb 18 (length base) then 18 else length base) base ++ (b':' ∷ b' ' ∷ [])

-- How many strings follow one another in memory, behind the first.
unfoldable pub contiguous : Text → List Text → ℕ
contiguous p [] = 0
contiguous p (x ∷ xs) =
    let rest = contiguous x xs in
    if x.address == p.address + length p.bytes + 1 then suc rest else 0

abbrev pub last_of : Text → List Text → Text
last_of p [] = p
last_of p (x ∷ xs) = last_of x xs

-- `last - argv[0] + strlen(last)`
unfoldable pub extent : Text → Text → ℕ
extent first last = last.address - first.address + length last.bytes

-- The result: the null pointer, or the copies of the arguments with the new title and, if `environ`
-- was replaced, the copies of the environment.
pub data Setup : Type 0 where
  failed : Setup
  ready : Title → List (Option Bytes) → Option (List (Option Bytes)) → Setup

-- From the copies of the arguments on, with `e` strings of the environment.
unfoldable pub setup_environ :
    (ℕ → Bool) → Title → Text → Text → List Text → ℕ → List (Option Bytes) → Heap → Setup
unfolding alloc strdup_all extent
setup_environ malloc t first last env e copies h =
    if e == 0
    then ready (record t { max_length = extent first last }) copies none
    else let (given, h1) = alloc malloc (8 * (e + 1)) h in
      let (copied, _) = strdup_all malloc (take e env) h1 in
      if not given
      then ready t copies none
      else ready (record t { max_length = extent first (last_of last (take e env)) }) copies
          (some copied)

-- The strings counted, of the arguments behind the first and of the environment.
unfoldable pub environ_count : Text → List Text → List Text → ℕ
unfolding contiguous
environ_count first others env =
    let n = contiguous first others in
    if n == length others then contiguous (last_of first (take n others)) env else 0

-- The title as it is when the arguments are copied.
unfoldable pub first_title :
    (Option Bytes → Bytes) → Option Bytes → Option Bytes → Text → Title → Title
unfolding reserve_prefix
first_title basename module_arg copy first t = record t {
  is_named = true;
  max_length = length first.bytes;
  module_arg = module_arg;
  prefix = reserve_prefix (basename copy);
}

-- `cmdline_setup` with at least one argument. The vector of the copies has room for those that are
-- contiguous and one more, and its element `argc` is written.
unfoldable pub setup_from :
    (ℕ → Bool) → (Option Bytes → Bytes) → Title → Text → List Text → List Text → Heap → Option Setup
unfolding contiguous alloc strdup strdup_all first_title setup_environ environ_count
setup_from malloc basename t first others env h =
    let n = contiguous first others in
    let (module_arg, h1) = strdup malloc first.bytes h in
    let (copy, h2) = strdup malloc first.bytes h1 in
    let t1 = first_title basename module_arg copy first t in
    let (given, h3) = alloc malloc (8 * (n + 2)) h2 in
    let (copies, h4) = strdup_all malloc (first ∷ take n others) h3 in
    if not given
    then some failed
    else if ltb (n + 1) (length others + 1)
    then none
    else some (
        setup_environ malloc t1 first (last_of first (take n others)) env
          (environ_count first others env) copies h4)

-- `cmdline_setup`
unfoldable pub setup :
    (ℕ → Bool) → (Option Bytes → Bytes) → Title → List Text → List Text → Heap → Option Setup
unfolding setup_from
setup malloc basename t [] env h = some failed
setup malloc basename t (first ∷ others) env h =
    if t.is_named then some failed else setup_from malloc basename t first others env h
