-- ===== src/Media/ExecutableDiscovery.antt =====
-- modules/media: ExecutableDiscovery.cpp on POSIX. Whether a path is an executable file is what the
-- file system says; `dir / name` is joined by the library of paths.
use edge_tts_cpp.Base.{
  ℕ, zero, suc, ◌≤◌, Bool, true, false, Option, none, some, List, [], ◌∷◌, Bytes, length, take,
  drop, find_byte, is_empty, length-drop, ◌==◌, if◌then◌else◌, ◌≡◌, refl, ap, arith, Option-cases,
  Bool-cases, inl, inr,
}

pub record FileSystem : Type 0 where
  pub path_join : Bytes → Bytes → Bytes
  pub is_executable_file : Bytes → Bool

unfoldable pub probe : FileSystem → Bytes → Bytes → Option Bytes
probe fs dir name =
    let candidate = fs.path_join dir name in
    if fs.is_executable_file candidate then some candidate else none

-- `if (!segment.empty()) probe`.
unfoldable pub probe_segment : FileSystem → Bytes → Bytes → Option Bytes
unfolding is_empty probe
probe_segment fs name segment = if is_empty segment then none else probe fs segment name

abbrev pub or_else : Option Bytes → Option Bytes → Option Bytes
or_else none next = next
or_else (some found) next = some found

-- `while (!remaining.empty())`, with fuel for the rounds: each takes a byte at least.
unfoldable pub search_loop : ℕ → FileSystem → Bytes → Bytes → Option Bytes
unfolding find_byte probe_segment
search_loop zero fs name remaining = none
search_loop (suc fuel) fs name remaining = elim remaining [
  | [] ↦ none
  | c ∷ cs ↦ elim (find_byte b':' (c ∷ cs)) [
    | none ↦ probe_segment fs name (c ∷ cs)
    | some sep ↦
        or_else (probe_segment fs name (take sep (c ∷ cs)))
          (search_loop fuel fs name (drop (suc sep) (c ∷ cs)))
  ]
]

unfoldable pub find_on_path : FileSystem → Bytes → Bytes → Option Bytes
unfolding search_loop
find_on_path fs executable path_env = search_loop (length path_env) fs executable path_env

-- The segments between the colons: one more than there are colons.
unfoldable pub segments : Bytes → List Bytes
segments [] = [] ∷ []
segments (c ∷ cs) = elim (c == b':') [
  | true ↦ [] ∷ segments cs
  | false ↦ elim (segments cs) [ [] ↦ (c ∷ []) ∷ [] | first ∷ rest ↦ (c ∷ first) ∷ rest ]
]

-- The first that is found.
unfoldable pub first_of : FileSystem → Bytes → List Bytes → Option Bytes
unfolding probe_segment
first_of fs name [] = none
first_of fs name (segment ∷ rest) = or_else (probe_segment fs name segment) (first_of fs name rest)

segments-cut :
    (s : Bytes) (i : ℕ)
    → find_byte b':' s ≡ some i
    → segments s ≡ take i s ∷ segments (drop (suc i) s)
unfolding segments find_byte
segments-cut [] i e = ground arith
segments-cut (c ∷ cs) i e = elim (Bool-cases (c == b':')) [
  | inl q ↦ let z : i ≡ zero = ground arith in rw (z, q, segments) refl
  | inr q ↦ elim (Option-cases (find_byte b':' cs)) [
    | inl n ↦ ground arith
    | inr (j, n) ↦
        let z : i ≡ suc j = ground arith in
        rw (z, q, segments) (rw (segments-cut cs j n, segments) refl)
  ]
]

segments-whole : (s : Bytes) → find_byte b':' s ≡ none → segments s ≡ s ∷ []
unfolding segments find_byte
segments-whole [] e = refl
segments-whole (c ∷ cs) e = elim (Bool-cases (c == b':')) [
  | inl q ↦ ground arith
  | inr q ↦ elim (Option-cases (find_byte b':' cs)) [
    | inl n ↦ rw (q, segments) (rw (segments-whole cs n, segments) refl)
    | inr (j, n) ↦ ground arith
  ]
]

or_else-none : (o : Option Bytes) → o ≡ or_else o none
or_else-none none = refl
or_else-none (some found) = refl

search_loop_lem :
    (fuel : ℕ) (fs : FileSystem) (name s : Bytes)
    → length s ≤ fuel
    → search_loop fuel fs name s ≡ first_of fs name (segments s)
unfolding search_loop first_of segments probe_segment is_empty
search_loop_lem zero fs name [] l = refl
search_loop_lem zero fs name (c ∷ cs) l = absurd (omega arith)
search_loop_lem (suc fuel) fs name [] l = refl
search_loop_lem (suc fuel) fs name (c ∷ cs) l = elim (Option-cases (find_byte b':' (c ∷ cs))) [
  | inl n ↦
      rw (n, search_loop)
        (rw (segments-whole (c ∷ cs) n) (or_else-none (probe_segment fs name (c ∷ cs))))
  | inr (i, n) ↦
      let shorter : length (drop (suc i) (c ∷ cs)) ≤ fuel =
        omega (arith, length-drop {0} (suc i) (c ∷ cs)) in
      rw (n, search_loop)
        (rw (segments-cut (c ∷ cs) i n) (
          ap (or_else (probe_segment fs name (take i (c ∷ cs))))
            (search_loop_lem fuel fs name (drop (suc i) (c ∷ cs)) shorter)))
]

-- The search returns the first executable file of that name in the directories that the colons of the
-- path variable separate, in their order, skipping the empty ones; and none if there is none. The
-- rounds that the loop is given are enough for every path variable.
pub find_on_path_lem :
    (fs : FileSystem) (executable path_env : Bytes)
    → find_on_path fs executable path_env ≡ first_of fs executable (segments path_env)
unfolding find_on_path
find_on_path_lem fs executable path_env =
    search_loop_lem (length path_env) fs executable path_env (omega arith)
