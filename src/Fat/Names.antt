-- ===== src/Fat/Names.antt =====
-- `fat_find_path` and `fat_create` of fat.c.
use Prim.Native.Nat.{bit_and}
use s.Base.{
  ℕ, zero, suc, ◌<◌, ◌≡◌, ◌≢◌, Bool, true, not, ◌&&◌, List, ℤ, pos, minus, ◌=ℤ◌, arith, ◌==◌,
  length, update, update_self, update_ne, inl, inr, Bool-cases, ap, subst, ==→≡, Option, none, some,
  find_below, find_below-Least, Least, =ℤ→≡, ◌↔◌,
}
use s.Kernutil.{strcmp, string_at}
use s.Kernutil.Compare.{NoNul, strcmp_iff, strcat-copy}
use s.Fat.{
  Fat, DirEntry, eoc, free_type, max_files, file_name_size, reset_entry, name_of, fat_find_path,
  enoent, enospc,
}
use s.Fat.Calls.{fat_create, o_rdwr}

-- What the two tests of `fat_find_path` say of an entry: a file of that name.
abbrev pub IsNamed : Fat → List ℕ → ℕ → Type 0
IsNamed fs path f = ((fs.root f).mode ≢ free_type) × (name_of (fs.root f) ≡ path)

string_at-NoNul : (str : ℕ → ℕ) (i n : ℕ) → NoNul (string_at str i n)
unfolding string_at
string_at-NoNul str i zero = tt
string_at-NoNul str i (suc n) = elim (Bool-cases (str i == 0)) [
  | inl p ↦ rw p tt
  | inr p ↦ rw p (ground arith, string_at-NoNul str (suc i) n)
]

abbrev named : Fat → List ℕ → ℕ → Bool
named fs path i =
    (strcmp (name_of (fs.root i)) path =ℤ pos 0) && not ((fs.root i).mode =ℤ free_type)

named-IsNamed :
    (fs : Fat) (path : List ℕ) (i : ℕ) → NoNul path → (named fs path i ≡ true) ↔ IsNamed fs path i
named-IsNamed fs path i nn =
    let eq =
      strcmp_iff (name_of (fs.root i)) path (string_at-NoNul (fs.root i).name 0 file_name_size)
        nn in
    (λ h. (λ e. ground arith, eq.0 (=ℤ→≡ _ _ (ground arith))), λ h. ground (arith, eq.1 h.1))

-- The answer of `fat_find_path`.
pub data Found (fs : Fat) (path : List ℕ) : ℤ → Type 0 where
  found :
      {f : ℕ}
      → f < max_files
      → IsNamed fs path f
      → ((g : ℕ) → g < f → ¬ IsNamed fs path g)
      → Found fs path (pos f)
  missing : ((g : ℕ) → g < max_files → ¬ IsNamed fs path g) → Found fs path (minus enoent)

Least-Found :
    (fs : Fat) (path : List ℕ) (r : Option ℕ)
    → NoNul path
    → Least (named fs path) 0 max_files r
    → Found fs path (elim r [ some i ↦ pos i | none ↦ minus enoent ])
Least-Found fs path (some i) nn l =
    found l.1 ((named-IsNamed fs path i nn).0 l.2)
      (λ g lt h. ground (arith, l.3 g (omega arith) lt, (named-IsNamed fs path g nn).1 h))
Least-Found fs path none nn l =
    missing (λ g lt h. ground (arith, l g (omega arith) lt, (named-IsNamed fs path g nn).1 h))

-- For a name without '\0', `fat_find_path` answers the first file that is in use and has exactly
-- that name, and -ENOENT only if there is none.
pub fat_find_path-Found :
    (fs : Fat) (path : List ℕ) → NoNul path → Found fs path (fat_find_path fs path)
unfolding fat_find_path
fat_find_path-Found fs path nn =
    Least-Found fs path (find_below max_files (named fs path)) nn
      (find_below-Least max_files (named fs path))

-- What `fat_create` may do.
pub data Created (fs : Fat) (path : List ℕ) (flags : ℕ) : ℤ × Fat → Type 0 where
  created :
      {f : ℕ} {fs' : Fat}
      → f < max_files
      → (fs.root f).mode ≡ free_type
      → IsNamed fs' path f
      → (fs'.root f).mode ≡ pos (bit_and flags o_rdwr)
      → ((fs'.root f).size ≡ 0) × ((fs'.root f).first_block ≡ eoc)
      → ((g : ℕ) → g ≢ f → fs'.root g ≡ fs.root g)
      → (((g : ℕ) → g < max_files → ¬ IsNamed fs path g) → fat_find_path fs' path ≡ pos f)
      → Created fs path flags (pos f, fs')
  no_entry :
      ((g : ℕ) → g < max_files → (fs.root g).mode ≢ free_type)
      → Created fs path flags (minus enospc, fs)

-- The state with the new file.
abbrev newly : Fat → List ℕ → ℕ → ℕ → Fat
newly fs path flags i = record fs {
  root = update fs.root i (reset_entry path (pos (bit_and flags o_rdwr)) (fs.root i));
}

newly-IsNamed :
    (fs : Fat) (path : List ℕ) (flags i : ℕ)
    → NoNul path
    → length path < file_name_size
    → IsNamed (newly fs path flags i) path i
newly-IsNamed fs path flags i nn lt =
    rw (update_self fs.root i (reset_entry path (pos (bit_and flags o_rdwr)) (fs.root i)))
      (λ e. ground arith, (strcat-copy (fs.root i).name path file_name_size nn lt).0)

Found-unique :
    (fs : Fat) (path : List ℕ) (f : ℕ) (r : ℤ)
    → f < max_files
    → IsNamed fs path f
    → ((g : ℕ) → g < max_files → g ≢ f → ¬ IsNamed fs path g)
    → Found fs path r
    → r ≡ pos f
Found-unique fs path f r lt h others (found {f = k} lk hk least) = elim (Bool-cases (k == f)) [
  | inl p ↦ ap pos (==→≡ k f p)
  | inr p ↦ absurd (others k lk (λ e. ground arith) hk)
]
Found-unique fs path f r lt h others (missing none_at) = absurd (none_at f lt h)

Least-Created :
    (fs : Fat) (path : List ℕ) (flags : ℕ) (r : Option ℕ)
    → NoNul path
    → length path < file_name_size
    → Least (λ i. (fs.root i).mode =ℤ free_type) 0 max_files r
    → Created fs path flags
        (elim r [ some i ↦ (pos i, newly fs path flags i) | none ↦ (minus enospc, fs) ])
Least-Created fs path flags (some i) nn lt l =
    created l.1 (=ℤ→≡ _ _ l.2) (newly-IsNamed fs path flags i nn lt)
      (ap (λ e. e.mode) (update_self fs.root i entry))
      (
        ap (λ e. e.size) (update_self fs.root i entry),
        ap (λ e. e.first_block) (update_self fs.root i entry),
      )
      (λ g ne. update_ne fs.root i g entry ne)
      (λ fresh.
        Found-unique (newly fs path flags i) path i (fat_find_path (newly fs path flags i) path) l.1
          (newly-IsNamed fs path flags i nn lt)
          (λ g lg ne h. fresh g lg (
            subst (λ e. (e.mode ≢ free_type) × (name_of e ≡ path)) (update_ne fs.root i g entry ne)
              h))
          (fat_find_path-Found (newly fs path flags i) path nn))
  where
    entry : DirEntry
    entry = reset_entry path (pos (bit_and flags o_rdwr)) (fs.root i)
Least-Created fs path flags none nn lt l = no_entry (λ g lg e. ground (arith, l g (omega arith) lg))

-- For a name that fits, with its '\0', in an entry, `fat_create` takes a free entry and
-- makes it an empty file of that name and mode, leaving the other entries alone; the file is then
-- the one that `fat_find_path` finds, if the name was not in use. It answers -ENOSPC and changes
-- nothing only if no entry is free.
pub fat_create-Created :
    (fs : Fat) (path : List ℕ) (flags : ℕ)
    → NoNul path
    → length path < file_name_size
    → Created fs path flags (fat_create fs path flags)
unfolding fat_create
fat_create-Created fs path flags nn lt =
    Least-Created fs path flags (find_below max_files (λ i. (fs.root i).mode =ℤ free_type)) nn lt
      (find_below-Least max_files (λ i. (fs.root i).mode =ℤ free_type))
