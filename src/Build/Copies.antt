-- ===== src/Build/Copies.antt =====
-- The steps of build.c on a host without faults.
use s.Base.{
  ℕ, zero, suc, ◌+◌, ◌-◌, ◌≤◌, ◌<◌, min, ◌≡◌, refl, sym, ap, ◌∙◌, fun_ext, false, Bool, some, List,
  [], ◌∷◌, length, take, drop, get_or, length-take, pos, is_neg, ◌=ℤ◌, not, arith, subst,
}
use s.Utils.Placed.{placed}
use s.Build.{
  Host, Builder, Failure, M, Result, and_then, done, die_if, open_fd, read_buf, write_buf, close_fd,
  stat_fd, seek_out, bytes_of,
}
use s.Build.Disk.{Disk, Works, Ends, ends, Shows, left, written, moved}

pub length-drop : (n : ℕ) (xs : List ℕ) → length (drop n xs) ≡ length xs - n
length-drop zero xs = omega arith
length-drop (suc n) [] = omega arith
length-drop (suc n) (x ∷ xs) = length-drop n xs ∙ omega arith

get_or-take : (n i : ℕ) (xs : List ℕ) → i < n → get_or (take n xs) i 0 ≡ get_or xs i 0
get_or-take zero i xs lt = absurd (omega arith)
get_or-take (suc n) i [] lt = refl
get_or-take (suc n) zero (x ∷ xs) lt = refl
get_or-take (suc n) (suc i) (x ∷ xs) lt = get_or-take n i xs (omega arith)

get_or-drop : (n i : ℕ) (xs : List ℕ) → get_or (drop n xs) i 0 ≡ get_or xs (n + i) 0
get_or-drop zero i xs = ap (λ j. get_or xs j 0) (omega arith)
get_or-drop (suc n) i [] = refl
get_or-drop (suc n) i (x ∷ xs) =
    let e : suc (n + i) ≡ suc n + i = omega arith in
    get_or-drop n i xs ∙ ap (λ j. get_or (x ∷ xs) j 0) e

-- A list that is put into an array in two parts.
pub placed-parts :
    (n : ℕ) (xs : List ℕ) (a : ℕ → ℕ) (i : ℕ)
    → n ≤ length xs
    → placed (drop n xs) (placed (take n xs) a i) (i + n) ≡ placed xs a i
placed-parts n xs a i le = fun_ext λ j. ground (
  arith,
  length-drop n xs,
  length-take n xs le,
  get_or-take n (j - i) xs,
  get_or-drop n (j - (i + n)) xs,
)

pub length-bytes_of : (a : ℕ → ℕ) (i n : ℕ) → length (bytes_of a i n) ≡ n
unfolding bytes_of
length-bytes_of a i zero = refl
length-bytes_of a i (suc n) = ap suc (length-bytes_of a (suc i) n)

pub get_or-bytes_of : (a : ℕ → ℕ) (i n j : ℕ) → j < n → get_or (bytes_of a i n) j 0 ≡ a (i + j)
unfolding bytes_of
get_or-bytes_of a i zero j lt = absurd (omega arith)
get_or-bytes_of a i (suc n) zero lt = ap a (omega arith)
get_or-bytes_of a i (suc n) (suc j) lt =
    get_or-bytes_of a (suc i) n j (omega arith) ∙ ap a (omega arith)

bytes_of-list :
    (xs : List ℕ) (a : ℕ → ℕ) (i : ℕ)
    → ((j : ℕ) → j < length xs → a (i + j) ≡ get_or xs j 0)
    → bytes_of a i (length xs) ≡ xs
unfolding bytes_of
bytes_of-list [] a i same = refl
bytes_of-list (x ∷ xs) a i same =
    ap (λ y. y ∷ bytes_of a (suc i) (length xs)) (ap a (omega arith) ∙ same 0 (omega arith))
    ∙ ap (λ l. x ∷ l)
        (bytes_of-list xs a (suc i) λ j lt. ap a (omega arith) ∙ same (suc j) (omega arith))

pub placed_at : (xs : List ℕ) (a : ℕ → ℕ) (j : ℕ) → j < length xs → placed xs a 0 j ≡ get_or xs j 0
placed_at xs a j lt = ground arith

-- What was read into the buffer stands in it.
pub bytes_of-placed : (xs : List ℕ) (a : ℕ → ℕ) → bytes_of (placed xs a 0) 0 (length xs) ≡ xs
bytes_of-placed xs a =
    bytes_of-list xs (placed xs a 0) 0
      λ j lt. ap (placed xs a 0) (omega arith) ∙ placed_at xs a j lt

pub same_count : (n : ℕ) → not (pos n =ℤ pos n) ≡ false
same_count n = ground arith

-- A test of `die` that fails, so that the tool goes on.
pub goes_on :
    {W : Type 0} {test : Bool} {b : Builder W} (e : Failure)
    → test ≡ false
    → die_if test e b ≡ done (tt, b)
unfolding die_if
goes_on e h = rw h refl

pub passes :
    {W A B : Type 0} {Q : B → Builder W → Type 0} {r : Result (A × Builder W)} {a : A}
    {b : Builder W} (f : A → M W B)
    → r ≡ done (a, b)
    → Ends Q (f a b)
    → Ends Q (and_then r f)
passes {Q} f e h = subst (λ r. Ends Q (and_then r f)) (sym e) h

module _ {W : Type 0} (host : Host W) (view : W → Disk) (works : Works host view) where
  its_file : (d : Disk) (b : Builder W) → Shows view d b → b.fd ≡ (view b.world).opened
  its_file d b s = sym (ap (λ v. v.opened) s)

  pub open_fd-Shows :
      (d : Disk) (b : Builder W) (name bytes : List ℕ)
      → Shows view d b
      → d.files name ≡ some bytes
      → Ends
          (λ fd b'.
            (is_neg fd ≡ false)
            × Shows view (record d { input = bytes; size = length bytes }) b'
            × (b'.buf ≡ b.buf))
          (open_fd host name b)
  unfolding open_fd
  open_fd-Shows d b name bytes s found =
      let fd = (host.open_file b.world name).0 in
      let (fine, seen) = works.opens b.world name bytes (ap (λ v. v.files name) s ∙ found) in
      let go : Disk → Disk = λ v. record v { opened = fd; input = bytes; size = length bytes } in
      ends (fine, seen ∙ ap go s, refl)

  pub read_buf-Shows :
      (d : Disk) (b : Builder W) (n : ℕ)
      → Shows view d b
      → Ends
          (λ count b'.
            (count ≡ pos (min n (length d.input)))
            × Shows view (left (drop n d.input) d) b'
            × (b'.buf ≡ placed (take n d.input) b.buf 0))
          (read_buf host n b)
  unfolding read_buf
  read_buf-Shows d b n s =
      let fd = its_file d b s in
      let (count, bytes, seen) = works.reads b.world n in
      ends (
        ap (λ f. (host.read b.world f n).0) fd ∙ count ∙ ap (λ v. pos (min n (length v.input))) s,
        ap (λ f. view (host.read b.world f n).2) fd ∙ seen ∙ ap (λ v. left (drop n v.input) v) s,
        ap (λ f. placed (host.read b.world f n).1 b.buf 0) fd
            ∙ ap (λ l. placed l b.buf 0) (bytes ∙ ap (λ v. take n v.input) s),
      )

  pub write_buf-Shows :
      (d : Disk) (b : Builder W) (n : ℕ)
      → Shows view d b
      → Ends
          (λ short b'.
            (short ≡ false) × Shows view (written (bytes_of b.buf 0 n) d) b' × (b'.buf ≡ b.buf))
          (write_buf host n b)
  unfolding write_buf
  write_buf-Shows d b n s =
      let (count, seen) = works.writes b.world (bytes_of b.buf 0 n) in
      let count' = count ∙ ap pos (length-bytes_of b.buf 0 n) in
      ends (
        ap (λ c. not (c =ℤ pos n)) count' ∙ ground arith,
        seen ∙ ap (λ v. written (bytes_of b.buf 0 n) v) s,
        refl,
      )

  pub close_fd-Shows :
      (d : Disk) (b : Builder W)
      → Shows view d b
      → Ends (λ r b'. Shows view d b' × (b'.buf ≡ b.buf)) (close_fd host b)
  unfolding close_fd
  close_fd-Shows d b s =
      ends (ap (λ f. view (host.close b.world f)) (its_file d b s) ∙ works.closes b.world ∙ s, refl)

  pub stat_fd-Shows :
      (d : Disk) (b : Builder W)
      → Shows view d b
      → Ends (λ size b'. (size ≡ some d.size) × Shows view d b' × (b'.buf ≡ b.buf)) (stat_fd host b)
  unfolding stat_fd
  stat_fd-Shows d b s =
      let fd = its_file d b s in
      let (size, seen) = works.stats b.world in
      ends (
        ap (λ f. (host.fstat b.world f).0) fd ∙ size ∙ ap (λ v. some v.size) s,
        ap (λ f. view (host.fstat b.world f).1) fd ∙ seen ∙ s,
        refl,
      )

  pub seek_out-Shows :
      (d : Disk) (b : Builder W) (p : ℕ)
      → Shows view d b
      → Ends
          (λ lost b'. (lost ≡ false) × Shows view (moved p d) b' × (b'.buf ≡ b.buf))
          (seek_out host p b)
  unfolding seek_out
  seek_out-Shows d b p s =
      let (q, seen) = works.seeks b.world p in
      ends (ap (λ c. not (c =ℤ pos p)) q ∙ ground arith, seen ∙ ap (λ v. moved p v) s, refl)
