-- ===== src/Build/Disk.antt =====
-- What build.c relies on of its host, and the runs of the tool that end well.
use s.Base.{ℕ, ◌+◌, min, ◌≡◌, Option, some, List, length, take, drop, ℤ, pos, is_neg, false}
use s.Utils.Placed.{placed}
use s.Build.{Host, Builder, Result, done, M, and_then}

-- The files by name, the open file with what is left to read and its size, and standard output: the
-- bytes written by their places, and the place of the next.
pub record Disk : Type 0 where
  pub files : List ℕ → Option (List ℕ)
  pub opened : ℤ
  pub input : List ℕ
  pub size : ℕ
  pub out : ℕ → ℕ
  pub at : ℕ

-- Bytes written at the place of the next.
abbrev pub written : List ℕ → Disk → Disk
written bytes d = record d { out = placed bytes d.out d.at; at = d.at + length bytes }

abbrev pub moved : ℕ → Disk → Disk
moved p d = record d { at = p }

abbrev pub left : List ℕ → Disk → Disk
left input d = record d { input = input }

-- A host whose calls do what the calls of a system without faults do to regular files.
pub record Works {W : Type 0} (host : Host W) (view : W → Disk) : Type 0 where
  pub opens :
      (w : W) (name bytes : List ℕ)
      → (view w).files name ≡ some bytes
      → let (fd, w') = host.open_file w name in
        (is_neg fd ≡ false)
        × (view w' ≡ record (view w) { opened = fd; input = bytes; size = length bytes })
  pub reads :
      (w : W) (n : ℕ)
      → let (count, bytes, w') = host.read w (view w).opened n in
        (count ≡ pos (min n (length (view w).input)))
        × (bytes ≡ take n (view w).input)
        × (view w' ≡ left (drop n (view w).input) (view w))
  pub writes :
      (w : W) (bytes : List ℕ)
      → let (count, w') = host.write w (pos 1) bytes in
        (count ≡ pos (length bytes)) × (view w' ≡ written bytes (view w))
  pub closes : (w : W) → view (host.close w (view w).opened) ≡ view w
  pub stats :
      (w : W)
      → let (size, w') = host.fstat w (view w).opened in
        (size ≡ some (view w).size) × (view w' ≡ view w)
  pub seeks :
      (w : W) (p : ℕ)
      → let (q, w') = host.lseek w (pos 1) p in (q ≡ pos p) × (view w' ≡ moved p (view w))

-- A run that ends well, in a state of which `P` holds.
pub data Ends {W A : Type 0} (P : A → Builder W → Type 0) : Result (A × Builder W) → Type 0 where
  ends : {a : A} {b : Builder W} → P a b → Ends P (done (a, b))

module _ {W A B : Type 0} {P : A → Builder W → Type 0} {Q : B → Builder W → Type 0} where
  pub bind :
      {r : Result (A × Builder W)} {f : A → M W B}
      → Ends P r
      → ((a : A) (b : Builder W) → P a b → Ends Q (f a b))
      → Ends Q (and_then r f)
  bind (ends p) next = next _ _ p

pub weaken :
    {W A : Type 0} {P Q : A → Builder W → Type 0} {r : Result (A × Builder W)}
    → Ends P r
    → ((a : A) (b : Builder W) → P a b → Q a b)
    → Ends Q r
weaken (ends p) f = ends (f _ _ p)

-- The state's view, but for the number of the open file, which is the tool's.
abbrev pub Shows : {W : Type 0} (view : W → Disk) (d : Disk) (b : Builder W) → Type 0
Shows view d b = view b.world ≡ record d { opened = b.fd }
