-- ===== src/Build/Tests.antt =====
-- A host in memory, and the joining of a boot sector with two small images.
use s.Base.{
  ℕ, ◌≡◌, refl, false, Option, none, some, List, [], ◌∷◌, ◌++◌, length, take, drop, replicate, min,
  ◌==◌, if◌then◌else◌, ℤ, pos, minus, is_neg, arith, codes,
}
use s.Build.{Host, Builder, main}
use s.Build.Disk.{Disk, Works, Ends, written, moved, left}
use s.Build.Sector.{minix_header}
use s.Build.Image.{Image, main-Image}

abbrev open_on : Disk → Option (List ℕ) → ℤ × Disk
open_on d none = (minus 1, d)
open_on d (some bytes) = (pos 3, record d { opened = pos 3; input = bytes; size = length bytes })

abbrev memory_host : Host Disk
memory_host = record {
  open_file = λ d name. open_on d (d.files name);
  read = λ d fd n. (pos (min n (length d.input)), take n d.input, left (drop n d.input) d);
  write = λ d fd bytes. (pos (length bytes), written bytes d);
  close = λ d fd. d;
  fstat = λ d fd. (some d.size, d);
  lseek = λ d fd p. (pos p, moved p d);
}

open_on-opens :
    (d : Disk) (bytes : List ℕ) (r : Option (List ℕ))
    → r ≡ some bytes
    → (is_neg (open_on d r).0 ≡ false)
      × ((open_on d r).1
          ≡ record d { opened = (open_on d r).0; input = bytes; size = length bytes })
open_on-opens d bytes r e = rw e (refl, refl)

memory_host-Works : Works memory_host (λ d. d)
memory_host-Works = record {
  opens = λ d name bytes e. open_on-opens d bytes (d.files name) e;
  reads = λ d n. (refl, refl, refl);
  writes = λ d bytes. (refl, refl);
  closes = λ d. refl;
  stats = λ d. (refl, refl);
  seeks = λ d p. (refl, refl);
}

abbrev sector : List ℕ
sector = replicate 510 7 ++ (0x55 ∷ 0xaa ∷ [])

abbrev sys : List ℕ
sys = replicate 20 1

abbrev usr : List ℕ
usr = replicate 5 2

-- The three files have names of different lengths.
abbrev files_by : List ℕ → Option (List ℕ)
files_by name =
    if length name == 8
    then some (minix_header (λ i. 0) (λ i. 0) ++ sector)
    else if length name == 6
    then some sys
    else if length name == 4
    then some usr
    else none

abbrev disk : Disk
disk = record { files = files_by; opened = pos 0; input = []; size = 0; out = λ i. 0; at = 0 }

abbrev builder : Builder Disk
builder = record { buf = λ i. 0; fd = pos 0; world = disk }

main-Image_example :
    Ends
      (λ r b'. Image sector sys usr b'.world.out)
      (main memory_host
        (codes "build" ∷ codes "bootsect" ∷ codes "system" ∷ codes "user" ∷ [])
        builder)
main-Image_example =
    main-Image memory_host (λ d. d) disk builder (codes "build") (codes "bootsect") (codes "system")
      (codes "user") sector sys usr (λ i. 0) (λ i. 0) memory_host-Works refl refl refl refl refl
      refl refl refl (omega arith) (omega arith)
