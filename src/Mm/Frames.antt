-- ===== src/Mm/Frames.antt =====
-- The frames of mm.c: what `alloc_frame`, `free_frame` and `init_frames` do to the byte map.
use s.Base.{
  ℕ, ◌-◌, ◌%◌, ◌≤◌, ◌<◌, ◌≡◌, refl, ◌≢◌, Bool, ◌/◌, Option, none, some, ℤ, pos, minus, update,
  update_self, update_ne, ◌==◌, if◌then◌else◌, arith, find_below, find_below-Least, Least, loop,
  loop_inv, ltb,
}
use s.Mm.{
  Mm, alloc_frame, init_frames, scan_frame, scan_rounds, total_pages, num_pag_kernel,
  free_frame_mark, used_frame_mark,
}

-- The frames that `alloc_frame` can hand out: every second one behind the kernel's.
pub record IsUserFrame (f : ℕ) : Type 0 where
  pub above : num_pag_kernel ≤ f
  pub below : f < total_pages
  pub even : (f - num_pag_kernel) % 2 ≡ 0

-- What `alloc_frame` may do, seen from the byte map alone.
pub data Alloc (m : Mm) : ℤ × Mm → Type 0 where
  took :
      {f : ℕ} {m' : Mm}
      → IsUserFrame f
      → m.phys_mem f ≡ free_frame_mark
      → m'.phys_mem f ≡ used_frame_mark
      → ((g : ℕ) → g ≢ f → m'.phys_mem g ≡ m.phys_mem g)
      → ((g : ℕ) → IsUserFrame g → g < f → m.phys_mem g ≢ free_frame_mark)
      → (m'.pagusr_table ≡ m.pagusr_table)
      → Alloc m (pos f, m')
  full : ((g : ℕ) → IsUserFrame g → m.phys_mem g ≢ free_frame_mark) → Alloc m (minus 1, m)

-- The place of a frame in the scan.
scan_place : (f : ℕ) → IsUserFrame f → f ≡ scan_frame ((f - num_pag_kernel) / 2)
scan_place f u = omega arith

-- `alloc_frame` hands out the lowest free frame of the scan, which was free and is used afterwards,
-- and touches no other frame and no page; it answers -1, and changes nothing, only if no frame
-- of the scan is free.
pub alloc_frame-Alloc : (m : Mm) → Alloc m (alloc_frame m)
unfolding alloc_frame
alloc_frame-Alloc m = go (find_below scan_rounds test) (find_below-Least scan_rounds test)
  where
    test : ℕ → Bool
    test k = m.phys_mem (scan_frame k) == free_frame_mark

    go :
        (r : Option ℕ)
        → Least test 0 scan_rounds r
        → Alloc m (elim r [
          | some k ↦ (
            pos (scan_frame k),
            record m { phys_mem = update m.phys_mem (scan_frame k) used_frame_mark },
          )
          | none ↦ (minus 1, m)
        ])
    go (some k) l =
        took (omega arith) (ground arith) (update_self m.phys_mem (scan_frame k) used_frame_mark)
          (λ g ne. update_ne m.phys_mem (scan_frame k) g used_frame_mark ne)
          (λ g u lt e.
            ground
              (arith, l.3 ((g - num_pag_kernel) / 2) (omega arith) (omega arith), scan_place g u))
          refl
    go none l = full (λ g u e.
        ground (arith, l ((g - num_pag_kernel) / 2) (omega arith) (omega arith), scan_place g u))

-- After `init_frames` the kernel's frames are used, all the others are free, and the page table
-- has not changed.
pub init_frames_lem :
    (m : Mm) (f : ℕ)
    → f < total_pages
    → ((init_frames m).phys_mem f
        ≡ (if ltb f num_pag_kernel then used_frame_mark else free_frame_mark))
      × ((init_frames m).pagusr_table ≡ m.pagusr_table)
unfolding init_frames
init_frames_lem m f lt = (mark, refl)
  where
    fill : (n c : ℕ) (p : ℕ → ℕ) → loop n (λ i r. update r i c) p f ≡ (if ltb f n then c else p f)
    fill n c p =
        loop_inv (λ k r. r f ≡ (if ltb f k then c else p f)) n (λ i r. update r i c) p
          (λ i t lt' e. unfold update in ground arith) (ground arith)

    mark :
        loop num_pag_kernel
          (λ i p. update p i used_frame_mark)
          (loop total_pages (λ i p. update p i free_frame_mark) m.phys_mem)
          f
        ≡ (if ltb f num_pag_kernel then used_frame_mark else free_frame_mark)
    mark = ground (
      arith,
      fill num_pag_kernel used_frame_mark
          (loop total_pages (λ i p. update p i free_frame_mark) m.phys_mem),
      fill total_pages free_frame_mark m.phys_mem,
    )
