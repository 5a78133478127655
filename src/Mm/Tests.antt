-- ===== src/Mm/Tests.antt =====
-- The frames of mm.c at a concrete byte map, and the theorems on it.
use s.Base.{true, find_below, ◌≡◌, refl, pos, ◌==◌, if◌then◌else◌, update}
use s.Mm.{Mm, zero_entry, alloc_frame, free_frame, free_frame_mark}
use s.Mm.Frames.{Alloc, alloc_frame-Alloc}

abbrev blank : Mm
blank = record {
  phys_mem = λ i. 7;
  pagusr_table = λ i. zero_entry;
  dir_pages = λ i. zero_entry;
  paging = true;
}

-- The first frame of the scan is used.
abbrev some_used : Mm
some_used = record blank { phys_mem = λ i. if i == 256 then 1 else 0 }

alloc_frame-Alloc_example : Alloc some_used (alloc_frame some_used)
alloc_frame-Alloc_example = alloc_frame-Alloc some_used

alloc_run : (alloc_frame some_used).0 ≡ pos 258
unfolding alloc_frame find_below
alloc_run = refl

free_run : (free_frame some_used 256).phys_mem 256 ≡ free_frame_mark
unfolding free_frame update
free_run = refl
