-- ===== src/Sys/Clone.antt =====
-- The loop of `sys_fork` of sys.c over the data pages of the parent.
use s.Base.{
  ℕ, zero, suc, ◌+◌, ◌-◌, ◌<◌, ◌≤◌, ◌≡◌, refl, ◌≢◌, Bool, true, false, ◌&&◌, ℤ, minus, pos_part,
  ◌=ℤ◌, ◌==◌, leb, ltb, if◌then◌else◌, arith, ==→≡, update, update_ne, update_self, ap, sym, ◌∙◌,
  Bool-cases, inl, inr,
}
use s.Utils.{copy_data}
use s.Utils.Copy.{copy_data-spliced}
use s.Mm.{Mm, alloc_frame, set_ss_pag, del_ss_pag, free_frame_mark, used_frame_mark, page_size}
use s.Mm.Frames.{IsUserFrame, Alloc, took, full, alloc_frame-Alloc}
use s.Sched.{modify}
use s.Sys.{Kernel, sched_of, with_sched, current}
use s.Sys.Process.{with_mm, free_down, copy_page, copy_pages}
use s.Sys.Pages.{IsOwned, SameBytes, Same, Pages, Cloned, out_of_frames, cloned, Same-join}

module _ (k : Kernel) (child i f : ℕ) (m : Mm) (ne : child ≢ (sched_of k).current) where
  abbrev copied : Kernel
  copied = copy_page k child i f m

  copy_page-Same : Same k child copied
  unfolding modify
  copy_page-Same = record {
    heap = refl;
    current = refl;
    others = λ t o. unfold update in ground arith;
    child_same = unfold update in ground arith;
    sems = refl;
    tables = (refl, refl, refl, refl);
  }

  copy_page-frame : ((sched_of copied).task child).phpages i ≡ f
  unfolding modify update
  copy_page-frame = ground arith

  copy_page-frames : (g : ℕ) → (sched_of copied).mm.phys_mem g ≡ m.phys_mem g
  unfolding modify set_ss_pag del_ss_pag
  copy_page-frames g = refl

  copy_page-before :
      (j : ℕ)
      → j ≢ i
      → ((sched_of copied).task child).phpages j ≡ ((sched_of k).task child).phpages j
  unfolding modify update
  copy_page-before j o = ground arith

  copy_page-memory :
      (o : ℕ) → o < page_size → copied.memory f o ≡ k.memory ((current k).phpages i) o
  unfolding update
  copy_page-memory o lt =
      let inside : leb 0 o && ltb o (0 + page_size) ≡ true = ground (arith, lt) in
      let at : 0 + (o - 0) ≡ o = omega arith in
      ap (λ u. u o)
        (update_self k.memory f
          (copy_data (k.memory ((current k).phpages i)) 0 (k.memory f) 0 page_size))
      ∙ copy_data-spliced (k.memory ((current k).phpages i)) 0 (k.memory f) 0 page_size o
      ∙ rw (inside, at) refl

  copy_page-parent : current copied ≡ current k
  unfolding modify
  copy_page-parent = update_ne (sched_of k).task child (sched_of k).current _ (λ e. ne (sym e))

  -- A round with a free frame, and then the other rounds.
  Pages-step :
      (n : ℕ) (k' : Kernel)
      → IsUserFrame f
      → (sched_of k).mm.phys_mem f ≡ free_frame_mark
      → m.phys_mem f ≡ used_frame_mark
      → ((g : ℕ) → g ≢ f → m.phys_mem g ≡ (sched_of k).mm.phys_mem g)
      → Pages copied child (suc i) n k'
      → Pages k child i (suc n) k'
  unfolding update modify
  Pages-step n k' user free used others r =
      let mine : ((sched_of k').task child).phpages i ≡ f =
        r.before i (omega arith) ∙ copy_page-frame in
      let at_first : (j : ℕ) → j ≡ i → ((sched_of k').task child).phpages j ≡ f =
        λ j e. ap (λ l. ((sched_of k').task child).phpages l) e ∙ mine in
      let later : (j : ℕ) → suc i ≤ j → j < suc i + n → ((sched_of k').task child).phpages j ≢ f =
        λ j lo hi e.
          let (u, free', used') = r.fresh j lo hi in
          absurd (ground (arith, e, used, copy_page-frames f, free')) in
      record {
        fresh = λ j lo hi. elim (Bool-cases (j == i)) [
          | inl h ↦
              let at : ((sched_of k').task child).phpages j ≡ f = at_first j (ground arith) in
              rw at (user, free, r.frames f later ∙ copy_page-frames f ∙ used)
          | inr h ↦
              let (u, free', used') = r.fresh j (ground arith) (omega arith) in
              let g = ((sched_of k').task child).phpages j in
              (
                u,
                sym (others g (later j (ground arith) (omega arith)))
                    ∙ sym (copy_page-frames g)
                    ∙ free',
                used',
              )
        ];
        before = λ j lo. r.before j (omega arith) ∙ copy_page-before j (λ e. omega (arith, e));
        apart = λ j l jlo jhi llo lhi o. elim (Bool-cases (j == i)) [
          | inl h ↦ λ e. later l (ground arith) (omega arith) (sym e ∙ at_first j (ground arith))
          | inr h ↦ elim (Bool-cases (l == i)) [
            | inl h' ↦ λ e. later j (ground arith) (omega arith) (e ∙ at_first l (ground arith))
            | inr h' ↦ r.apart j l (ground arith) (omega arith) (ground arith) (omega arith) o
          ]
        ];
        frames = λ g out.
            r.frames g (λ j lo hi. out j (omega arith) (omega arith))
            ∙ copy_page-frames g
            ∙ others g (λ e. out i (omega arith) (omega arith) (mine ∙ sym e));
        memories = λ g out.
            r.memories g (λ j lo hi. out j (omega arith) (omega arith))
            ∙ update_ne k.memory f g _ (λ e. out i (omega arith) (omega arith) (mine ∙ sym e));
      }

  -- The bytes after a round with a free frame, and then the other rounds.
  SameBytes-step :
      (n : ℕ) (k' : Kernel)
      → IsOwned k i (suc n)
      → (sched_of k).mm.phys_mem f ≡ free_frame_mark
      → m.phys_mem f ≡ used_frame_mark
      → Pages copied child (suc i) n k'
      → SameBytes copied (suc i) n child k'
      → SameBytes k i (suc n) child k'
  SameBytes-step n k' owned free used r b = record {
    same = λ j o lo hi lt. elim (Bool-cases (j == i)) [
      | inl h ↦
          let first : j ≡ i = ==→≡ j i h in
          let mine : ((sched_of k').task child).phpages i ≡ f =
            r.before i (omega arith) ∙ copy_page-frame in
          let later : (l : ℕ)
              → suc i ≤ l
              → l < suc i + n
              → ((sched_of k').task child).phpages l ≢ f =
            λ l above below e.
              let (u, free', used') = r.fresh l above below in
              absurd (ground (arith, e, used, copy_page-frames f, free')) in
          ap (λ l. k'.memory (((sched_of k').task child).phpages l) o) first
          ∙ ap (λ g. k'.memory g o) mine
          ∙ ap (λ c. c o) (r.memories f later)
          ∙ copy_page-memory o lt
          ∙ ap (λ l. k.memory ((current k).phpages l) o) (sym first)
      | inr h ↦
          b.same j o (ground (arith, lo, h)) (omega (arith, hi)) lt
          ∙ ap (λ t. copied.memory (t.phpages j) o) copy_page-parent
          ∙ ap (λ c. c o)
              (update_ne k.memory f ((current k).phpages j) _
                (λ e. owned j lo hi (ap (λ g. (sched_of k).mm.phys_mem g) e ∙ free)))
    ];
  }

  IsOwned-step :
      (n : ℕ)
      → IsOwned k i (suc n)
      → m.phys_mem f ≡ used_frame_mark
      → ((g : ℕ) → g ≢ f → m.phys_mem g ≡ (sched_of k).mm.phys_mem g)
      → IsOwned copied (suc i) n
  IsOwned-step n owned used others j lo hi e =
      let g = (current k).phpages j in
      let now : m.phys_mem g ≡ free_frame_mark =
        sym (copy_page-frames g)
        ∙ ap (λ t. (sched_of copied).mm.phys_mem (t.phpages j)) (sym copy_page-parent)
        ∙ e in
      elim (Bool-cases (g == f)) [
        | inl h ↦ absurd (ground (arith, used, now, ap (λ x. m.phys_mem x) (==→≡ g f h)))
        | inr h ↦
            owned j (omega (arith, lo)) (omega (arith, hi))
              (sym (others g (ground (arith, h))) ∙ now)
      ]

step-Cloned :
    (k : Kernel) (child i n : ℕ)
    → child ≢ (sched_of k).current
    → (r : ℤ × Mm) → Alloc (sched_of k).mm r
    → ((f : ℕ) (m : Mm)
        → Cloned
            (copy_page k child i f m)
            child
            (suc i)
            n
            (copy_pages n child (suc i) (copy_page k child i f m)))
    → Cloned k child i (suc n) (
        if r.0 =ℤ minus 1
        then (
          false,
          with_sched k (with_mm (sched_of k) (free_down r.1 ((sched_of k).task child).phpages i)),
        )
        else copy_pages n child (suc i) (copy_page k child i (pos_part r.0) r.1))
step-Cloned k child i n ne r (full none_free) rest = out_of_frames (record {
  heap = refl;
  current = refl;
  others = λ t o. refl;
  child_same = refl;
  sems = refl;
  tables = (refl, refl, refl, refl);
})
step-Cloned k child i n ne r (took {f} {m' = m} user free used others least table) rest =
    after (copy_pages n child (suc i) (copy_page k child i f m)) (rest f m)
  where
    after :
        (r : Bool × Kernel)
        → Cloned (copy_page k child i f m) child (suc i) n r
        → Cloned k child i (suc n) r
    after r (out_of_frames same) = out_of_frames (Same-join (copy_page-Same k child i f m ne) same)
    after r (cloned {k'} same pages) =
        cloned (Same-join (copy_page-Same k child i f m ne) same)
          (Pages-step k child i f m ne n k' user free used others pages)

-- The loop of `sys_fork` gives the child `n` frames of its own with its parent's bytes, unless the
-- free frames run out. In neither case has anything else of the kernel changed but frames.
pub copy_pages-Cloned :
    (n child i : ℕ) (k : Kernel)
    → child ≢ (sched_of k).current
    → Cloned k child i n (copy_pages n child i k)
unfolding copy_pages
copy_pages-Cloned zero child i k ne =
    cloned
      (record {
        heap = refl;
        current = refl;
        others = λ t o. refl;
        child_same = refl;
        sems = refl;
        tables = (refl, refl, refl, refl);
      })
      (record {
        fresh = λ j lo hi. absurd (omega arith);
        before = λ j lo. refl;
        apart = λ j l jlo jhi llo lhi o. absurd (omega arith);
        frames = λ g out. refl;
        memories = λ g out. refl;
      })
copy_pages-Cloned (suc n) child i k ne =
    step-Cloned k child i n ne (alloc_frame (sched_of k).mm) (alloc_frame-Alloc (sched_of k).mm)
      (λ f m. copy_pages-Cloned n child (suc i) (copy_page k child i f m) ne)

Cloned-Pages :
    (k : Kernel) (child i n : ℕ) (r : Bool × Kernel)
    → Cloned k child i n r
    → r.0 ≡ true
    → Pages k child i n r.1
Cloned-Pages k child i n r (out_of_frames same) e = cc
Cloned-Pages k child i n r (cloned same pages) e = pages

step-SameBytes :
    (k : Kernel) (child i n : ℕ)
    → child ≢ (sched_of k).current
    → IsOwned k i (suc n)
    → (r : ℤ × Mm) → Alloc (sched_of k).mm r
    → ((f : ℕ) (m : Mm)
        → IsOwned (copy_page k child i f m) (suc i) n
        → (copy_pages n child (suc i) (copy_page k child i f m)).0 ≡ true
        → SameBytes
            (copy_page k child i f m)
            (suc i)
            n
            child
            (copy_pages n child (suc i) (copy_page k child i f m)).1)
    → let c =
        if r.0 =ℤ minus 1
        then (
          false,
          with_sched k (with_mm (sched_of k) (free_down r.1 ((sched_of k).task child).phpages i)),
        )
        else copy_pages n child (suc i) (copy_page k child i (pos_part r.0) r.1) in
      c.0 ≡ true → SameBytes k i (suc n) child c.1
unfolding modify
step-SameBytes k child i n ne owned r (full none_free) rest e = cc
step-SameBytes k child i n ne owned r (took {f} {m' = m} user free used others least table) rest e =
    let c = copy_page k child i f m in
    SameBytes-step k child i f m ne n (copy_pages n child (suc i) c).1 owned free used
      (Cloned-Pages c child (suc i) n (copy_pages n child (suc i) c)
        (copy_pages-Cloned n child (suc i) c ne) e)
      (rest f m (IsOwned-step k child i f m ne n owned used others) e)

-- Where none of the parent's own frames is marked free, the child's pages hold the parent's bytes.
pub copy_pages-SameBytes :
    (n child i : ℕ) (k : Kernel)
    → child ≢ (sched_of k).current
    → IsOwned k i n
    → (copy_pages n child i k).0 ≡ true
    → SameBytes k i n child (copy_pages n child i k).1
unfolding copy_pages modify
copy_pages-SameBytes zero child i k ne owned e = record {
  same = λ j o lo hi lt. absurd (omega (arith, lo, hi));
}
copy_pages-SameBytes (suc n) child i k ne owned e =
    step-SameBytes k child i n ne owned (alloc_frame (sched_of k).mm)
      (alloc_frame-Alloc (sched_of k).mm)
      (λ f m o h. copy_pages-SameBytes n child (suc i) (copy_page k child i f m) ne o h) e
