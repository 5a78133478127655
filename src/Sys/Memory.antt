-- ===== src/Sys/Memory.antt =====
-- The memory behind the addresses of a task. `memory f o` is byte `o` of frame `f`. The kernel's
-- pages and the code pages lead to the frames of their own numbers, the data pages to the frames
-- that the task's structure lists.
use s.Base.{
  ℕ, suc, ◌+◌, ◌-◌, ◌*◌, ◌/◌, ◌%◌, ◌<◌, ◌≤◌, ◌≡◌, refl, ◌≢◌, true, false, ◌&&◌, arith, update,
  update_ne, ◌==◌, leb, ltb, if◌then◌else◌, loop, loop_inv, ap, ◌∙◌, sym, ==→≡, Bool-cases, inl,
  inr,
}
use s.Mm.{page_size, num_pag_code, num_pag_data, l_user_start, pag_log_init_data_p0}
use s.Utils.Copy.{spliced}

-- The address of data page `i`.
abbrev pub data_address : ℕ → ℕ
data_address i = l_user_start + num_pag_code * page_size + i * page_size

-- The frame behind a page, for the frames of a task.
unfoldable pub frame_of : (ℕ → ℕ) → ℕ → ℕ
frame_of frames page =
    if leb pag_log_init_data_p0 page && ltb page (pag_log_init_data_p0 + num_pag_data)
    then frames (page - pag_log_init_data_p0)
    else page

-- What a task reads at an address.
unfoldable pub view : (ℕ → ℕ → ℕ) → (ℕ → ℕ) → ℕ → ℕ
view memory frames a = memory (frame_of frames (a / page_size)) (a % page_size)

-- A byte that a task writes.
unfoldable pub put_byte : (ℕ → ℕ → ℕ) → (ℕ → ℕ) → (a b : ℕ) → ℕ → ℕ → ℕ
put_byte memory frames a b =
    let f = frame_of frames (a / page_size) in update memory f (update (memory f) (a % page_size) b)

-- The `size` bytes of `src`, written by a task from an address on.
unfoldable pub put : (ℕ → ℕ) → (ℕ → ℕ → ℕ) → (ℕ → ℕ) → (addr size : ℕ) → ℕ → ℕ → ℕ
unfolding loop
put src memory frames addr size = loop size (λ i m. put_byte m frames (addr + i) (src i)) memory

-- No frame stands behind two data pages.
abbrev pub IsApart : (ℕ → ℕ) → Type 0
IsApart frames = (i j : ℕ) → i < num_pag_data → j < num_pag_data → frames i ≡ frames j → i ≡ j

-- The block lies in the data pages.
abbrev pub InData : (addr size : ℕ) → Type 0
InData addr size = (data_address 0 ≤ addr) × (addr + size ≤ data_address num_pag_data)

frame_of-data :
    (frames : ℕ → ℕ) (a : ℕ)
    → InData a 1
    → frame_of frames (a / page_size) ≡ frames (a / page_size - pag_log_init_data_p0)
unfolding frame_of
frame_of-data frames a (lo, hi) =
    let e : leb pag_log_init_data_p0 (a / page_size)
          && ltb (a / page_size) (pag_log_init_data_p0 + num_pag_data)
        ≡ true =
      ground (arith, lo, hi) in
    rw e refl

-- Two addresses of data pages with the same frame and the same place in it are the same.
frame_of-same :
    (frames : ℕ → ℕ) (a b : ℕ)
    → IsApart frames
    → InData a 1
    → InData b 1
    → frame_of frames (a / page_size) ≡ frame_of frames (b / page_size)
    → a / page_size ≡ b / page_size
frame_of-same frames a b apart ina inb e =
    let (alo, ahi) = ina in
    let (blo, bhi) = inb in
    let p : a / page_size - pag_log_init_data_p0 ≡ b / page_size - pag_log_init_data_p0 =
      apart (a / page_size - pag_log_init_data_p0) (b / page_size - pag_log_init_data_p0)
        (omega (arith, alo, ahi)) (omega (arith, blo, bhi))
        (sym (frame_of-data frames a ina) ∙ e ∙ frame_of-data frames b inb) in
    omega (arith, p, alo, blo)

put_byte-view :
    (memory : ℕ → ℕ → ℕ) (frames : ℕ → ℕ) (a b j : ℕ)
    → IsApart frames
    → InData a 1
    → InData j 1
    → view (put_byte memory frames a b) frames j ≡ (if j == a then b else view memory frames j)
unfolding view put_byte update
put_byte-view memory frames a b j apart ina inj =
    elim (Bool-cases (frame_of frames (j / page_size) == frame_of frames (a / page_size))) [
      | inl h ↦
          let page = frame_of-same frames j a apart inj ina (==→≡ _ _ h) in
          elim (Bool-cases (j == a)) [
            | inl same ↦
                let off : j % page_size == a % page_size ≡ true = ground (arith, same) in
                rw (h, off, same) refl
            | inr other ↦
                let off : j % page_size == a % page_size ≡ false = ground (arith, other, page) in
                rw (h, off, other) (ap (λ f. memory f (j % page_size)) (sym (==→≡ _ _ h)))
          ]
      | inr h ↦
          let other : j == a ≡ false =
            ground (arith, h, ap (λ i. frame_of frames (i / page_size))) in
          rw (h, other) refl
    ]

-- In the data pages, a task reads what it has written.
pub put-view :
    (src : ℕ → ℕ) (memory : ℕ → ℕ → ℕ) (frames : ℕ → ℕ) (addr size j : ℕ)
    → IsApart frames
    → InData addr size
    → InData j 1
    → view (put src memory frames addr size) frames j
      ≡ spliced src 0 (view memory frames) addr size j
unfolding put
put-view src memory frames addr size j apart (lo, hi) inj =
    loop_inv (λ i m. view m frames j ≡ spliced src 0 (view memory frames) addr i j) size
      (λ i m. put_byte m frames (addr + i) (src i)) memory
      (λ i m lt h.
        put_byte-view m frames (addr + i) (src i) j apart (omega (arith, lo), omega (arith, hi, lt))
          inj
        ∙ next (view memory frames j) (view m frames j) i h)
      (ground arith)
  where
    next :
        (old now i : ℕ)
        → now ≡ (if leb addr j && ltb j (addr + i) then src (0 + (j - addr)) else old)
        → (if j == addr + i then src i else now)
          ≡ (if leb addr j && ltb j (addr + suc i) then src (0 + (j - addr)) else old)
    next old now i h = elim (Bool-cases (j == addr + i)) [
      | inl e ↦
          let at : 0 + (j - addr) ≡ i = ground (arith, e) in
          let inside : leb addr j && ltb j (addr + suc i) ≡ true = ground (arith, e) in
          rw (e, inside, at) refl
      | inr e ↦
          let same : leb addr j && ltb j (addr + suc i) ≡ leb addr j && ltb j (addr + i) =
            ground (arith, e) in
          rw (e, same) h
    ]

-- Frames that stand behind none of its data pages are not written through them.
pub put-others :
    (src : ℕ → ℕ) (memory : ℕ → ℕ → ℕ) (frames : ℕ → ℕ) (addr size f : ℕ)
    → InData addr size
    → ((i : ℕ) → i < num_pag_data → frames i ≢ f)
    → put src memory frames addr size f ≡ memory f
unfolding put put_byte
put-others src memory frames addr size f (lo, hi) out =
    loop_inv (λ i m. m f ≡ memory f) size (λ i m. put_byte m frames (addr + i) (src i)) memory
      (λ i m lt h.
        let ind : InData (addr + i) 1 = (omega (arith, lo), omega (arith, hi, lt)) in
        update_ne m (frame_of frames ((addr + i) / page_size)) f _ (λ e.
          out ((addr + i) / page_size - pag_log_init_data_p0) (omega (arith, lo, hi, lt))
            (sym (frame_of-data frames (addr + i) ind) ∙ sym e))
        ∙ h)
      refl
