-- ===== src/Mm/Init.antt =====
-- The initialisation of paging in mm.c. Where the linker puts the page table and the pages that
-- guard the task structures (`&pagusr_table`, `task[i].task_protect`) is a parameter.
use s.Base.{ℕ, ◌+◌, ◌%◌, ◌^◌, true, update, loop}
use s.Mm.{
  Mm, zero_entry, total_pages, num_pag_kernel, num_pag_code, num_pag_data, pag_log_init_code_p0,
  pag_log_init_data_p0, used_frame_mark, bits_of, alloc_frame, init_frames,
}

abbrev pub entry_dir_pages : ℕ
entry_dir_pages = 0

abbrev pub nr_tasks : ℕ
nr_tasks = 10

-- `table_page` is `&pagusr_table >> 12`.
unfoldable pub init_dir_pages : ℕ → Mm → Mm
init_dir_pages table_page m = record m {
  dir_pages =
      update m.dir_pages entry_dir_pages
        (record { present = 1; rw = 1; user = 1; other = 0; pbase_addr = table_page % 2 ^ 20 });
}

-- `task_page i` is the page of `task[i].task_protect`.
unfoldable pub init_table_pages : (ℕ → ℕ) → Mm → Mm
unfolding loop
init_table_pages task_page m =
    let cleared = loop total_pages (λ i t. update t i zero_entry) m.pagusr_table in
    let kernel =
      loop num_pag_kernel (λ i t. update t i (record (t i) { pbase_addr = i; rw = 1; present = 1 }))
        cleared in
    record m {
      pagusr_table =
          loop nr_tasks
            (λ i t.
              update t (task_page i)
                (record (t (task_page i)) { pbase_addr = task_page i; rw = 0; present = 0 }))
            kernel;
    }

-- A round of the loop over the code pages: `first_ph_page` counts up with `pag`.
abbrev pub set_code_page : ℕ → Mm → Mm
set_code_page i m = record m {
  pagusr_table = update m.pagusr_table (pag_log_init_code_p0 + i) (record {
    present = 1;
    rw = 0;
    user = 1;
    other = 0;
    pbase_addr = (num_pag_kernel + i) % 2 ^ 20;
  });
  phys_mem = update m.phys_mem (num_pag_kernel + i) used_frame_mark;
}

-- A round of the loop over the data pages, which also fills `task->phpages`.
abbrev pub set_data_page : ℕ → Mm × (ℕ → ℕ) → Mm × (ℕ → ℕ)
set_data_page i (m, phpages) =
    let (f, m') = alloc_frame m in
    (
      record m' {
        pagusr_table =
            update m'.pagusr_table (pag_log_init_data_p0 + i)
              (record { present = 1; rw = 1; user = 1; other = 0; pbase_addr = bits_of 20 f });
      },
      update phpages i (bits_of 20 f),
    )

-- The task is named by its `phpages`.
unfoldable pub set_user_pages : Mm → (ℕ → ℕ) → Mm × (ℕ → ℕ)
unfolding loop
set_user_pages m phpages =
    loop num_pag_data set_data_page (loop num_pag_code set_code_page m, phpages)

-- `init_mm`, with the paging bit of `cr0` set at the end.
unfoldable pub init_mm : ℕ → (ℕ → ℕ) → Mm → Mm
init_mm table_page task_page m =
    record (init_dir_pages table_page (init_frames (init_table_pages task_page m))) {
      paging = true;
    }
