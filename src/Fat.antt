-- ===== src/Fat.antt =====
-- fat.c and include/fat.h: the file system in memory. `block_buffer` and `fs` are the fields of one
-- record; an `int` that can be negative is a `ℤ`. A negative index is read as an index far past the
-- array, and the theorems are about states where none occurs.
pub mod Calls
pub mod Chain
pub mod Assign
pub mod Grow
pub mod Bytes
pub mod Read
pub mod Round
pub mod Write
pub mod Written
pub mod Answers
pub mod Start
pub mod Names
pub mod Opens
pub mod Unlink
mod Tests
use s.Base.{
  ℕ, zero, suc, ◌+◌, ◌-◌, ◌*◌, ◌/◌, ◌%◌, ◌^◌, Bool, true, false, not, ◌&&◌, ◌||◌, Option, none,
  some, List, [], ◌∷◌, ℤ, pos, negsuc, minus, is_neg, pos_part, ◌+ℤ◌, ◌-ℤ◌, ◌=ℤ◌, update, ◌==◌, leb,
  ltb, if◌then◌else◌, find_below, loop, length,
}
use s.Kernutil.{strcat, strcmp, string_at}
use s.Utils.{copy_data}

abbrev pub max_blocks : ℕ
max_blocks = 30

abbrev pub block_size : ℕ
block_size = 256

abbrev pub max_files : ℕ
max_files = 10

abbrev pub file_name_size : ℕ
file_name_size = 10

abbrev pub eoc : ℤ
eoc = minus 1

abbrev pub free_type : ℤ
free_type = minus 1

abbrev pub enoent : ℕ
enoent = 2

abbrev pub enospc : ℕ
enospc = 28

abbrev pub enametoolong : ℕ
enametoolong = 36

-- `fat_dir_entry`, without `fops`, which nothing reads.
pub record DirEntry : Type 0 where
  pub name : ℕ → ℕ
  pub size : ℕ
  pub block_count : ℕ
  pub mode : ℤ
  pub first_block : ℤ
  pub last_block : ℤ
  pub opens : ℤ

pub record Fat : Type 0 where
  pub root : ℕ → DirEntry
  pub total_block_count : ℤ
  pub used_block_count : ℤ
  pub first_free_block : ℤ
  pub last_free_block : ℤ
  pub free_block_count : ℤ
  pub block_lists : ℕ → ℤ
  pub contents : ℕ → ℕ → ℕ
  pub block_buffer : ℕ → ℕ

-- An `int` used as an index.
abbrev pub index : ℤ → ℕ
index (pos n) = n
index (negsuc n) = 2 ^ 32 - 1 - n

-- `fs.root[file]` changed
abbrev pub with_entry : Fat → ℕ → (DirEntry → DirEntry) → Fat
with_entry fs file f = record fs { root = update fs.root file (f (fs.root file)) }

-- `fs.block_lists[b] = v`
abbrev pub with_link : Fat → ℤ → ℤ → Fat
with_link fs b v = record fs { block_lists = update fs.block_lists (index b) v }

-- The entry made free, or made for a new file.
abbrev pub reset_entry : List ℕ → ℤ → DirEntry → DirEntry
reset_entry path mode e = record e {
  name = strcat e.name path [];
  mode = mode;
  size = 0;
  first_block = eoc;
  last_block = eoc;
  block_count = 0;
}

unfoldable pub init_fat : Fat → Fat
unfolding loop
init_fat fs = record fs {
  root = loop max_files (λ i r. update r i (reset_entry [] free_type (r i))) fs.root;
  total_block_count = pos max_blocks;
  used_block_count = pos 0;
  first_free_block = pos 0;
  last_free_block = pos (max_blocks - 1);
  free_block_count = pos max_blocks;
  block_lists =
      update (loop (max_blocks - 1) (λ i l. update l i (pos (i + 1))) fs.block_lists)
        (max_blocks - 1) eoc;
}

-- The loop of `fat_translate_block` with `lb` rounds left.
unfoldable pub follow : (ℕ → ℤ) → ℤ → ℕ → ℤ
follow links ph_block zero = ph_block
follow links ph_block (suc lb) =
    if ph_block =ℤ eoc then minus 1 else follow links (links (index ph_block)) lb

unfoldable pub fat_translate_block : Fat → ℕ → ℕ → ℤ
unfolding follow
fat_translate_block fs file logic_block =
    follow fs.block_lists (fs.root file).first_block logic_block

-- "Assign block to file"
abbrev pub link_block : Fat → ℕ → Fat
link_block fs file =
    let b = fs.first_free_block in
    with_entry
      (if (fs.root file).first_block =ℤ eoc
        then with_entry fs file (λ e. record e { first_block = b })
        else with_link fs (fs.root file).last_block b)
      file λ e. record e { last_block = b }

-- "Deletes block from free list"
abbrev pub unlink_free : Fat → Fat
unlink_free fs =
    let next = fs.block_lists (index fs.first_free_block) in
    record fs {
      first_free_block = next;
      last_free_block = if next =ℤ eoc then eoc else fs.last_free_block;
    }

-- "Marks end of the file", and the counters
abbrev pub end_file : Fat → ℕ → Fat
end_file fs file = record (with_link fs (fs.root file).last_block eoc) {
  used_block_count = fs.used_block_count +ℤ pos 1;
  free_block_count = fs.free_block_count -ℤ pos 1;
}

unfoldable pub fat_add_block : Fat → ℕ → ℤ × Fat
unfolding update
fat_add_block fs file =
    if fs.first_free_block =ℤ eoc
    then (minus enospc, fs)
    else let fs' = end_file (unlink_free (link_block fs file)) file in
      ((fs'.root file).last_block, fs')

-- `fat_read_block(block_buffer, ph_block)`; it answers 0.
unfoldable pub fat_read_block : Fat → ℤ → Fat
fat_read_block fs ph_block = record fs {
  block_buffer = copy_data (fs.contents (index ph_block)) 0 fs.block_buffer 0 block_size;
}

-- `fat_write_block(block_buffer, ph_block)`
unfoldable pub fat_write_block : Fat → ℤ → Fat
fat_write_block fs ph_block =
    let b = index ph_block in
    record fs {
      contents = update fs.contents b (copy_data fs.block_buffer 0 (fs.contents b) 0 block_size);
    }

-- A path is the memory that it points to.
unfoldable pub fat_check_path : (ℕ → ℕ) → ℤ
unfolding find_below
fat_check_path path = elim (find_below file_name_size (λ i. path i == 0)) [
  | some i ↦ pos 0
  | none ↦ minus enametoolong
]

-- The name of an entry as a string.
abbrev pub name_of : DirEntry → List ℕ
name_of e = string_at e.name 0 file_name_size

unfoldable pub fat_find_path : Fat → List ℕ → ℤ
fat_find_path fs path =
    elim (find_below max_files
      λ i. (strcmp (name_of (fs.root i)) path =ℤ pos 0) && not ((fs.root i).mode =ℤ free_type)) [
        | some i ↦ pos i
        | none ↦ minus enoent
      ]

-- `0 > file || file > MAX_FILES`
abbrev pub bad_file : ℤ → Bool
bad_file file = is_neg file || ltb max_files (pos_part file)

unfoldable pub fat_get_size : Fat → ℤ → ℤ
fat_get_size fs file = if bad_file file then minus 1 else pos (fs.root (pos_part file)).size

unfoldable pub fat_set_size : Fat → ℤ → ℕ → ℤ × Fat
fat_set_size fs file size =
    if bad_file file
    then (minus 1, fs)
    else (pos size, with_entry fs (pos_part file) (λ e. record e { size = size }))

unfoldable pub fat_open : ℤ → ℤ
fat_open file = if bad_file file then minus 1 else pos 0

-- `fs.root[file].opens`. For the number 10, which is let through, it is `fs.block_lists[3]`: the
-- directory ends at byte 400 of `fs`, and the lists begin at byte 420.
abbrev pub opens_at : Fat → ℕ → ℤ
opens_at fs file = if file == max_files then fs.block_lists 3 else (fs.root file).opens

unfoldable pub fat_close : Fat → ℤ → ℤ
fat_close fs file =
    if bad_file file
    then minus 1
    else if opens_at fs (pos_part file) =ℤ pos 0
    then minus 1
    else pos 0
