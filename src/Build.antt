-- ===== src/Build.antt =====
-- build.c: the tool that joins the boot sector, the kernel and the user's program to one image, on
-- standard output. The files of the host are a parameter. What the tool says on standard error,
-- `fprintf` and the text of `die`, is left out, but for which of the messages `die` has.
pub mod Disk
pub mod Copies
pub mod Rounds
pub mod Sector
pub mod Image
pub mod Joined
mod Tests
use s.Base.{
  ℕ, zero, suc, ◌+◌, ◌-◌, ◌*◌, ◌/◌, ◌%◌, ◌^◌, min, Option, none, some, Bool, true, false, not, ◌||◌,
  ◌&&◌, List, [], ◌∷◌, length, ℤ, pos, ◌=ℤ◌, is_neg, ◌==◌, if◌then◌else◌, update,
}
use s.Utils.Placed.{placed}

-- The calls of the host. `read` gives the number and the bytes read, `fstat` the size of a file.
pub record Host (W : Type 0) : Type 0 where
  pub open_file : W → List ℕ → ℤ × W
  pub read : W → ℤ → ℕ → ℤ × List ℕ × W
  pub write : W → ℤ → List ℕ → ℤ × W
  pub close : W → ℤ → W
  pub fstat : W → ℤ → Option ℕ × W
  pub lseek : W → ℤ → ℕ → ℤ × W

-- The messages of `die`.
pub data Failure : Type 0 where
  unable_to_open unable_to_stat unable_to_read_header non_minix_header : Failure
  illegal_data_segment illegal_bss_segment illegal_symbol_table : Failure
  usage boot_block_size no_boot_flag write_call_failed : Failure
  error_reading unexpected_eof write_failed seek_failed : Failure
  write_of_image_length_failed write_of_system_length_failed write_of_user_length_failed : Failure

pub data Result {ℓ} (A : Type ℓ) : Type ℓ where
  died : Failure → Result A
  done : A → Result A

-- `buf` and `fd`, and the host.
pub record Builder (W : Type 0) : Type 0 where
  pub buf : ℕ → ℕ
  pub fd : ℤ
  pub world : W

abbrev pub buf_size : ℕ
buf_size = 1024

abbrev pub minix_header_len : ℕ
minix_header_len = 32

-- The bytes of `hdr`.
abbrev pub hdr : List ℕ
hdr = 0x01 ∷ 0x03 ∷ 0x10 ∷ 0x04 ∷ 0x20 ∷ 0x00 ∷ 0x00 ∷ 0x00 ∷ []

-- The `n` bytes of an array from an index on.
unfoldable pub bytes_of : (ℕ → ℕ) → (i n : ℕ) → List ℕ
bytes_of a i zero = []
bytes_of a i (suc n) = a i ∷ bytes_of a (suc i) n

-- `memcmp` finds no difference.
abbrev pub same_bytes : (ℕ → ℕ) → ℕ → List ℕ → Bool
same_bytes a i [] = true
same_bytes a i (c ∷ cs) = (a i == c) && same_bytes a (suc i) cs

-- `lb[k]`, a word of `buf`.
abbrev pub word_at : (ℕ → ℕ) → ℕ → ℕ
word_at a i = a i + 2 ^ 8 * a (i + 1) + 2 ^ 16 * a (i + 2) + 2 ^ 24 * a (i + 3)

abbrev pub lb : (ℕ → ℕ) → ℕ → ℕ
lb buf k = word_at buf (4 * k)

-- `n & 0xff`
abbrev pub low_byte : ℕ → ℕ
low_byte n = n % 2 ^ 8

abbrev pub M : Type 0 → Type 0 → Type 0
M W A = Builder W → Result (A × Builder W)

module _ {W : Type 0} where
  abbrev pub and_then :
      {A B : Type 0} → Result (A × Builder W) → (A → M W B) → Result (B × Builder W)
  and_then (died e) f = died e
  and_then (done r) f = f r.0 r.1

  infixl 5 ◌>>=◌ ◌>>◌
  abbrev pub ◌>>=◌ : {A B : Type 0} → M W A → (A → M W B) → M W B
  ◌>>=◌ m f b = and_then (m b) f

  abbrev pub ◌>>◌ : {B : Type 0} → M W (Unit {0}) → M W B → M W B
  m >> k = m >>= λ _. k

  abbrev pub pure : {A : Type 0} → A → M W A
  pure a b = done (a, b)

  abbrev pub die : {A : Type 0} → Failure → M W A
  die e b = died e

  -- `if (test) die(...)`
  unfoldable pub die_if : Bool → Failure → M W (Unit {0})
  die_if true e = die e
  die_if false e = pure tt

  abbrev pub set_byte : ℕ → ℕ → M W (Unit {0})
  set_byte i c b = done (tt, record b { buf = update b.buf i c })

module _ {W : Type 0} (host : Host W) where
  unfoldable pub open_fd : List ℕ → M W ℤ
  open_fd name b =
      let (fd, w) = host.open_file b.world name in done (fd, record b { fd = fd; world = w })

  -- A read into `buf`.
  unfoldable pub read_buf : ℕ → M W ℤ
  read_buf n b =
      let (count, bytes, w) = host.read b.world b.fd n in
      done (count, record b { buf = placed bytes b.buf 0; world = w })

  -- `write(1, buf, n) != n`
  unfoldable pub write_buf : ℕ → M W Bool
  write_buf n b =
      let (count, w) = host.write b.world (pos 1) (bytes_of b.buf 0 n) in
      done (not (count =ℤ pos n), record b { world = w })

  unfoldable pub close_fd : M W (Unit {0})
  close_fd b = done (tt, record b { world = host.close b.world b.fd })

  unfoldable pub stat_fd : M W (Option ℕ)
  stat_fd b = let (size, w) = host.fstat b.world b.fd in done (size, record b { world = w })

  -- `lseek(1, at, SEEK_SET) != at`
  unfoldable pub seek_out : ℕ → M W Bool
  seek_out at b =
      let (p, w) = host.lseek b.world (pos 1) at in done (not (p =ℤ pos at), record b { world = w })

  abbrev pub get_buf : M W (ℕ → ℕ)
  get_buf b = done (b.buf, b)

  unfoldable pub minix_open : List ℕ → M W (Unit {0})
  minix_open name = do
    fd ← open_fd name
    die_if (is_neg fd) unable_to_open
    n ← read_buf minix_header_len
    die_if (not (n =ℤ pos minix_header_len)) unable_to_read_header
    buf ← get_buf
    die_if (not (same_bytes buf 0 hdr) || not (lb buf 5 == 0)) non_minix_header
    die_if (not (lb buf 3 == 0)) illegal_data_segment
    die_if (not (lb buf 4 == 0)) illegal_bss_segment
    die_if (not (lb buf 7 == 0)) illegal_symbol_table

  -- The boot sector, with the root device's numbers.
  unfoldable pub copy_sector : List ℕ → M W (Unit {0})
  copy_sector name = do
    minix_open name
    i ← read_buf buf_size
    die_if (not (i =ℤ pos 512)) boot_block_size
    buf ← get_buf
    die_if (not (buf 510 == 0x55) || not (buf 511 == 0xaa)) no_boot_flag
    set_byte 508 0
    set_byte 509 0
    short ← write_buf 512
    die_if short write_call_failed
    close_fd

  -- The loop over a file, `sz` bytes of which are left; a round moves at least one.
  unfoldable pub copy_rounds : ℕ → ℕ → M W (Unit {0})
  copy_rounds zero sz = pure tt
  copy_rounds (suc fuel) sz = if sz == 0 then pure tt else do
    n ← read_buf (min buf_size sz)
    die_if (is_neg n) error_reading
    die_if (not (n =ℤ pos (min buf_size sz))) unexpected_eof
    short ← write_buf (min buf_size sz)
    die_if short write_failed
    copy_rounds fuel (sz - min buf_size sz)

  unfoldable pub size_or_die : Option ℕ → M W ℕ
  size_or_die none = die unable_to_stat
  size_or_die (some size) = pure (size % 2 ^ 32)

  -- A file as it is, and its size.
  unfoldable pub copy_file : List ℕ → M W ℕ
  unfolding copy_rounds
  copy_file name = do
    fd ← open_fd name
    die_if (is_neg fd) unable_to_open
    st ← stat_fd
    sz ← size_or_die st
    copy_rounds sz sz
    close_fd
    pure sz

  -- Four bytes at a place of the image: the lower three of a number, and 0.
  unfoldable pub write_size : (at size : ℕ) → Failure → M W (Unit {0})
  write_size at size e = do
    lost ← seek_out at
    die_if lost seek_failed
    set_byte 0 (low_byte size)
    set_byte 1 (low_byte (size / 2 ^ 8))
    set_byte 2 (low_byte (size / 2 ^ 16))
    set_byte 3 0
    short ← write_buf 4
    die_if short e

  -- The size of the image, in units of 16 bytes.
  unfoldable pub write_image_size : ℕ → M W (Unit {0})
  write_image_size im_size = do
    lost ← seek_out 500
    die_if lost seek_failed
    set_byte 0 (low_byte im_size)
    set_byte 1 (low_byte (im_size / 2 ^ 8))
    short ← write_buf 2
    die_if short write_of_image_length_failed

  -- `main` on the names of the three files.
  unfoldable pub build_image : (bootsect system user : List ℕ) → M W (Unit {0})
  unfolding minix_open copy_sector copy_file write_size write_image_size
  build_image bootsect system user = do
    copy_sector bootsect
    sys_size ← copy_file system
    usr_size ← copy_file user
    write_image_size ((sys_size + usr_size + 15) % 2 ^ 32 / 16)
    write_size 512 sys_size write_of_system_length_failed
    write_size 516 usr_size write_of_user_length_failed
    write_size 520 0x7DCA write_of_user_length_failed

  unfoldable pub main : List (List ℕ) → M W (Unit {0})
  unfolding build_image
  main (program ∷ bootsect ∷ system ∷ user ∷ []) = build_image bootsect system user
  main _ = die usage
