-- ===== src/Kernel/Pmm.antt =====
-- kernel/src/memory/pmm.rs: the bitmap of physical frames. A set bit is a frame that is in use.
pub mod Bits
pub mod Frames
pub mod Scan
pub mod Alloc
pub mod Runs
pub mod Regions
pub mod Boot
pub mod Ready
pub mod Calls
mod Examples
use dunit_os.Prelude.{
  ℕ, zero, suc, ◌+◌, ◌-◌, ◌*◌, ◌/◌, ◌%◌, ◌^◌, min, max, bit_and, bit_or, Bool, true, false, not,
  ◌&&◌, ◌||◌, List, [], ◌∷◌, length, replicate, set, get_elem?, get_or, drop, ◌++◌, Option, none,
  some, ltb, leb, ◌==◌, ◌!=◌, if◌then◌else◌,
}

abbrev pub page_size : ℕ
page_size = 4096

abbrev pub memmap_usable : ℕ
memmap_usable = 0

abbrev pub bitmap_bytes : ℕ
bitmap_bytes = 65536

-- The largest `usize`, where `saturating_add` stops.
abbrev pub usize_max : ℕ
usize_max = 2 ^ 64 - 1

pub record MemRegion : Type 0 where
  pub base : ℕ
  pub length : ℕ
  pub region_type : ℕ

pub record Pmm : Type 0 where
  pub bitmap : List ℕ
  pub total_frames : ℕ
  pub usable_frames : ℕ
  pub free_frames : ℕ
  pub base_addr : ℕ

abbrev pub zeroed : ℕ → List ℕ → List ℕ
zeroed n bytes = replicate (min n (length bytes)) 0 ++ drop n bytes

-- `PhysicalMemoryManager::new`.
unfoldable pub new : (memory_start memory_size : ℕ) → List ℕ → Pmm
new memory_start memory_size bitmap =
    let total : ℕ = memory_size / page_size in
    record {
      bitmap = zeroed ((total + 7) / 8) bitmap;
      total_frames = total;
      usable_frames = total;
      free_frames = total;
      base_addr = memory_start;
    }

-- `byte & (1 << bit) == 0`, `byte | (1 << bit)`, `byte & !(1 << bit)`.
unfoldable pub is_clear : ℕ → ℕ → Bool
is_clear byte bit = bit_and byte (2 ^ bit) == 0

unfoldable pub set_bit : ℕ → ℕ → ℕ
set_bit byte bit = bit_or byte (2 ^ bit)

unfoldable pub clear_bit : ℕ → ℕ → ℕ
clear_bit byte bit = bit_and byte (255 - 2 ^ bit)

abbrev pub byte_is_clear : Option ℕ → ℕ → Bool
byte_is_clear none bit = false
byte_is_clear (some byte) bit = is_clear byte bit

-- The test `byte_idx < bitmap.len() && bitmap[byte_idx] & mask == 0`.
unfoldable pub is_free : List ℕ → ℕ → Bool
is_free bitmap frame = byte_is_clear (get_elem? bitmap (frame / 8)) (frame % 8)

abbrev pub byte_is_used : Option ℕ → ℕ → Bool
byte_is_used none bit = false
byte_is_used (some byte) bit = not (is_clear byte bit)

-- The test `byte_idx < bitmap.len() && bitmap[byte_idx] & mask != 0`.
unfoldable pub is_used : List ℕ → ℕ → Bool
is_used bitmap frame = byte_is_used (get_elem? bitmap (frame / 8)) (frame % 8)

-- `bitmap[frame / 8]`, changed. The code does so only inside the bitmap.
abbrev pub at_byte : (ℕ → ℕ) → List ℕ → ℕ → Option ℕ → List ℕ
at_byte f bitmap i none = bitmap
at_byte f bitmap i (some byte) = set bitmap i (f byte)

unfoldable pub mark_used : ℕ → List ℕ → List ℕ
mark_used frame bitmap =
    at_byte (λ byte. set_bit byte (frame % 8)) bitmap (frame / 8) (get_elem? bitmap (frame / 8))

unfoldable pub mark_free : ℕ → List ℕ → List ℕ
mark_free frame bitmap =
    at_byte (λ byte. clear_bit byte (frame % 8)) bitmap (frame / 8) (get_elem? bitmap (frame / 8))

-- `mark_frame_index_free`: the bitmap after, and whether a frame became free.
unfoldable pub mark_frame_index_free : (total frame : ℕ) → List ℕ → List ℕ × Bool
unfolding is_used mark_free
mark_frame_index_free total frame bitmap =
    if leb total frame
    then (bitmap, false)
    else if is_used bitmap frame
    then (mark_free frame bitmap, true)
    else (bitmap, false)

unfoldable pub reserve_all_frames : Pmm → Pmm
reserve_all_frames p = record p {
  bitmap = replicate (length p.bitmap) 0xFF;
  usable_frames = 0;
  free_frames = 0;
}

abbrev pub saturating_add : ℕ → ℕ → ℕ
saturating_add a b = min (a + b) usize_max

-- `& !(PAGE_SIZE - 1)`.
abbrev pub align_down : ℕ → ℕ
align_down a = a / page_size * page_size

-- The loop over the frames of a region: the bitmap after, and how many became free.
unfoldable pub free_run : (count frame total : ℕ) → List ℕ → List ℕ × ℕ
unfolding mark_frame_index_free
free_run zero frame total bitmap = (bitmap, 0)
free_run (suc count) frame total bitmap =
    let (bitmap1, freed) = mark_frame_index_free total frame bitmap in
    let (bitmap2, n) = free_run count (suc frame) total bitmap1 in
    (bitmap2, (if freed then suc n else n))

abbrev pub freed_by : Pmm → List ℕ × ℕ → Pmm
freed_by p (bitmap, n) = record p {
  bitmap = bitmap;
  usable_frames = (p.usable_frames + n) % 2 ^ 64;
  free_frames = (p.free_frames + n) % 2 ^ 64;
}

-- The frames `first..last` of a pool that lie wholly in `base..base + length`, if there are any.
abbrev pub region_start : Pmm → ℕ → ℕ
region_start p base = max (align_down (saturating_add base (page_size - 1))) p.base_addr

abbrev pub region_end : Pmm → ℕ → ℕ → ℕ
region_end p base length =
    min (align_down (saturating_add base length))
      (saturating_add p.base_addr (p.total_frames * page_size))

unfoldable pub mark_region_free_in_pool : (base length : ℕ) → Pmm → Pmm
unfolding free_run
mark_region_free_in_pool base length p =
    let first : ℕ = (region_start p base - p.base_addr) / page_size in
    let last : ℕ = (region_end p base length - p.base_addr) / page_size in
    if leb (region_end p base length) (region_start p base)
    then p
    else freed_by p (free_run (min last p.total_frames - first) first p.total_frames p.bitmap)

-- The loop over the bits of one byte, which was read before: the bitmap after, and the frame found.
-- Bits of frames that are not in the pool are set on the way.
unfoldable pub scan_bits : (turns bit byte index total : ℕ) → List ℕ → List ℕ × Option ℕ
scan_bits zero bit byte index total bitmap = (bitmap, none)
scan_bits (suc turns) bit byte index total bitmap =
    let bitmap1 : List ℕ =
      if is_clear byte bit then mark_used (index * 8 + bit) bitmap else bitmap in
    let rest = scan_bits turns (suc bit) byte index total bitmap1 in
    if is_clear byte bit && ltb (index * 8 + bit) total
    then (bitmap1, some (index * 8 + bit))
    else rest

-- The loop over the bytes, on as many as are left of the bitmap.
unfoldable pub scan_bytes : (turns index total : ℕ) → List ℕ → List ℕ × Option ℕ
unfolding scan_bits
scan_bytes zero index total bitmap = (bitmap, none)
scan_bytes (suc turns) index total bitmap =
    let byte : ℕ = get_or bitmap index 0 in
    let here : List ℕ × Option ℕ =
      if byte != 0xFF then scan_bits 8 0 byte index total bitmap else (bitmap, none) in
    let rest = scan_bytes turns (suc index) total here.0 in
    elim here.1 [ none ↦ rest | some frame ↦ here ]

-- `fetch_sub` on the count of free frames, which wraps.
abbrev pub taken : ℕ → Pmm → Pmm
taken n p = record p { free_frames = (p.free_frames + 2 ^ 64 - n) % 2 ^ 64 }

abbrev pub frame_addr : Pmm → ℕ → ℕ
frame_addr p frame = p.base_addr + frame * page_size

abbrev pub allocated : Pmm → ℕ → List ℕ × Option ℕ → Pmm × Option ℕ
allocated p count (bitmap, none) = (record p { bitmap = bitmap }, none)
allocated p count (bitmap, some frame) =
    (taken count (record p { bitmap = bitmap }), some (frame_addr p frame))

unfoldable pub alloc_frame : Pmm → Pmm × Option ℕ
unfolding scan_bytes
alloc_frame p = allocated p 1 (scan_bytes (length p.bitmap) 0 p.total_frames p.bitmap)

-- `for idx in start..start + count`, each bit set.
unfoldable pub use_run : (count start : ℕ) → List ℕ → List ℕ
use_run zero start bitmap = bitmap
use_run (suc count) start bitmap = use_run count (suc start) (mark_used start bitmap)

-- The loop of `alloc_contiguous`: how many frames are left, the frame, and the run that ends before it.
abbrev pub start_of : Option ℕ → ℕ → ℕ
start_of none frame = frame
start_of (some start) frame = start

abbrev pub len_of : Option ℕ → ℕ → ℕ
len_of none len = 1
len_of (some start) len = len + 1

unfoldable pub scan_run :
    (turns frame count : ℕ) → (run_start : Option ℕ) → (run_len : ℕ) → List ℕ → List ℕ × Option ℕ
unfolding use_run is_free
scan_run zero frame count run_start run_len bitmap = (bitmap, none)
scan_run (suc turns) frame count run_start run_len bitmap =
    let start : ℕ = start_of run_start frame in
    let len : ℕ = len_of run_start run_len in
    let longer = scan_run turns (suc frame) count (some start) len bitmap in
    let broken = scan_run turns (suc frame) count none 0 bitmap in
    if is_free bitmap frame
    then (if len == count then (use_run count start bitmap, some start) else longer)
    else broken

unfoldable pub alloc_contiguous : ℕ → Pmm → Pmm × Option ℕ
unfolding scan_run alloc_frame
alloc_contiguous count p =
    if count == 0
    then (p, none)
    else if count == 1
    then alloc_frame p
    else allocated p count (scan_run p.total_frames 0 count none 0 p.bitmap)

unfoldable pub free_frame : ℕ → Pmm → Pmm
unfolding is_used mark_free
free_frame addr p =
    let frame : ℕ = (addr - p.base_addr) / page_size in
    if ltb addr p.base_addr || leb p.total_frames frame
    then p
    else if is_used p.bitmap frame
    then record p { bitmap = mark_free frame p.bitmap; free_frames = (p.free_frames + 1) % 2 ^ 64 }
    else p

unfoldable pub available_memory : Pmm → ℕ
available_memory p = p.free_frames * page_size

unfoldable pub total_memory : Pmm → ℕ
total_memory p = p.usable_frames * page_size
