-- ===== src/Kernel/Pmm/Boot.antt =====
-- kernel/src/memory/pmm.rs: `init`, from the memory map that the boot code leaves.
use dunit_os.Prelude.{
  ℕ, ◌+◌, ◌-◌, ◌/◌, min, max, Bool, ◌||◌, List, [], ◌∷◌, replicate, take, is_empty, Option, none,
  some, ltb, ◌==◌, not, ◌&&◌, ◌!=◌, if◌then◌else◌,
}
use dunit_os.Kernel.Pmm.{
  MemRegion, Pmm, new, reserve_all_frames, mark_region_free_in_pool, saturating_add, align_down,
  page_size, memmap_usable, bitmap_bytes, usize_max,
}

abbrev pub max_regions : ℕ
max_regions = 32

-- `copy_regions_from_boot`: no more regions than the cache has room for.
unfoldable pub copy_regions_from_boot : List MemRegion → List MemRegion
copy_regions_from_boot boot_mem_regions = take max_regions boot_mem_regions

-- The pages of a region, as the pool's bounds see them.
abbrev pub first_page : MemRegion → ℕ
first_page r = align_down (saturating_add r.base (page_size - 1))

abbrev pub last_page : MemRegion → ℕ
last_page r = align_down (saturating_add r.base r.length)

abbrev pub is_skipped : MemRegion → Bool
is_skipped r = r.region_type != memmap_usable || ltb r.length page_size

-- The loop of `usable_pool_bounds`: `first` and `last` after the regions.
unfoldable pub bounds : List MemRegion → (first last : ℕ) → ℕ × ℕ
bounds [] first last = (first, last)
bounds (r ∷ regions) first last =
    let widen = not (is_skipped r) && ltb (first_page r) (last_page r) in
    bounds regions (if widen then min first (first_page r) else first)
      (if widen then max last (last_page r) else last)

unfoldable pub usable_pool_bounds : List MemRegion → Option (ℕ × ℕ)
unfolding bounds
usable_pool_bounds regions =
    let (first, last) = bounds regions usize_max 0 in
    if ltb first last then some (first, last) else none

-- The loop that enables the usable regions.
unfoldable pub enable : List MemRegion → Pmm → Pmm
unfolding mark_region_free_in_pool
enable [] p = p
enable (r ∷ regions) p =
    enable regions
      (if r.region_type == memmap_usable then mark_region_free_in_pool r.base r.length p else p)

-- The pool between two bounds, if the bitmap has room for it and a frame is free in it.
unfoldable pub init_pool : List MemRegion → ℕ × ℕ → Option Pmm
unfolding enable new reserve_all_frames
init_pool regions (pool_start, pool_end) =
    let pool_size : ℕ = pool_end - pool_start in
    let bitmap_size : ℕ = (pool_size / page_size + 7) / 8 in
    let p =
      enable regions (reserve_all_frames (new pool_start pool_size (replicate bitmap_size 0))) in
    if ltb pool_size page_size || ltb bitmap_bytes bitmap_size
    then none
    else if p.free_frames == 0
    then none
    else some p

-- `init`: the manager that it publishes, or none where it returns false.
unfoldable pub init : List MemRegion → Option Pmm
unfolding copy_regions_from_boot usable_pool_bounds init_pool
init boot_mem_regions =
    let regions : List MemRegion = copy_regions_from_boot boot_mem_regions in
    if is_empty regions
    then none
    else elim (usable_pool_bounds regions) [ none ↦ none | some b ↦ init_pool regions b ]
