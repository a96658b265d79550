-- ===== src/Kernel/Pmm/Examples.antt =====
-- kernel/src/memory/pmm.rs: a pool of eight frames, and a memory map with two usable pages.
use dunit_os.Prelude.{◌≡◌, refl, false, List, [], ◌∷◌, some, arith}
use dunit_os.Kernel.Pmm.{
  MemRegion, Pmm, is_free, is_clear, alloc_contiguous, mark_used, mark_free, set_bit, clear_bit,
}
use dunit_os.Kernel.Pmm.Frames.{count}
use dunit_os.Kernel.Pmm.Alloc.{IsValid, Answer}
use dunit_os.Kernel.Pmm.Runs.{alloc_contiguous_lem}
use dunit_os.Kernel.Pmm.Boot.{copy_regions_from_boot, init}
use dunit_os.Kernel.Pmm.Ready.{Published, init_lem}
use dunit_os.Kernel.Pmm.Calls.{Call, run, Avoids, run_exclusive}

-- Frames 0 and 2 are in use.
abbrev pool : Pmm
pool = record {
  bitmap = 5 ∷ [];
  total_frames = 8;
  usable_frames = 8;
  free_frames = 6;
  base_addr = 0x1000;
}

counted : pool.free_frames ≡ count pool.total_frames (is_free pool.bitmap)
unfolding count is_free is_clear
counted = refl

pool-IsValid : IsValid pool
pool-IsValid = record {
  covers = record { bytes = (omega arith, tt); long = omega arith };
  counted = counted;
  fits = omega arith;
}

frame_used : is_free pool.bitmap 2 ≡ false
unfolding is_free is_clear
frame_used = refl

alloc_contiguous_lem_example : Answer 3 pool (alloc_contiguous 3 pool)
alloc_contiguous_lem_example = alloc_contiguous_lem 3 pool (omega arith) pool-IsValid

-- The first three free frames in a row start at frame 3.
three_frames : (alloc_contiguous 3 pool).1 ≡ some 0x4000
unfolding alloc_contiguous is_clear mark_used set_bit
three_frames = refl

abbrev calls : List Call
calls = Call.one ∷ Call.many 2 ∷ Call.release 0x1000 ∷ Call.one ∷ []

run_exclusive_example :
    IsValid (run calls pool).0
    × (is_free (run calls pool).0.bitmap 2 ≡ false)
    × Avoids pool 2 (run calls pool).1
run_exclusive_example = run_exclusive pool 2 calls pool-IsValid (omega arith) frame_used (refl, tt)

-- Two whole pages, and a region that is not usable.
abbrev memory_map : List MemRegion
memory_map =
    record { base = 0x1800; length = 0x3000; region_type = 0 }
    ∷ record { base = 0x8000; length = 0x1000; region_type = 1 }
    ∷ []

abbrev booted : Pmm
booted = record {
  bitmap = 0xFC ∷ [];
  total_frames = 2;
  usable_frames = 2;
  free_frames = 2;
  base_addr = 0x2000;
}

boots : init memory_map ≡ some booted
unfolding init is_clear mark_free clear_bit
boots = refl

init_lem_example : Published (copy_regions_from_boot memory_map) booted
init_lem_example = init_lem memory_map booted boots
