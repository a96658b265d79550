-- ===== src/Kernel/Heap/Examples.antt =====
-- kernel/src/allocator.rs: a heap of one page that hands out, takes back and grows.
use dunit_os.Prelude.{ℕ, ◌+◌, ◌^◌, ◌-◌, ◌≡◌, ◌≤◌, refl, List, [], ◌∷◌, some, arith, true, replicate}
use dunit_os.Prelude.Table.{total, lookup, insert}
use dunit_os.Kernel.Heap.{
  HeapInner, AllocationHeader, new_heap, add_bootstrap, alloc_from_free_list, dealloc, align_up,
  user_addr, requested_end, grow, required, alloc,
}
use dunit_os.Kernel.Heap.Growth.{alloc_grows}
use dunit_os.Kernel.Pmm.{Pmm, alloc_contiguous, is_free, is_clear}
use dunit_os.Kernel.Heap.Grants.{Answer, alloc_from_free_list_lem}
use dunit_os.Kernel.Heap.Returns.{dealloc-alloc_from_free_list}
use dunit_os.Kernel.Heap.Calls.{Call, IsProper, step, run, IsSound, owned, given}
use dunit_os.Kernel.Heap.Sound.{run-IsSound}

abbrev heap : HeapInner
heap = record {
  free_list =
      record { start = 0x10000; size = 0x1000 } ∷ record { start = 0x20000; size = 0x40 } ∷ [];
  total_bytes = 0x1040;
  headers = [];
}

bootstrapped :
    (add_bootstrap 0x10000 0x1000 new_heap).free_list
    ≡ record { start = 0x10000; size = 0x1000 } ∷ []
unfolding add_bootstrap
bootstrapped = refl

-- A hundred bytes at a multiple of 64 lie behind 64 bytes of padding and header.
hundred_bytes : (alloc_from_free_list 100 64 heap).1 ≡ some 0x10040
unfolding alloc_from_free_list requested_end user_addr align_up
hundred_bytes = refl

alloc_from_free_list_lem_example : Answer 100 64 heap (alloc_from_free_list 100 64 heap)
alloc_from_free_list_lem_example =
    alloc_from_free_list_lem 0x30000 100 64 heap (omega arith) (omega arith, (omega arith, tt))

-- Memory that holds zeros in front of an address that is not a live allocation.
abbrev nothing_there : ℕ → AllocationHeader
nothing_there addr = record { block_start = 0; block_size = 0 }

dealloc-alloc_from_free_list_example :
    (dealloc nothing_there 0x10040 (alloc_from_free_list 100 64 heap).0).free_list ≡ heap.free_list
dealloc-alloc_from_free_list_example =
    dealloc-alloc_from_free_list nothing_there 0x30000 100 64 0x10040 heap (omega arith)
      (omega arith, (omega arith, tt)) (omega arith, omega arith, (omega arith, omega arith, tt))
      hundred_bytes

abbrev calls : List Call
calls =
    Call.allocate 100 64
    ∷ Call.allocate 24 8
    ∷ Call.release 0x10040
    ∷ Call.extend 0x11000 0x1000
    ∷ Call.allocate 5000 16
    ∷ []

heap-IsSound : IsSound 0x30000 heap
unfolding lookup total
heap-IsSound = record {
  ahead = (omega arith, omega arith, (omega arith, omega arith, tt));
  sorted = tt;
  live = λ addr header e. absurd (cc);
  single = λ x. ground arith;
  below = λ x far. ground arith;
}

region_is_new : (x : ℕ) → owned x heap + given x calls ≤ 1
unfolding total
region_is_new x = ground arith

hundred_is_live :
    IsProper 0x30000
      (Call.release 0x10040)
      (step nothing_there (Call.allocate 24 8) (step nothing_there (Call.allocate 100 64) heap))
unfolding step alloc_from_free_list requested_end user_addr align_up lookup insert
hundred_is_live = (record { block_start = 0x10000; block_size = 0xa8 }, refl)

run-IsSound_example :
    IsSound 0x30000 (run nothing_there calls heap)
    × ((x : ℕ) → owned x (run nothing_there calls heap) ≡ owned x heap + given x calls)
run-IsSound_example =
    run-IsSound nothing_there 0x30000 calls heap heap-IsSound
      (
        omega arith,
        (
          omega arith,
          (hundred_is_live, ((omega arith, omega arith, omega arith), (omega arith, tt))),
        ),
      )
      region_is_new

-- 320 free frames, mapped from 0x40000000 on.
abbrev pool : Pmm
pool = record {
  bitmap = replicate 40 0;
  total_frames = 320;
  usable_frames = 320;
  free_frames = 320;
  base_addr = 0x100000;
}

abbrev larger : HeapInner
larger = record heap {
  free_list =
      record { start = 0x10000; size = 0x1000 }
      ∷ record { start = 0x20000; size = 0x40 }
      ∷ record { start = 0x40100000; size = 0x100000 }
      ∷ [];
  total_bytes = 0x101040;
}

grows :
    grow 0x40000000 (required 5000 16) heap (some pool)
    ≡ (larger, some ((alloc_contiguous 256 pool).0), true)
unfolding grow alloc_contiguous is_free is_clear
grows = refl

alloc_grows_example : (addr : ℕ) × ((alloc 0x40000000 5000 16 heap (some pool)).2 ≡ some addr)
alloc_grows_example =
    alloc_grows 0x50000000 0x40000000 5000 16 heap larger (some pool)
      (some ((alloc_contiguous 256 pool).0)) (omega arith)
      (omega arith, omega arith, (omega arith, omega arith, tt))
      (omega arith, (omega arith, (omega arith, tt))) grows

-- An allocation whose end is within 7 bytes of 2^64: rounding the end up wraps to 0, and a block of a page is taken
-- to have room for it.
abbrev high : HeapInner
high = record {
  free_list = record { start = 2 ^ 64 - 0x10000; size = 0x1000 } ∷ [];
  total_bytes = 0x1000;
  headers = [];
}

end_wraps : (alloc_from_free_list (0x10000 - 0x10 - 1) 8 high).1 ≡ some (2 ^ 64 - 0x10000 + 0x10)
unfolding alloc_from_free_list requested_end user_addr align_up
end_wraps = refl
