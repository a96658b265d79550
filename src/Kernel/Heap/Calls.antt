-- ===== src/Kernel/Heap/Calls.antt =====
-- kernel/src/allocator.rs: sequences of calls on the heap, and how many blocks own a byte through them.
use dunit_os.Prelude.{ℕ, ◌+◌, ◌≡◌, ◌≤◌, ◌<◌, List, [], ◌∷◌, some}
use dunit_os.Prelude.Table.{lookup, total, IsSorted}
use dunit_os.Kernel.Heap.{
  AllocationHeader, HeapInner, add_free_region, header_size, alloc_from_free_list, dealloc,
}
use dunit_os.Kernel.Heap.Merge.{Ahead, owns, owners}
use dunit_os.Kernel.Heap.Grants.{Fits, owns_block}

-- `extend` is what `grow` does with the frames that it gets.
pub data Call : Type 0 where
  allocate : (size align : ℕ) → Call
  release : (addr : ℕ) → Call
  extend : (start size : ℕ) → Call

-- `stray` is what `dealloc` reads in front of an address that is not a live allocation.
unfoldable pub step : (stray : ℕ → AllocationHeader) → Call → HeapInner → HeapInner
unfolding alloc_from_free_list dealloc add_free_region
step stray (Call.allocate size align) h = (alloc_from_free_list size align h).0
step stray (Call.release addr) h = dealloc stray addr h
step stray (Call.extend start size) h = record (add_free_region start size h) {
  total_bytes = h.total_bytes + size;
}

unfoldable pub run : (stray : ℕ → AllocationHeader) → List Call → HeapInner → HeapInner
unfolding step
run stray [] h = h
run stray (c ∷ cs) h = run stray cs (step stray c h)

-- The free blocks and the live allocations that a byte lies in.
abbrev pub owned : ℕ → HeapInner → ℕ
owned x h = owners x h.free_list + total (owns_block x) h.headers

abbrev pub given_by : ℕ → Call → ℕ
given_by x (Call.allocate size align) = 0
given_by x (Call.release addr) = 0
given_by x (Call.extend start size) = owns start (start + size) x

abbrev pub given : ℕ → List Call → ℕ
given x [] = 0
given x (c ∷ cs) = given_by x c + given x cs

-- A request that ends below 2^64 from the limit, an address of a live allocation, and a region that is not null, not
-- empty and below the limit.
abbrev pub IsProper : (limit : ℕ) → Call → HeapInner → Type 0
IsProper limit (Call.allocate size align) h = Fits limit size align
IsProper limit (Call.release addr) h =
    (header : AllocationHeader) × (lookup addr h.headers ≡ some header)
IsProper limit (Call.extend start size) h = (1 ≤ start) × (1 ≤ size) × (start + size ≤ limit)

abbrev pub AllProper : (limit : ℕ) (stray : ℕ → AllocationHeader) → List Call → HeapInner → Type 0
AllProper limit stray [] h = Unit
AllProper limit stray (c ∷ cs) h = IsProper limit c h × AllProper limit stray cs (step stray c h)

-- An allocation's address lies in its block, behind its header.
pub record Live (addr : ℕ) (header : AllocationHeader) : Type 0 where
  pub not_null : 1 ≤ header.block_start
  pub behind_header : header.block_start + header_size ≤ addr
  pub in_block : addr < header.block_start + header.block_size

-- The free list is in order, with gaps; no byte has two owners, and none beyond the limit has any.
pub record IsSound (limit : ℕ) (h : HeapInner) : Type 0 where
  pub ahead : Ahead 1 h.free_list
  pub sorted : IsSorted h.headers
  pub live :
      (addr : ℕ) (header : AllocationHeader)
      → lookup addr h.headers ≡ some header
      → Live addr header
  pub single : (x : ℕ) → owned x h ≤ 1
  pub below : (x : ℕ) → limit ≤ x → owned x h ≡ 0
