-- ===== src/Kernel/Heap.antt =====
-- kernel/src/allocator.rs: the kernel heap. The free list is the list of its blocks in the order of their links, and
-- the headers in front of allocations are a table from the address that was given out.
pub mod Merge
pub mod Grants
pub mod Returns
pub mod Calls
pub mod Sound
pub mod Growth
mod Examples
use dunit_os.Prelude.{
  ℕ, ◌+◌, ◌-◌, ◌*◌, ◌/◌, ◌%◌, ◌^◌, max, Bool, true, false, List, [], ◌∷◌, length, Option, none,
  some, ltb, leb, ◌==◌, if◌then◌else◌,
}
use dunit_os.Prelude.Table.{Table, lookup, insert, remove}
use dunit_os.Kernel.Pmm.{Pmm, alloc_contiguous, free_frame, page_size, saturating_add}

abbrev pub heap_grow_chunk : ℕ
heap_grow_chunk = 1024 * 1024

-- The sizes of `AllocationHeader` and `FreeBlock`, and the alignment of both.
abbrev pub header_size : ℕ
header_size = 16

abbrev pub minimum_free : ℕ
minimum_free = 16

abbrev pub block_align : ℕ
block_align = 8

-- A `FreeBlock` and its address.
pub record FreeBlock : Type 0 where
  pub start : ℕ
  pub size : ℕ

pub record AllocationHeader : Type 0 where
  pub block_start : ℕ
  pub block_size : ℕ

pub record HeapInner : Type 0 where
  pub free_list : List FreeBlock
  pub total_bytes : ℕ
  pub headers : Table AllocationHeader

abbrev pub new_heap : HeapInner
new_heap = record { free_list = []; total_bytes = 0; headers = [] }

unfoldable pub add_bootstrap : (heap_start heap_size : ℕ) → HeapInner → HeapInner
add_bootstrap heap_start heap_size h = record h {
  free_list = record { start = heap_start; size = heap_size } ∷ [];
  total_bytes = heap_size;
}

abbrev pub block_end : FreeBlock → ℕ
block_end b = b.start + b.size

-- The loop of `add_free_region`: the blocks that it passes, and where it stops.
unfoldable pub passed : ℕ → List FreeBlock → List FreeBlock
passed start [] = []
passed start (c ∷ cs) =
    let rest : List FreeBlock = passed start cs in if ltb c.start start then c ∷ rest else []

unfoldable pub current : ℕ → List FreeBlock → List FreeBlock
current start [] = []
current start (c ∷ cs) =
    let rest : List FreeBlock = current start cs in if ltb c.start start then rest else c ∷ cs

-- One block that takes in the next one, as its neighbour.
abbrev pub merged : FreeBlock → FreeBlock → FreeBlock
merged b next = record b { size = b.size + next.size }

unfoldable pub merge_next : FreeBlock → List FreeBlock → List FreeBlock
merge_next b [] = b ∷ []
merge_next b (next ∷ rest) =
    if block_end b == next.start then merged b next ∷ rest else b ∷ next ∷ rest

unfoldable pub merge_previous : List FreeBlock → FreeBlock → List FreeBlock → List FreeBlock
merge_previous [] b rest = b ∷ rest
merge_previous (previous ∷ []) b rest =
    if block_end previous == b.start then merged previous b ∷ rest else previous ∷ b ∷ rest
merge_previous (c ∷ d ∷ cs) b rest = c ∷ merge_previous (d ∷ cs) b rest

-- Both merges, where the second finds the block of the first at the head.
unfoldable pub link : List FreeBlock → List FreeBlock → List FreeBlock
unfolding merge_previous
link before [] = before
link before (b ∷ rest) = merge_previous before b rest

unfoldable pub add_region : FreeBlock → List FreeBlock → List FreeBlock
unfolding passed current merge_next link
add_region b blocks = link (passed b.start blocks) (merge_next b (current b.start blocks))

unfoldable pub add_free_region : (start size : ℕ) → HeapInner → HeapInner
unfolding add_region
add_free_region start size h = record h {
  free_list = add_region (record { start = start; size = size }) h.free_list;
}

-- `align_up`, for an alignment that is a power of two; sums wrap.
unfoldable pub align_up : (addr align : ℕ) → ℕ
align_up addr align = (addr + align - 1) % 2 ^ 64 / align * align

abbrev pub payload_size : ℕ → ℕ
payload_size size = max size 1

abbrev pub user_align : ℕ → ℕ
user_align align = max align block_align

unfoldable pub user_addr : (align : ℕ) → FreeBlock → ℕ
unfolding align_up
user_addr align c = align_up ((c.start + header_size) % 2 ^ 64) (user_align align)

unfoldable pub requested_end : (size align : ℕ) → FreeBlock → ℕ
unfolding user_addr
requested_end size align c = align_up (user_addr align c + payload_size size) block_align

-- Whether the tail of a block is a block of its own.
abbrev pub is_split : (size align : ℕ) → FreeBlock → Bool
is_split size align c = leb minimum_free (block_end c - requested_end size align c)

abbrev pub replacement : (size align : ℕ) → FreeBlock → List FreeBlock → List FreeBlock
replacement size align c next =
    if is_split size align c
    then record {
      start = requested_end size align c;
      size = block_end c - requested_end size align c;
    }
      ∷ next
    else next

abbrev pub allocated_end : (size align : ℕ) → FreeBlock → ℕ
allocated_end size align c =
    if is_split size align c then requested_end size align c else block_end c

abbrev pub header_of : (size align : ℕ) → FreeBlock → AllocationHeader
header_of size align c = record {
  block_start = c.start;
  block_size = allocated_end size align c - c.start;
}

-- What the loop of `alloc_from_free_list` finds: the free list after, the address and the header.
abbrev pub Found : Type 0
Found = Option (List FreeBlock × ℕ × AllocationHeader)

abbrev pub behind : FreeBlock → Found → Found
behind c none = none
behind c (some (blocks, addr, header)) = some (c ∷ blocks, addr, header)

abbrev pub overflows : (size align : ℕ) → FreeBlock → Bool
overflows size align c =
    if leb (2 ^ 64) (block_end c)
    then true
    else leb (2 ^ 64) (user_addr align c + payload_size size)

unfoldable pub first_fit : (size align : ℕ) → List FreeBlock → Found
unfolding requested_end
first_fit size align [] = none
first_fit size align (c ∷ cs) =
    let rest : Found = first_fit size align cs in
    if overflows size align c
    then none
    else if leb (requested_end size align c) (block_end c)
    then some (replacement size align c cs, user_addr align c, header_of size align c)
    else behind c rest

abbrev pub granted : HeapInner → Found → HeapInner × Option ℕ
granted h none = (h, none)
granted h (some (blocks, addr, header)) =
    (record h { free_list = blocks; headers = insert addr header h.headers }, some addr)

unfoldable pub alloc_from_free_list : (size align : ℕ) → HeapInner → HeapInner × Option ℕ
unfolding first_fit
alloc_from_free_list size align h = granted h (first_fit size align h.free_list)

-- The header that is read in front of an address: the recorded one, or, at an address that is not a live allocation,
-- what memory happens to hold there.
abbrev pub header_at :
    (stray : ℕ → AllocationHeader) (addr : ℕ) → Option AllocationHeader → AllocationHeader
header_at stray addr none = stray addr
header_at stray addr (some header) = header

-- `dealloc` reads the header in front of any address, without a check.
unfoldable pub dealloc : (stray : ℕ → AllocationHeader) (addr : ℕ) → HeapInner → HeapInner
unfolding add_free_region
dealloc stray addr h =
    let header = header_at stray addr (lookup addr h.headers) in
    add_free_region header.block_start header.block_size
      (record h { headers = remove addr h.headers })

abbrev pub align_up_checked : (value align : ℕ) → Option ℕ
align_up_checked value align =
    if leb (2 ^ 64) (value + (align - 1))
    then none
    else some ((value + (align - 1)) / align * align)

-- kernel/src/memory/vmm.rs: the direct map of physical memory.
abbrev pub phys_to_virt : (hhdm_offset phys : ℕ) → ℕ
phys_to_virt hhdm_offset phys = (phys + hhdm_offset) % 2 ^ 64

-- The header, the alignment and room for the rest of the block.
abbrev pub required : (size align : ℕ) → ℕ
required size align =
    saturating_add (saturating_add (saturating_add size align) header_size) minimum_free

-- `grow`, at the offset of the direct map; without a manager it fails.
module _ (hhdm_offset : ℕ) where
  abbrev pub grown : (want : ℕ) → HeapInner → Pmm × Option ℕ → HeapInner × Option Pmm × Bool
  grown want h (p, none) = (h, some p, false)
  grown want h (p, some phys) =
      if phys_to_virt hhdm_offset phys == 0 then (h, some (free_frame phys p), false) else (
        record (add_free_region (phys_to_virt hhdm_offset phys) want h) {
          total_bytes = h.total_bytes + want;
        },
        some p,
        true,
      )

  abbrev pub grow_by : Option ℕ → HeapInner → Option Pmm → HeapInner × Option Pmm × Bool
  grow_by none h pmm = (h, pmm, false)
  grow_by (some want) h none = (h, none, false)
  grow_by (some want) h (some p) = grown want h (alloc_contiguous (want / page_size) p)

  unfoldable pub grow : (min_bytes : ℕ) → HeapInner → Option Pmm → HeapInner × Option Pmm × Bool
  unfolding add_free_region
  grow min_bytes h pmm = grow_by (align_up_checked (max min_bytes heap_grow_chunk) page_size) h pmm

  -- `GlobalAlloc::alloc`.
  abbrev pub again :
      (size align : ℕ) → HeapInner × Option Pmm × Bool → HeapInner × Option Pmm × Option ℕ
  again size align (h, pmm, false) = (h, pmm, none)
  again size align (h, pmm, true) =
      let (h1, addr) = alloc_from_free_list size align h in (h1, pmm, addr)

  abbrev pub or_grown :
      (size align : ℕ) → Option Pmm → HeapInner × Option ℕ → HeapInner × Option Pmm × Option ℕ
  or_grown size align pmm (h, some addr) = (h, pmm, some addr)
  or_grown size align pmm (h, none) = again size align (grow (required size align) h pmm)

  unfoldable pub alloc :
      (size align : ℕ) → HeapInner → Option Pmm → HeapInner × Option Pmm × Option ℕ
  unfolding alloc_from_free_list grow
  alloc size align h pmm = or_grown size align pmm (alloc_from_free_list size align h)

-- The loop of `stats`: the free bytes, as far as a `usize` counts.
unfoldable pub free_bytes : List FreeBlock → (free : ℕ) → ℕ
free_bytes [] free = free
free_bytes (c ∷ cs) free = free_bytes cs (saturating_add free c.size)

pub record KernelHeapStats : Type 0 where
  pub total_bytes : ℕ
  pub free_bytes : ℕ
  pub used_bytes : ℕ
  pub free_blocks : ℕ

unfoldable pub stats : HeapInner → KernelHeapStats
unfolding free_bytes
stats h = record {
  total_bytes = h.total_bytes;
  free_bytes = free_bytes h.free_list 0;
  used_bytes = h.total_bytes - free_bytes h.free_list 0;
  free_blocks = length h.free_list;
}
