-- ===== src/Kernel/Heap/Returns.antt =====
-- kernel/src/allocator.rs: an allocation that is given back.
use dunit_os.Prelude.{ℕ, ◌≡◌, refl, ap, ◌∙◌, Option, none, some, ==_self}
use dunit_os.Prelude.Table.{lookup, remove, lookup-insert}
use dunit_os.Kernel.Heap.{
  HeapInner, AllocationHeader, add_region, add_free_region, alloc_from_free_list, dealloc,
}
use dunit_os.Kernel.Heap.Merge.{Ahead, add_region-placed}
use dunit_os.Kernel.Heap.Grants.{AllBelow, Fits, Answer, region_of, alloc_from_free_list_lem}

pub dealloc-found :
    (stray : ℕ → AllocationHeader) (addr : ℕ) (header : AllocationHeader) (h : HeapInner)
    → lookup addr h.headers ≡ some header
    → dealloc stray addr h ≡ record h {
      free_list = add_region (region_of header) h.free_list;
      headers = remove addr h.headers;
    }
unfolding dealloc add_free_region
dealloc-found stray addr header h e = rw e refl

returned_lem :
    (stray : ℕ → AllocationHeader) (size align addr : ℕ) (h h1 : HeapInner)
    → Ahead 1 h.free_list
    → Answer size align h (h1, some addr)
    → (dealloc stray addr h1).free_list ≡ h.free_list
returned_lem stray size align addr h h1 s (header, g, t, recorded, total) =
    let found : lookup addr h1.headers ≡ some header =
      rw recorded (lookup-insert addr addr header h.headers ∙ rw (==_self addr) refl) in
    ap (λ (k : HeapInner). k.free_list) (dealloc-found stray addr header h1 found)
    ∙ add_region-placed (region_of header) 1 h1.free_list (t.ordered 1 s)
    ∙ t.back 1 s

-- An allocation that is given back at once leaves the free list exactly as it was: its block is where it was, merged
-- with its tail. The free list is in order with gaps between its blocks, which end, with the request, below 2^64.
pub dealloc-alloc_from_free_list :
    (stray : ℕ → AllocationHeader) (limit size align addr : ℕ) (h : HeapInner)
    → Fits limit size align
    → AllBelow limit h.free_list
    → Ahead 1 h.free_list
    → (alloc_from_free_list size align h).1 ≡ some addr
    → (dealloc stray addr (alloc_from_free_list size align h).0).free_list ≡ h.free_list
dealloc-alloc_from_free_list stray limit size align addr h f b s e =
    go (alloc_from_free_list size align h) e (alloc_from_free_list_lem limit size align h f b)
  where
    go :
        (r : HeapInner × Option ℕ)
        → r.1 ≡ some addr
        → Answer size align h r
        → (dealloc stray addr r.0).free_list ≡ h.free_list
    go (h1, none) e a = absurd (cc)
    go (h1, some other) e a =
        let same : other ≡ addr = cc in rw (← same) (returned_lem stray size align other h h1 s a)
