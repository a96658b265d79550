-- ===== src/Kernel/Heap/Growth.antt =====
-- kernel/src/allocator.rs: `GlobalAlloc::alloc`, which grows the heap where no block has room.
use dunit_os.Prelude.{
  ℕ, ◌+◌, ◌-◌, ◌*◌, ◌/◌, ◌^◌, ◌≡◌, ◌≤◌, ◌<◌, refl, sym, ap, ◌∙◌, subst, max, Bool, true, List, [],
  ◌∷◌, Option, none, some, ltb, leb, ◌==◌, arith, ◌⊎◌, inl, inr, Bool-cases,
}
use dunit_os.Kernel.Pmm.{Pmm, alloc_contiguous, page_size}
use dunit_os.Kernel.Heap.{
  FreeBlock, HeapInner, block_end, merged, merge_next, add_region, alloc_from_free_list, grow,
  grow_by, grown, required, or_grown, alloc, first_fit, Found, granted, heap_grow_chunk,
  phys_to_virt,
}
use dunit_os.Kernel.Heap.Merge.{Ahead, placed, add_region-placed}
use dunit_os.Kernel.Heap.Grants.{
  AllBelow, Fits, AllTight, Answer, placed_lem, alloc_from_free_list_lem,
}

-- All blocks of a list are smaller than a size.
abbrev AllSmall : ℕ → List FreeBlock → Type 0
AllSmall n [] = Unit
AllSmall n (c ∷ cs) = (c.size < n) × AllSmall n cs

-- A block without room is smaller than the request with its header and its alignment.
tight-AllSmall :
    (limit size align : ℕ) (blocks : List FreeBlock)
    → Fits limit size align
    → AllBelow limit blocks
    → AllTight size align blocks
    → AllSmall (size + align + 32) blocks
tight-AllSmall limit size align [] f b t = tt
tight-AllSmall limit size align (c ∷ cs) f b t =
    let p = placed_lem limit size align c f b.0 in
    (omega (arith, p.short, t.0), tight-AllSmall limit size align cs f b.1 t.1)

merge-AllSmall :
    (n : ℕ) (b : FreeBlock) (cs : List FreeBlock)
    → AllSmall n (merge_next b cs)
    → (b.size < n) × AllSmall n cs
unfolding merge_next
merge-AllSmall n b [] s = s
merge-AllSmall n b (c ∷ cs) s = elim (Bool-cases (block_end b == c.start)) [
  | inl touches ↦
      let joined : AllSmall n (merged b c ∷ cs) = rw touches at s in
      (omega (arith, joined.0), (omega (arith, joined.0), joined.1))
  | inr gap ↦ rw gap at s
]

placed-AllSmall :
    (n : ℕ) (b : FreeBlock) (cs : List FreeBlock) → AllSmall n (placed b cs) → b.size < n
unfolding placed
placed-AllSmall n b [] s = s.0
placed-AllSmall n b (c ∷ cs) s = elim (Bool-cases (ltb c.start b.start)) [
  | inl before ↦ placed-AllSmall n b cs ((merge-AllSmall n c (placed b cs) (rw before at s)).1)
  | inr at ↦ (merge-AllSmall n b (c ∷ cs) (rw at at s)).0
]

-- A heap that has grown: by a region of at least the bytes that were asked for.
record Grown (bytes : ℕ) (h h1 : HeapInner) : Type 0 where
  pub start : ℕ
  pub want : ℕ
  pub enough : bytes ≤ want
  pub whole : bytes < 2 ^ 64 - 1
  pub list : h1.free_list ≡ add_region (record { start = start; size = want }) h.free_list

grow_lem :
    (hhdm_offset bytes : ℕ) (h h1 : HeapInner) (pmm pmm1 : Option Pmm)
    → grow hhdm_offset bytes h pmm ≡ (h1, pmm1, true)
    → Grown bytes h h1
unfolding grow
grow_lem hhdm_offset bytes h h1 pmm pmm1 e =
    elim (Bool-cases (leb (2 ^ 64) (max bytes heap_grow_chunk + (page_size - 1)))) [
      | inl overflow ↦ absurd (cc (rw overflow at e))
      | inr fits ↦ asked pmm (ground arith) (rw fits at e)
    ]
  where
    want : ℕ
    want = (max bytes heap_grow_chunk + (page_size - 1)) / page_size * page_size

    got :
        (r : Pmm × Option ℕ)
        → bytes < 2 ^ 64 - 1
        → grown hhdm_offset want h r ≡ (h1, pmm1, true)
        → Grown bytes h h1
    got (p, none) w g = absurd (cc)
    got (p, some phys) w g = elim (Bool-cases (phys_to_virt hhdm_offset phys == 0)) [
      | inl unmapped ↦ absurd (cc (rw unmapped at g))
      | inr mapped ↦
          let g1 = rw mapped at g in
          record {
            start = phys_to_virt hhdm_offset phys;
            want = want;
            enough = omega arith;
            whole = w;
            list = sym (ap (λ (r : HeapInner × Option Pmm × Bool). r.0.free_list) g1);
          }
    ]

    asked :
        (q : Option Pmm)
        → bytes < 2 ^ 64 - 1
        → grow_by hhdm_offset (some want) h q ≡ (h1, pmm1, true)
        → Grown bytes h h1
    asked none w g = absurd (cc)
    asked (some p) w g = got (alloc_contiguous (want / page_size) p) w g

alloc_from_free_list-none :
    (size align : ℕ) (h : HeapInner)
    → (alloc_from_free_list size align h ≡ (h, none))
      ⊎ ((addr : ℕ) × ((alloc_from_free_list size align h).1 ≡ some addr))
unfolding alloc_from_free_list
alloc_from_free_list-none size align h = go (first_fit size align h.free_list)
  where
    go : (r : Found) → (granted h r ≡ (h, none)) ⊎ ((addr : ℕ) × ((granted h r).1 ≡ some addr))
    go none = inl refl
    go (some (rest, addr, header)) = inr (addr, refl)

-- An allocation succeeds whenever the heap could grow: the region that `grow` adds has room for the request with its
-- header, at its alignment. The free list is in order with gaps, and the blocks after growth, and the request from there,
-- end below 2^64.
pub alloc_grows :
    (limit hhdm_offset size align : ℕ) (h h1 : HeapInner) (pmm pmm1 : Option Pmm)
    → Fits limit size align
    → Ahead 1 h.free_list
    → AllBelow limit h1.free_list
    → grow hhdm_offset (required size align) h pmm ≡ (h1, pmm1, true)
    → (addr : ℕ) × ((alloc hhdm_offset size align h pmm).2 ≡ some addr)
unfolding alloc
alloc_grows limit hhdm_offset size align h h1 pmm pmm1 f s b e =
    elim (alloc_from_free_list-none size align h) [
      | inl full ↦ rw full (
          rw e (
            second (alloc_from_free_list size align h1)
              (alloc_from_free_list_lem limit size align h1 f b)))
      | inr (addr, found) ↦ (addr, kept (alloc_from_free_list size align h) addr found)
    ]
  where
    g : Grown (required size align) h h1
    g = grow_lem hhdm_offset (required size align) h h1 pmm pmm1 e

    second : (r : HeapInner × Option ℕ) → Answer size align h1 r → (addr : ℕ) × (r.1 ≡ some addr)
    second (h2, some addr) a = (addr, refl)
    second (h2, none) (same, tight) =
        let small = tight-AllSmall limit size align h1.free_list f b tight in
        let listed =
          g.list ∙ add_region-placed (record { start = g.start; size = g.want }) 1 h.free_list s in
        let less =
          placed-AllSmall (size + align + 32) (record { start = g.start; size = g.want })
            h.free_list (subst (AllSmall (size + align + 32)) listed small) in
        absurd (omega (arith, g.enough, g.whole, less))

    kept :
        (r : HeapInner × Option ℕ) (addr : ℕ)
        → r.1 ≡ some addr
        → (or_grown hhdm_offset size align pmm r).2 ≡ some addr
    kept (h0, none) addr found = absurd (cc)
    kept (h0, some other) addr found = found
