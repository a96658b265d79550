-- ===== src/Kernel/Heap/Sound.antt =====
-- kernel/src/allocator.rs: the owners of each byte through any calls.
use dunit_os.Prelude.{
  ℕ, suc, ◌+◌, ◌-◌, ◌≡◌, ◌≤◌, sym, ap, ◌∙◌, subst, List, [], ◌∷◌, Option, none, some, leb, ◌==◌,
  max, arith, inl, inr, Bool-cases, Option-cases,
}
use dunit_os.Prelude.Table.{
  lookup, insert, remove, total, lookup-insert, lookup-remove, insert-IsSorted, remove-IsSorted,
  total-insert, total-remove, total-le,
}
use dunit_os.Kernel.Heap.{
  FreeBlock, AllocationHeader, HeapInner, block_end, add_region, add_free_region,
  alloc_from_free_list, dealloc,
}
use dunit_os.Kernel.Heap.Merge.{
  Ahead, Apart, owns, owners, add_region-placed, owners-placed, placed-Ahead,
}
use dunit_os.Kernel.Heap.Grants.{
  AllBelow, Answer, Grant, Taken, owns_block, region_of, alloc_from_free_list_lem,
}
use dunit_os.Kernel.Heap.Returns.{dealloc-found}
use dunit_os.Kernel.Heap.Calls.{
  Call, step, run, owned, given_by, given, IsProper, AllProper, Live, IsSound,
}

pub owners-AllBelow :
    (limit lo : ℕ) (blocks : List FreeBlock)
    → Ahead lo blocks
    → ((x : ℕ) → limit ≤ x → owners x blocks ≡ 0)
    → AllBelow limit blocks
owners-AllBelow limit lo [] s h = tt
owners-AllBelow limit lo (c ∷ cs) s h = (
  elim (Bool-cases (leb (block_end c) limit)) [
    | inl low ↦ ground arith
    | inr high ↦
        let last : ℕ = block_end c - 1 in
        let none_there = h last (ground arith) in absurd (ground arith)
  ],
  owners-AllBelow limit (suc (block_end c)) cs s.2 (λ x k. omega (arith, h x k)),
)

owners-Apart :
    (b : FreeBlock) (lo : ℕ) (blocks : List FreeBlock)
    → 1 ≤ b.size
    → Ahead lo blocks
    → ((x : ℕ) → owns b.start (block_end b) x + owners x blocks ≤ 1)
    → Apart b blocks
owners-Apart b lo [] k s h = tt
owners-Apart b lo (c ∷ cs) k s h = (
  elim (Bool-cases (leb (block_end b) c.start)) [
    | inl before ↦ inl (ground arith)
    | inr not_before ↦ elim (Bool-cases (leb (block_end c) b.start)) [
      | inl after ↦ inr (ground arith)
      | inr meets ↦ let one = h (max b.start c.start) in absurd (ground arith)
    ]
  ],
  owners-Apart b (suc (block_end c)) cs k s.2 (λ x. omega (arith, h x)),
)

-- A region that no byte of which is owned becomes free.
record Added (b : FreeBlock) (blocks : List FreeBlock) : Type 0 where
  pub bytes :
      (x : ℕ) → owners x (add_region b blocks) ≡ owns b.start (block_end b) x + owners x blocks
  pub ahead : Ahead 1 (add_region b blocks)

added_lem :
    (b : FreeBlock) (blocks : List FreeBlock)
    → 1 ≤ b.start
    → 1 ≤ b.size
    → Ahead 1 blocks
    → ((x : ℕ) → owns b.start (block_end b) x + owners x blocks ≤ 1)
    → Added b blocks
added_lem b blocks h k s one =
    let e = add_region-placed b 1 blocks s in
    record {
      bytes = λ x. ap (owners x) e ∙ owners-placed x b blocks;
      ahead = rw e (placed-Ahead 1 b blocks h k s (owners-Apart b 1 blocks k s one));
    }

-- A sound heap after one call: each byte's owners are as before, and those that the call gives.
abbrev pub Kept : (limit : ℕ) → (given : ℕ → ℕ) → (h h1 : HeapInner) → Type 0
Kept limit gift h h1 = IsSound limit h1 × ((x : ℕ) → owned x h1 ≡ owned x h + gift x)

fresh_lem :
    (limit size align addr : ℕ) (header : AllocationHeader) (h : HeapInner) (rest : List FreeBlock)
    → IsSound limit h
    → Grant size align addr header
    → Taken header h.free_list rest
    → lookup addr h.headers ≡ none
fresh_lem limit size align addr header h rest s g t = elim (Option-cases (lookup addr h.headers)) [
  | inl absent ↦ absent
  | inr (other, present) ↦
      let l = s.live addr other present in
      let lies : owns_block addr other ≡ 1 = ground (arith, l.behind_header, l.in_block) in
      let lies_here : owns_block addr header ≡ 1 = ground (arith, g.behind_header, g.in_block) in
      let counted = total-le (owns_block addr) addr other h.headers present in
      absurd (omega (arith, s.single addr, t.bytes addr, lies, lies_here, counted))
]

allocate-Kept :
    (limit size align : ℕ) (h : HeapInner) (r : HeapInner × Option ℕ)
    → IsSound limit h
    → Answer size align h r
    → Kept limit (λ x. 0) h r.0
allocate-Kept limit size align h (h1, none) s (same, tight) = rw same (s, λ x. omega arith)
allocate-Kept limit size align h (h1, some addr) s (header, g, t, recorded, count) =
    let absent = fresh_lem limit size align addr header h h1.free_list s g t in
    let bytes : (x : ℕ) → owned x h1 ≡ owned x h + 0 = λ x. rw recorded (
      omega
        (arith, t.bytes x, total-insert (owns_block x) 0 addr header h.headers s.sorted absent)) in
    (
      record {
        ahead = t.ordered 1 s.ahead;
        sorted = rw recorded (insert-IsSorted addr header h.headers s.sorted);
        live = λ k other e. live k other (rw recorded at e);
        single = λ x. omega (arith, bytes x, s.single x);
        below = λ x far. omega (arith, bytes x, s.below x far);
      },
      bytes,
    )
  where
    live :
        (k : ℕ) (other : AllocationHeader)
        → lookup k (insert addr header h.headers) ≡ some other
        → Live k other
    live k other e = elim (Bool-cases (addr == k)) [
      | inl this ↦
          let here : addr ≡ k = ground arith in
          let same : header ≡ other =
            cc (rw this at (sym (lookup-insert addr k header h.headers) ∙ e)) in
          subst (Live k) same (
            subst (λ a. Live a header) here
              (record {
                not_null = t.start 1 s.ahead;
                behind_header = g.behind_header;
                in_block = omega (arith, g.in_block);
              }))
      | inr that ↦ s.live k other (rw that at (sym (lookup-insert addr k header h.headers) ∙ e))
    ]

release-Kept :
    (stray : ℕ → AllocationHeader) (limit addr : ℕ) (header : AllocationHeader) (h : HeapInner)
    → IsSound limit h
    → lookup addr h.headers ≡ some header
    → Kept limit (λ x. 0) h (dealloc stray addr h)
release-Kept stray limit addr header h s present =
    subst (Kept limit (λ x. 0) h) (sym (dealloc-found stray addr header h present)) found
  where
    found :
        Kept limit
          (λ x. 0)
          h
          (record h {
            free_list = add_region (region_of header) h.free_list;
            headers = remove addr h.headers;
          })
    found =
        let l = s.live addr header present in
        let back : (x : ℕ)
            → total (owns_block x) (remove addr h.headers) + owns_block x header
              ≡ total (owns_block x) h.headers =
          λ x. total-remove (owns_block x) 0 addr header h.headers s.sorted present in
        let added =
          added_lem (region_of header) h.free_list l.not_null
            (omega (arith, l.behind_header, l.in_block)) s.ahead
            (λ x. omega (arith, s.single x, back x)) in
        (
          record {
            ahead = added.ahead;
            sorted = remove-IsSorted addr h.headers s.sorted;
            live = λ k other e. elim (Bool-cases (addr == k)) [
              | inl this ↦ absurd (cc (rw this at (sym (lookup-remove addr k h.headers) ∙ e)))
              | inr that ↦ s.live k other (rw that at (sym (lookup-remove addr k h.headers) ∙ e))
            ];
            single = λ x. omega (arith, added.bytes x, back x, s.single x);
            below = λ x far. omega (arith, added.bytes x, back x, s.below x far);
          },
          λ x. omega (arith, added.bytes x, back x),
        )

extend-Kept :
    (stray : ℕ → AllocationHeader) (limit start size : ℕ) (h : HeapInner)
    → IsSound limit h
    → IsProper limit (Call.extend start size) h
    → ((x : ℕ) → owned x h + owns start (start + size) x ≤ 1)
    → Kept limit (owns start (start + size)) h (step stray (Call.extend start size) h)
unfolding step add_free_region
extend-Kept stray limit start size h s p one =
    let b : FreeBlock = record { start = start; size = size } in
    let added = added_lem b h.free_list p.0 p.1 s.ahead (λ x. omega (arith, one x)) in
    (
      record {
        ahead = added.ahead;
        sorted = s.sorted;
        live = s.live;
        single = λ x. omega (arith, added.bytes x, one x);
        below = λ x far. ground (arith, added.bytes x, s.below x far);
      },
      λ x. omega (arith, added.bytes x),
    )

step-Kept :
    (stray : ℕ → AllocationHeader) (limit : ℕ) (c : Call) (h : HeapInner)
    → IsSound limit h
    → IsProper limit c h
    → ((x : ℕ) → owned x h + given_by x c ≤ 1)
    → Kept limit (λ x. given_by x c) h (step stray c h)
unfolding step
step-Kept stray limit (Call.allocate size align) h s p one =
    let low = owners-AllBelow limit 1 h.free_list s.ahead (λ x far. omega (arith, s.below x far)) in
    allocate-Kept limit size align h (alloc_from_free_list size align h) s
      (alloc_from_free_list_lem limit size align h p low)
step-Kept stray limit (Call.release addr) h s p one = release-Kept stray limit addr p.0 h s p.1
step-Kept stray limit (Call.extend start size) h s p one =
    extend-Kept stray limit start size h s p one

-- Through any allocations whose requests end below 2^64 from the limit, releases of live allocations and growth by
-- regions below the limit that are not owned yet, no byte ever has two owners among the live allocations and the free
-- blocks, and none is lost: each has its owners from before and from growth.
pub run-IsSound :
    (stray : ℕ → AllocationHeader) (limit : ℕ) (calls : List Call) (h : HeapInner)
    → IsSound limit h
    → AllProper limit stray calls h
    → ((x : ℕ) → owned x h + given x calls ≤ 1)
    → IsSound limit (run stray calls h)
      × ((x : ℕ) → owned x (run stray calls h) ≡ owned x h + given x calls)
unfolding run
run-IsSound stray limit [] h s p one = (s, λ x. omega arith)
run-IsSound stray limit (c ∷ cs) h s p one =
    let (s1, e1) = step-Kept stray limit c h s p.0 (λ x. omega (arith, one x)) in
    let (s2, e2) =
      run-IsSound stray limit cs (step stray c h) s1 p.1 (λ x. omega (arith, one x, e1 x)) in
    (s2, λ x. omega (arith, e1 x, e2 x))
