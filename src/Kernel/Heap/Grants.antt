-- ===== src/Kernel/Heap/Grants.antt =====
-- kernel/src/allocator.rs: what `alloc_from_free_list` gives out.
use native.Mathlib.Nat.{lt-div-mul-add, div-mul-le_self, mod-eq_of_lt}
use dunit_os.Prelude.{
  ℕ, suc, ◌+◌, ◌-◌, ◌*◌, ◌/◌, ◌%◌, ◌^◌, ◌≡◌, ◌≤◌, ◌<◌, refl, ap, false, List, [], ◌∷◌, Option, none,
  some, ltb, leb, true, ◌∙◌, ◌==◌, arith, inl, inr, Bool-cases,
}
use dunit_os.Prelude.Table.{insert}
use dunit_os.Kernel.Heap.{
  FreeBlock, merge_next, AllocationHeader, HeapInner, block_end, align_up, user_addr, user_align,
  payload_size, requested_end, is_split, replacement, header_of, header_size, block_align,
  overflows, first_fit, behind, granted, Found, alloc_from_free_list,
}
use dunit_os.Kernel.Heap.Merge.{Ahead, Ahead-mono, owns, owners, placed, placed-gap, placed-behind}

-- A number that is rounded up, where the sum does not wrap.
align_up_lem :
    (addr align : ℕ)
    → 1 ≤ align
    → addr + align ≤ 2 ^ 64
    → (addr ≤ align_up addr align) × (align_up addr align < addr + align)
unfolding align_up
align_up_lem addr align h k =
    let n : ℕ = addr + align - 1 in
    let whole : n % 2 ^ 64 ≡ n = mod-eq_of_lt {n = n} {m = 2 ^ 64} (omega arith) in
    let lo : n / align * align ≤ n = div-mul-le_self n align in
    let hi : n < n / align * align + align = lt-div-mul-add {a = n} {b = align} (omega arith) in
    rw whole (omega (arith, hi), omega (arith, lo))

-- All bytes of a list lie below a limit, and the request stays below 2^64 from there.
abbrev pub AllBelow : ℕ → List FreeBlock → Type 0
AllBelow limit [] = Unit
AllBelow limit (c ∷ cs) = (block_end c ≤ limit) × AllBelow limit cs

abbrev pub Fits : (limit size align : ℕ) → Type 0
Fits limit size align =
    limit + header_size + user_align align + payload_size size + block_align ≤ 2 ^ 64

-- Where the request comes to lie in a block.
pub record Placed (size align : ℕ) (c : FreeBlock) : Type 0 where
  pub header : c.start + header_size ≤ user_addr align c
  pub payload : user_addr align c + payload_size size ≤ requested_end size align c
  pub whole : overflows size align c ≡ false
  pub short :
      requested_end size align c
      < c.start + header_size + user_align align + payload_size size + block_align

pub placed_lem :
    (limit size align : ℕ) (c : FreeBlock)
    → Fits limit size align
    → block_end c ≤ limit
    → Placed size align c
unfolding user_addr requested_end
placed_lem limit size align c f h =
    let start : ℕ = c.start + header_size in
    let whole : start % 2 ^ 64 ≡ start = mod-eq_of_lt {n = start} {m = 2 ^ 64} (omega arith) in
    let a : (start ≤ align_up start (user_align align))
        × (align_up start (user_align align) < start + user_align align) =
      align_up_lem start (user_align align) (omega arith) (omega arith) in
    let same : user_addr align c ≡ align_up start (user_align align) =
      ap (λ n. align_up n (user_align align)) whole in
    let e : (user_addr align c + payload_size size ≤ requested_end size align c)
        × (requested_end size align c < user_addr align c + payload_size size + block_align) =
      align_up_lem (user_addr align c + payload_size size) block_align (omega arith)
        (omega (arith, same, a.1)) in
    let short : user_addr align c + payload_size size < 2 ^ 64 = omega (arith, same, a.1) in
    record {
      header = omega (arith, same, a.0);
      payload = e.0;
      whole = ground arith;
      short = omega (arith, same, a.1, e.1);
    }

-- No block of the list has room for the request.
abbrev pub AllTight : (size align : ℕ) → List FreeBlock → Type 0
AllTight size align [] = Unit
AllTight size align (c ∷ cs) = (block_end c < requested_end size align c) × AllTight size align cs

-- A header for an address: the address is aligned and its bytes lie behind the header, in the block.
pub record Grant (size align : ℕ) (addr : ℕ) (header : AllocationHeader) : Type 0 where
  pub aligned : (k : ℕ) × (addr ≡ k * user_align align)
  pub behind_header : header.block_start + header_size ≤ addr
  pub in_block : addr + payload_size size ≤ header.block_start + header.block_size

abbrev pub owns_block : ℕ → AllocationHeader → ℕ
owns_block x header = owns header.block_start (header.block_start + header.block_size) x

abbrev pub region_of : AllocationHeader → FreeBlock
region_of header = record { start = header.block_start; size = header.block_size }

-- The bytes of the block were free, once, and are taken from the free list, which keeps its order and is as before when
-- they come back.
pub record Taken (header : AllocationHeader) (blocks rest : List FreeBlock) : Type 0 where
  pub bytes : (x : ℕ) → owners x rest + owns_block x header ≡ owners x blocks
  pub ordered : (lo : ℕ) → Ahead lo blocks → Ahead lo rest
  pub start : (lo : ℕ) → Ahead lo blocks → lo ≤ header.block_start
  pub back : (lo : ℕ) → Ahead lo blocks → placed (region_of header) rest ≡ blocks

abbrev FitAnswer : (size align : ℕ) → List FreeBlock → Found → Type 0
FitAnswer size align blocks none = AllTight size align blocks
FitAnswer size align blocks (some (rest, addr, header)) =
    Grant size align addr header × Taken header blocks rest

user_addr-aligned :
    (align : ℕ) (c : FreeBlock) → (k : ℕ) × (user_addr align c ≡ k * user_align align)
unfolding user_addr align_up
user_addr-aligned align c =
    (((c.start + header_size) % 2 ^ 64 + user_align align - 1) % 2 ^ 64 / user_align align, refl)

-- The front of a block goes back before its tail, and a whole block into its gap.
tail-back :
    (c : FreeBlock) (cs : List FreeBlock) (cut : ℕ)
    → c.start < cut
    → cut ≤ block_end c
    → placed
        (record { start = c.start; size = cut - c.start })
        (record { start = cut; size = block_end c - cut } ∷ cs)
      ≡ c ∷ cs
unfolding placed merge_next
tail-back c cs cut h k =
    let at : ltb cut c.start ≡ false = ground arith in
    let touches : (c.start + (cut - c.start) == cut) ≡ true = ground arith in
    rw (at, touches) (ap (λ n. record { start = c.start; size = n } ∷ cs) (omega arith))

whole-back :
    (c : FreeBlock) (cs : List FreeBlock)
    → 1 ≤ c.size
    → Ahead (suc (block_end c)) cs
    → placed (record { start = c.start; size = block_end c - c.start }) cs ≡ c ∷ cs
whole-back c cs k s =
    ap (λ n. placed (record { start = c.start; size = n }) cs) (omega arith) ∙ placed-gap c cs s k

here_lem :
    (limit size align : ℕ) (c : FreeBlock) (cs : List FreeBlock)
    → Placed size align c
    → requested_end size align c ≤ block_end c
    → Grant size align (user_addr align c) (header_of size align c)
      × Taken (header_of size align c) (c ∷ cs) (replacement size align c cs)
here_lem limit size align c cs p r = elim (Bool-cases (is_split size align c)) [
  | inl split ↦ rw split (
    record {
      aligned = user_addr-aligned align c;
      behind_header = p.header;
      in_block = omega (arith, p.payload, p.header);
    },
    record {
      bytes = λ x. ground (arith, p.payload, p.header);
      ordered = λ lo s.
          (omega (arith, s.0, p.payload, p.header), ground arith, Ahead-mono cs (ground arith) s.2);
      start = λ lo s. s.0;
      back = λ lo s.
          tail-back c cs (requested_end size align c) (ground (arith, p.payload, p.header)) r;
    },
  )
  | inr whole ↦ rw whole (
    record {
      aligned = user_addr-aligned align c;
      behind_header = p.header;
      in_block = omega (arith, p.payload, p.header);
    },
    record {
      bytes = λ x. ground arith;
      ordered = λ lo s. Ahead-mono cs (omega (arith, s.0)) s.2;
      start = λ lo s. s.0;
      back = λ lo s. whole-back c cs s.1 s.2;
    },
  )
]

first_fit_lem :
    (limit size align : ℕ) (blocks : List FreeBlock)
    → Fits limit size align
    → AllBelow limit blocks
    → FitAnswer size align blocks (first_fit size align blocks)
unfolding first_fit
first_fit_lem limit size align [] f b = tt
first_fit_lem limit size align (c ∷ cs) f b =
    let p = placed_lem limit size align c f b.0 in
    elim (Bool-cases (leb (requested_end size align c) (block_end c))) [
      | inl room ↦ rw (p.whole, room) (here_lem limit size align c cs p (ground arith))
      | inr tight ↦
          rw (p.whole, tight)
            (later (first_fit size align cs) (ground arith)
              (first_fit_lem limit size align cs f b.1))
    ]
  where
    later :
        (r : Found)
        → block_end c < requested_end size align c
        → FitAnswer size align cs r
        → FitAnswer size align (c ∷ cs) (behind c r)
    later none tight a = (tight, a)
    later (some (rest, addr, header)) tight (g, t) = (
      g,
      record {
        bytes = λ x. omega (arith, t.bytes x);
        ordered = λ lo s. (s.0, s.1, t.ordered (suc (block_end c)) s.2);
        start = λ lo s. omega (arith, s.0, t.start (suc (block_end c)) s.2);
        back = λ lo s.
            placed-behind (region_of header) c rest cs
              (omega (arith, t.start (suc (block_end c)) s.2)) (t.back (suc (block_end c)) s.2) s.2;
      },
    )

-- What an allocation answers: the request does not fit in any block, and nothing has changed; or it has a block of its
-- own, whose header is recorded, with the other headers as they were.
abbrev pub Answer : (size align : ℕ) → HeapInner → HeapInner × Option ℕ → Type 0
Answer size align h (h1, none) = (h1 ≡ h) × AllTight size align h.free_list
Answer size align h (h1, some addr) =
    (header : AllocationHeader) × Grant size align addr header
    × Taken header h.free_list h1.free_list
    × (h1.headers ≡ insert addr header h.headers)
    × (h1.total_bytes ≡ h.total_bytes)

-- An allocation finds a block whenever one has room, behind its header, at the alignment asked for; it takes just that
-- block's bytes from the free list. When no block has room, nothing changes. Blocks and request end below 2^64.
pub alloc_from_free_list_lem :
    (limit size align : ℕ) (h : HeapInner)
    → Fits limit size align
    → AllBelow limit h.free_list
    → Answer size align h (alloc_from_free_list size align h)
unfolding alloc_from_free_list
alloc_from_free_list_lem limit size align h f b =
    go (first_fit size align h.free_list) (first_fit_lem limit size align h.free_list f b)
  where
    go : (r : Found) → FitAnswer size align h.free_list r → Answer size align h (granted h r)
    go none a = (refl, a)
    go (some (rest, addr, header)) (g, t) = (header, g, t, refl, refl)
