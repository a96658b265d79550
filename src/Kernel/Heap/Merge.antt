-- ===== src/Kernel/Heap/Merge.antt =====
-- kernel/src/allocator.rs: what `add_free_region` does to a free list with gaps between its blocks. A byte's owners are
-- the blocks that it lies in.
use dunit_os.Prelude.{
  ℕ, suc, ◌+◌, ◌≡◌, ◌≤◌, ◌<◌, refl, sym, ap, ◌∙◌, true, false, ◌&&◌, List, [], ◌∷◌, ltb, leb, ◌==◌,
  if◌then◌else◌, arith, ◌⊎◌, inl, inr, Bool-cases,
}
use dunit_os.Kernel.Heap.{
  FreeBlock, block_end, passed, current, merged, merge_next, merge_previous, link, add_region,
}

-- A block that is not null and not empty, behind a bound, and a gap before the next one.
abbrev pub Ahead : ℕ → List FreeBlock → Type 0
Ahead lo [] = Unit
Ahead lo (c ∷ cs) = (lo ≤ c.start) × (1 ≤ c.size) × Ahead (suc (block_end c)) cs

pub Ahead-mono : {a b : ℕ} (blocks : List FreeBlock) → a ≤ b → Ahead b blocks → Ahead a blocks
Ahead-mono [] h s = tt
Ahead-mono (c ∷ cs) h s = (omega (arith, s.0), s.1, s.2)

abbrev pub owns : (from to x : ℕ) → ℕ
owns from to x = if leb from x && ltb x to then 1 else 0

abbrev pub owners : ℕ → List FreeBlock → ℕ
owners x [] = 0
owners x (c ∷ cs) = owns c.start (block_end c) x + owners x cs

-- The region put in its place, with its neighbours taken in from behind.
unfoldable pub placed : FreeBlock → List FreeBlock → List FreeBlock
unfolding merge_next
placed b [] = b ∷ []
placed b (c ∷ cs) =
    let rest : List FreeBlock = placed b cs in
    if ltb c.start b.start then merge_next c rest else merge_next b (c ∷ cs)

merge-gap :
    (c : FreeBlock) (ds : List FreeBlock) → Ahead (suc (block_end c)) ds → merge_next c ds ≡ c ∷ ds
unfolding merge_next
merge-gap c [] s = refl
merge-gap c (d ∷ ds) s =
    let apart : (block_end c == d.start) ≡ false = ground arith in rw apart refl

-- The head of what is linked starts where the head of the passed blocks does.
link-gap :
    (c d b : FreeBlock) (ds rest : List FreeBlock)
    → block_end c < d.start
    → merge_next c (merge_previous (d ∷ ds) b rest) ≡ c ∷ merge_previous (d ∷ ds) b rest
unfolding merge_next merge_previous
link-gap c d b [] rest h =
    let apart : (block_end c == d.start) ≡ false = ground arith in
    elim (Bool-cases (block_end d == b.start)) [
      | inl touches ↦ rw touches (rw apart refl)
      | inr gap ↦ rw gap (rw apart refl)
    ]
link-gap c d b (e ∷ ds) rest h =
    let apart : (block_end c == d.start) ≡ false = ground arith in rw apart refl

link-merge :
    (c b : FreeBlock) (before rest : List FreeBlock)
    → Ahead (suc (block_end c)) before
    → link (c ∷ before) (merge_next b rest) ≡ merge_next c (link before (merge_next b rest))
unfolding link merge_next merge_previous
link-merge c b [] [] s = refl
link-merge c b [] (n ∷ rest) s = elim (Bool-cases (block_end b == n.start)) [
  | inl touches ↦ rw touches refl
  | inr gap ↦ rw gap refl
]
link-merge c b (d ∷ ds) [] s = sym (link-gap c d b ds [] (omega (arith, s.0)))
link-merge c b (d ∷ ds) (n ∷ rest) s = elim (Bool-cases (block_end b == n.start)) [
  | inl touches ↦ rw touches (sym (link-gap c d (merged b n) ds rest (omega (arith, s.0))))
  | inr gap ↦ rw gap (sym (link-gap c d b ds (n ∷ rest) (omega (arith, s.0))))
]

passed-Ahead :
    (start lo : ℕ) (blocks : List FreeBlock) → Ahead lo blocks → Ahead lo (passed start blocks)
unfolding passed
passed-Ahead start lo [] s = tt
passed-Ahead start lo (c ∷ cs) s =
    let rest = passed-Ahead start (suc (block_end c)) cs s.2 in
    elim (Bool-cases (ltb c.start start)) [
      | inl before ↦ rw before (s.0, s.1, rest)
      | inr at ↦ rw at tt
    ]

pub add_region-placed :
    (b : FreeBlock) (lo : ℕ) (blocks : List FreeBlock)
    → Ahead lo blocks
    → add_region b blocks ≡ placed b blocks
unfolding add_region placed passed current merge_next link merge_previous
add_region-placed b lo [] s = refl
add_region-placed b lo (c ∷ cs) s = elim (Bool-cases (ltb c.start b.start)) [
  | inl before ↦ rw before (
      link-merge c b (passed b.start cs) (current b.start cs)
        (passed-Ahead b.start (suc (block_end c)) cs s.2)
      ∙ ap (λ r. merge_next c r) (add_region-placed b (suc (block_end c)) cs s.2))
  | inr at ↦ elim (Bool-cases (block_end b == c.start)) [
    | inl touches ↦ rw (at, touches) refl
    | inr gap ↦ rw (at, gap) refl
  ]
]

-- No byte's owners change when two blocks become one, and so none when a region is added.
owners-merge :
    (x : ℕ) (b : FreeBlock) (cs : List FreeBlock)
    → owners x (merge_next b cs) ≡ owns b.start (block_end b) x + owners x cs
unfolding merge_next
owners-merge x b [] = refl
owners-merge x b (c ∷ cs) = ground arith

pub owners-placed :
    (x : ℕ) (b : FreeBlock) (cs : List FreeBlock)
    → owners x (placed b cs) ≡ owns b.start (block_end b) x + owners x cs
unfolding placed
owners-placed x b [] = refl
owners-placed x b (c ∷ cs) = elim (Bool-cases (ltb c.start b.start)) [
  | inl before ↦ rw before (omega (arith, owners-merge x c (placed b cs), owners-placed x b cs))
  | inr at ↦ rw at (owners-merge x b (c ∷ cs))
]

-- No block of the list meets the region.
abbrev pub Apart : FreeBlock → List FreeBlock → Type 0
Apart b [] = Unit
Apart b (c ∷ cs) = ((block_end b ≤ c.start) ⊎ (block_end c ≤ b.start)) × Apart b cs

merge-Ahead :
    (lo : ℕ) (b : FreeBlock) (cs : List FreeBlock)
    → lo ≤ b.start
    → 1 ≤ b.size
    → Ahead (block_end b) cs
    → Ahead lo (merge_next b cs)
unfolding merge_next
merge-Ahead lo b [] h k s = (h, k, tt)
merge-Ahead lo b (c ∷ cs) h k s = elim (Bool-cases (block_end b == c.start)) [
  | inl touches ↦
      let joined : suc (block_end (merged b c)) ≤ suc (block_end c) = ground arith in
      rw touches (h, omega arith, Ahead-mono cs joined s.2)
  | inr gap ↦ rw gap (h, k, (ground arith, s.1, s.2))
]

pub placed-Ahead :
    (lo : ℕ) (b : FreeBlock) (cs : List FreeBlock)
    → lo ≤ b.start
    → 1 ≤ b.size
    → Ahead lo cs
    → Apart b cs
    → Ahead lo (placed b cs)
unfolding placed
placed-Ahead lo b [] h k s a = (h, k, tt)
placed-Ahead lo b (c ∷ cs) h k s a = elim (Bool-cases (ltb c.start b.start)) [
  | inl before ↦
      let behind : block_end c ≤ b.start = elim (a.0) [
        | inl below ↦ ground arith
        | inr above ↦ above
      ] in
      rw before (
        merge-Ahead lo c (placed b cs) s.0 s.1
          (placed-Ahead (block_end c) b cs behind k (Ahead-mono cs (omega arith) s.2) a.1))
  | inr at ↦
      let ahead : block_end b ≤ c.start = elim (a.0) [
        | inl below ↦ below
        | inr above ↦ ground arith
      ] in
      rw at (merge-Ahead lo b (c ∷ cs) h k (ahead, s.1, s.2))
]

-- A block taken out of a list, or its tail left, goes back to where it was.
pub placed-gap :
    (c : FreeBlock) (cs : List FreeBlock)
    → Ahead (suc (block_end c)) cs
    → 1 ≤ c.size
    → placed c cs ≡ c ∷ cs
unfolding placed
placed-gap c [] s k = refl
placed-gap c (d ∷ ds) s k =
    let at : ltb d.start c.start ≡ false = ground arith in rw at (merge-gap c (d ∷ ds) s)

pub placed-behind :
    (b c : FreeBlock) (cs ds : List FreeBlock)
    → c.start < b.start
    → placed b cs ≡ ds
    → Ahead (suc (block_end c)) ds
    → placed b (c ∷ cs) ≡ c ∷ ds
unfolding placed
placed-behind b c cs ds h e s =
    let before : ltb c.start b.start ≡ true = ground arith in rw before (rw e (merge-gap c ds s))
