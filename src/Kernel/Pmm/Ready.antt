-- ===== src/Kernel/Pmm/Ready.antt =====
-- kernel/src/memory/pmm.rs: what `init` publishes.
use dunit_os.Prelude.{
  ℕ, zero, suc, ◌+◌, ◌-◌, ◌*◌, ◌/◌, ◌%◌, ◌≡◌, ◌≤◌, ◌<◌, refl, sym, subst, ap, ◌∙◌, min, Bool, false,
  ◌&&◌, ◌||◌, List, [], ◌∷◌, length, replicate, drop, any, get_elem?, some, ltb, ◌==◌, arith, inl,
  inr, Bool-cases, is_empty, ◌⊎◌, length-append, length-drop,
}
use dunit_os.Kernel.Pmm.{
  MemRegion, Pmm, is_free, byte_is_clear, new, zeroed, reserve_all_frames, mark_region_free_in_pool,
  frame_addr, page_size, usize_max, memmap_usable, bitmap_bytes,
}
use dunit_os.Kernel.Pmm.Bits.{is_clear-full}
use dunit_os.Kernel.Pmm.Frames.{AllBytes, count}
use dunit_os.Kernel.Pmm.Alloc.{IsValid}
use dunit_os.Kernel.Pmm.Regions.{lies_in, mark_region-Enabled}
use dunit_os.Kernel.Pmm.Boot.{
  copy_regions_from_boot, bounds, usable_pool_bounds, enable, init_pool, init,
}

-- Whether a page is a whole page of a usable region.
abbrev pub is_usable_page : ℕ → MemRegion → Bool
is_usable_page page r = r.region_type == memmap_usable && lies_in r.base r.length page

-- A valid pool with a free frame, in which a frame is free just when it is a whole page of a usable region.
pub record Published (regions : List MemRegion) (p : Pmm) : Type 0 where
  pub valid : IsValid p
  pub some_free : 1 ≤ p.free_frames
  pub only_usable :
      (g : ℕ)
      → g < p.total_frames
      → is_free p.bitmap g ≡ any (is_usable_page (frame_addr p g)) regions

-- The frames that are free once the regions are enabled.
record EnabledAll (regions : List MemRegion) (p p' : Pmm) : Type 0 where
  valid : IsValid p'
  total : p'.total_frames ≡ p.total_frames
  base_same : p'.base_addr ≡ p.base_addr
  after :
      (g : ℕ)
      → g < p.total_frames
      → is_free p'.bitmap g ≡ (is_free p.bitmap g || any (is_usable_page (frame_addr p g)) regions)

enable-EnabledAll :
    (regions : List MemRegion) (p : Pmm)
    → p.base_addr % page_size ≡ 0
    → IsValid p
    → EnabledAll regions p (enable regions p)
unfolding enable
enable-EnabledAll [] p a v = record {
  valid = v;
  total = refl;
  base_same = refl;
  after = λ g h. ground arith;
}
enable-EnabledAll (r ∷ regions) p a v = elim (Bool-cases (r.region_type == memmap_usable)) [
  | inl usable ↦
      let one = mark_region-Enabled r.base r.length p a v in
      let p1 = mark_region_free_in_pool r.base r.length p in
      let rest =
        enable-EnabledAll regions p1 (subst (λ b. b % page_size ≡ 0) (sym one.base_same) a)
          one.valid in
      rw usable (record {
        valid = rest.valid;
        total = rest.total ∙ one.total;
        base_same = rest.base_same ∙ one.base_same;
        after = λ g h. ground (
          arith,
          rest.after g,
          one.after g h,
          ap (λ (b : ℕ). any (is_usable_page (b + g * page_size)) regions) one.base_same,
        );
      })
  | inr other ↦
      let rest = enable-EnabledAll regions p a v in
      rw other (record {
        valid = rest.valid;
        total = rest.total;
        base_same = rest.base_same;
        after = λ g h. ground (arith, rest.after g h);
      })
]

replicate-AllBytes : (n : ℕ) → AllBytes (replicate n 0xFF)
replicate-AllBytes zero = tt
replicate-AllBytes (suc n) = (omega arith, replicate-AllBytes n)

length-replicate : (n v : ℕ) → length (replicate n v) ≡ n
length-replicate zero v = refl
length-replicate (suc n) v = ap suc (length-replicate n v)

full_bit : (n i bit : ℕ) → bit < 8 → byte_is_clear (get_elem? (replicate n 0xFF) i) bit ≡ false
full_bit zero i bit h = refl
full_bit (suc n) zero bit h = is_clear-full bit h
full_bit (suc n) (suc i) bit h = full_bit n i bit h

-- With every bit set, no frame is free.
full-is_free : (n g : ℕ) → is_free (replicate n 0xFF) g ≡ false
unfolding is_free
full-is_free n g = full_bit n (g / 8) (g % 8) (omega arith)

count_none : (n : ℕ) (q : ℕ → Bool) → ((g : ℕ) → q g ≡ false) → count n q ≡ 0
unfolding count
count_none zero q e = refl
count_none (suc n) q e = rw (e n) (omega (arith, count_none n q e))

length-zeroed : (n k : ℕ) → length (zeroed n (replicate k 0)) ≡ k
length-zeroed n k =
    let z : List ℕ = replicate k 0 in
    omega (
      arith,
      length-append (replicate (min n (length z)) 0) (drop n z),
      length-replicate (min n (length z)) 0,
      length-replicate k 0,
      length-drop n z,
    )

-- A pool with all frames reserved is valid and has none free.
reserved-IsValid :
    (start size k : ℕ)
    → size / page_size ≤ 8 * k
    → start + size / page_size * page_size ≤ usize_max
    → IsValid (reserve_all_frames (new start size (replicate k 0)))
unfolding reserve_all_frames new
reserved-IsValid start size k h fits =
    let n = length (zeroed ((size / page_size + 7) / 8) (replicate k 0)) in
    record {
      covers = record {
        bytes = replicate-AllBytes n;
        long = omega (arith, length-zeroed ((size / page_size + 7) / 8) k, length-replicate n 0xFF);
      };
      counted =
          sym (count_none (size / page_size) (is_free (replicate n 0xFF)) (λ g. full-is_free n g));
      fits = fits;
    }

-- What the loop over the regions keeps of the bounds: pages, and no more than a `usize`.
abbrev Paged : ℕ × ℕ → Type 0
Paged (first, last) =
    ((first ≡ usize_max) ⊎ (first % page_size ≡ 0)) × (last % page_size ≡ 0) × (last ≤ usize_max)

bounds-Paged :
    (regions : List MemRegion) (first last : ℕ)
    → Paged (first, last)
    → Paged (bounds regions first last)
unfolding bounds
bounds-Paged [] first last h = h
bounds-Paged (r ∷ regions) first last h = bounds-Paged regions _ _ (ground arith)

-- Enabling the regions of a pool that starts on a page and has all frames reserved.
enabled-Published :
    (regions : List MemRegion) (start size k : ℕ)
    → start % page_size ≡ 0
    → size / page_size ≤ 8 * k
    → start + size / page_size * page_size ≤ usize_max
    → let p = enable regions (reserve_all_frames (new start size (replicate k 0))) in
      (p.free_frames == 0) ≡ false → Published regions p
unfolding reserve_all_frames new
enabled-Published regions start size k a h fits some_free =
    let p0 = reserve_all_frames (new start size (replicate k 0)) in
    let all = enable-EnabledAll regions p0 a (reserved-IsValid start size k h fits) in
    record {
      valid = all.valid;
      some_free = ground arith;
      only_usable = λ g l.
          all.after g (subst (λ t. g < t) all.total l)
          ∙ rw (full-is_free (length (zeroed ((size / page_size + 7) / 8) (replicate k 0))) g) (
              ap (λ (b : ℕ). any (is_usable_page (b + g * page_size)) regions) (sym all.base_same));
    }

init_pool_lem :
    (regions : List MemRegion) (b : ℕ × ℕ) (p : Pmm)
    → Paged b
    → b.0 < b.1
    → init_pool regions b ≡ some p
    → Published regions p
unfolding init_pool
init_pool_lem regions (start, stop) p (s, e, le) lt q =
    let size : ℕ = stop - start in
    let k : ℕ = (size / page_size + 7) / 8 in
    elim (Bool-cases (ltb size page_size || ltb bitmap_bytes k)) [
      | inl bad ↦ cc (rw bad at q)
      | inr good ↦
          let q1 = rw good at q in
          let pe = enable regions (reserve_all_frames (new start size (replicate k 0))) in
          elim (Bool-cases (pe.free_frames == 0)) [
            | inl none_free ↦ cc (rw none_free at q1)
            | inr some_free ↦
                let q2 : some pe ≡ some p = rw some_free at q1 in
                subst (Published regions) (cc) (
                  enabled-Published regions start size k (ground arith) (omega arith) (omega arith)
                    some_free)
          ]
    ]

-- When `init` succeeds, the manager is valid, a frame is free in it, and a frame of its pool is free just when
-- it is a whole page of a usable region of the first 32.
pub init_lem :
    (boot_mem_regions : List MemRegion) (p : Pmm)
    → init boot_mem_regions ≡ some p
    → Published (copy_regions_from_boot boot_mem_regions) p
unfolding init usable_pool_bounds
init_lem boot_mem_regions p q =
    let regions = copy_regions_from_boot boot_mem_regions in
    let b = bounds regions usize_max 0 in
    elim (Bool-cases (is_empty regions)) [
      | inl no_map ↦ cc (rw no_map at q)
      | inr map ↦
          let q1 = rw map at q in
          elim (Bool-cases (ltb b.0 b.1)) [
            | inl lt ↦
                init_pool_lem regions b p
                  (bounds-Paged regions usize_max 0 (inl refl, omega arith, omega arith))
                  (ground arith) (rw lt at q1)
            | inr no_page ↦ cc (rw no_page at q1)
          ]
    ]
