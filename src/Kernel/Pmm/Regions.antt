-- ===== src/Kernel/Pmm/Regions.antt =====
-- kernel/src/memory/pmm.rs: `mark_region_free_in_pool` and `free_frame`.
use dunit_os.Prelude.{
  ℕ, zero, suc, ◌+◌, ◌-◌, ◌*◌, ◌/◌, ◌%◌, ◌≡◌, ◌≤◌, ◌<◌, refl, subst, min, Bool, true, false, not,
  ◌&&◌, ◌||◌, List, length, ltb, leb, ◌==◌, if◌then◌else◌, arith, inl, inr, Bool-cases, ==→≡,
  if-cases,
}
use dunit_os.Kernel.Pmm.{
  Pmm, is_free, is_used, mark_free, free_frame, free_run, mark_frame_index_free,
  mark_region_free_in_pool, region_start, region_end, frame_addr, page_size, usize_max,
}
use dunit_os.Kernel.Pmm.Frames.{
  Covers, is_free-mark_free, is_used-is_free, mark_free-Covers, count, count_change, count-le,
}
use dunit_os.Kernel.Pmm.Alloc.{IsValid, SamePool}

-- One frame more is free, and is counted, unless it was free before.
record Freed (total frame : ℕ) (bitmap : List ℕ) (r : List ℕ × Bool) : Type 0 where
  covers : Covers total r.0
  after : (g : ℕ) → g < total → is_free r.0 g ≡ (is_free bitmap g || frame == g)
  counts : count total (is_free r.0) ≡ count total (is_free bitmap) + (if r.1 then 1 else 0)

module _ (total frame : ℕ) (bitmap : List ℕ) (c : Covers total bitmap) (h : frame < total) where
  free_already : is_free bitmap frame ≡ true → Freed total frame bitmap (bitmap, false)
  free_already free = record {
    covers = c;
    after = λ g l. elim (Bool-cases (frame == g)) [
      | inl e ↦
          subst (λ x. is_free bitmap x ≡ (is_free bitmap x || frame == x)) (==→≡ frame g e)
            (rw free refl)
      | inr ne ↦ ground arith
    ];
    counts = omega arith;
  }

  free_now : is_free bitmap frame ≡ false → Freed total frame bitmap (mark_free frame bitmap, true)
  free_now taken =
      let k : frame < 8 * length bitmap = omega (arith, c.long) in
      let now = is_free-mark_free bitmap frame c.bytes k in
      record {
        covers = mark_free-Covers total bitmap frame c k;
        after = λ g l. ground (arith, now g);
        counts =
            count_change total frame (is_free (mark_free frame bitmap)) (is_free bitmap) h
              (ground (arith, now frame))
              (λ g l. elim (Bool-cases (frame == g)) [
                | inl e ↦ rw e (subst (λ x. is_free bitmap x ≡ false) (==→≡ frame g e) taken)
                | inr ne ↦ ground (arith, now g)
              ]);
      }

  used_lem : is_used bitmap frame ≡ not (is_free bitmap frame)
  used_lem = is_used-is_free bitmap frame c.bytes (omega (arith, c.long))

  mark_frame_index_free-Freed : Freed total frame bitmap (mark_frame_index_free total frame bitmap)
  unfolding mark_frame_index_free
  mark_frame_index_free-Freed =
      let inside : leb total frame ≡ false = ground arith in
      elim (Bool-cases (is_free bitmap frame)) [
        | inl free ↦ rw (inside, used_lem, free) (free_already free)
        | inr taken ↦ rw (inside, used_lem, taken) (free_now taken)
      ]

record FreedRun (total frame n : ℕ) (bitmap : List ℕ) (r : List ℕ × ℕ) : Type 0 where
  covers : Covers total r.0
  after :
      (g : ℕ) → g < total → is_free r.0 g ≡ (is_free bitmap g || (leb frame g && ltb g (frame + n)))
  counts : count total (is_free r.0) ≡ count total (is_free bitmap) + r.1

free_run-FreedRun :
    (total n frame : ℕ) (bitmap : List ℕ)
    → Covers total bitmap
    → frame + n ≤ total
    → FreedRun total frame n bitmap (free_run n frame total bitmap)
unfolding free_run
free_run-FreedRun total zero frame bitmap c h = record {
  covers = c;
  after = λ g l. ground arith;
  counts = omega arith;
}
free_run-FreedRun total (suc n) frame bitmap c h =
    let one = mark_frame_index_free-Freed total frame bitmap c (omega arith) in
    let r = mark_frame_index_free total frame bitmap in
    let rest = free_run-FreedRun total n (suc frame) r.0 one.covers (omega arith) in
    record {
      covers = rest.covers;
      after = λ g l. ground (arith, rest.after g l, one.after g l);
      counts = ground (arith, rest.counts, one.counts);
    }

-- Whether a page lies wholly in a region.
abbrev pub lies_in : (base length page : ℕ) → Bool
lies_in base length page = leb base page && leb (page + page_size) (min (base + length) usize_max)

-- The frames that the loop runs over are those that lie in the region.
module _ (p : Pmm) (base length f : ℕ) (h : f < p.total_frames) (a : p.base_addr % page_size ≡ 0)
    (fits : p.base_addr + p.total_frames * page_size ≤ usize_max) where
  empty_region :
      region_end p base length ≤ region_start p base → lies_in base length (frame_addr p f) ≡ false
  empty_region k = ground arith

  inside_region :
      region_start p base < region_end p base length
      → (leb ((region_start p base - p.base_addr) / page_size) f
          && ltb f (min ((region_end p base length - p.base_addr) / page_size) p.total_frames))
        ≡ lies_in base length (frame_addr p f)
  inside_region k = ground arith

-- The frames of a region become free, with those that were, and both counts grow by the new ones.
pub record Enabled (base length : ℕ) (p p' : Pmm) : Type 0 where
  pub valid : IsValid p'
  pub total : p'.total_frames ≡ p.total_frames
  pub base_same : p'.base_addr ≡ p.base_addr
  pub after :
      (g : ℕ)
      → g < p.total_frames
      → is_free p'.bitmap g ≡ (is_free p.bitmap g || lies_in base length (frame_addr p g))

pub mark_region-Enabled :
    (base length : ℕ) (p : Pmm)
    → p.base_addr % page_size ≡ 0
    → IsValid p
    → Enabled base length p (mark_region_free_in_pool base length p)
unfolding mark_region_free_in_pool
mark_region-Enabled base length p a v =
    if-cases (Enabled base length p) (leb (region_end p base length) (region_start p base))
      (λ none_new. record {
        valid = v;
        total = refl;
        base_same = refl;
        after = λ g h. ground (arith, empty_region p base length g h a v.fits (ground arith));
      })
      (λ some_new.
        let first : ℕ = (region_start p base - p.base_addr) / page_size in
        let last : ℕ = min ((region_end p base length - p.base_addr) / page_size) p.total_frames in
        let run =
          free_run-FreedRun p.total_frames (last - first) first p.bitmap v.covers
            (ground (arith, v.fits)) in
        let k =
          count-le p.total_frames
            (is_free (free_run (last - first) first p.total_frames p.bitmap).0) in
        record {
          valid = record {
            covers = run.covers;
            counted = omega (arith, run.counts, v.counted, v.fits, k);
            fits = v.fits;
          };
          total = refl;
          base_same = refl;
          after = λ g h.
              ground
                (arith, run.after g h, inside_region p base length g h a v.fits (ground arith));
        })

-- The frame at an address becomes free, and is counted if it was not free before.
pub record Released (addr : ℕ) (p p' : Pmm) : Type 0 where
  pub valid : IsValid p'
  pub pool : SamePool p p'
  pub after :
      (g : ℕ)
      → g < p.total_frames
      → is_free p'.bitmap g
        ≡ (is_free p.bitmap g || (leb (frame_addr p g) addr && ltb addr (frame_addr p (suc g))))

pub free_frame_lem : (addr : ℕ) (p : Pmm) → IsValid p → Released addr p (free_frame addr p)
unfolding free_frame
free_frame_lem addr p v = elim (Bool-cases (ltb addr p.base_addr || leb p.total_frames frame)) [
  | inl outside ↦ rw outside (record {
    valid = v;
    pool = record { total = refl; base = refl; usable = refl };
    after = λ g h. ground arith;
  })
  | inr inside ↦
      let used = used_lem p.total_frames frame p.bitmap v.covers (ground arith) in
      elim (Bool-cases (is_free p.bitmap frame)) [
        | inl free ↦
            let r = free_already p.total_frames frame p.bitmap v.covers (ground arith) free in
            rw (inside, used, free)
              (record {
                valid = v;
                pool = record { total = refl; base = refl; usable = refl };
                after = λ g h. ground (arith, r.after g h);
              })
        | inr taken ↦
            let r = free_now p.total_frames frame p.bitmap v.covers (ground arith) taken in
            let k = count-le p.total_frames (is_free (mark_free frame p.bitmap)) in
            rw (inside, used, taken)
              (record {
                valid = record {
                  covers = r.covers;
                  counted = omega (arith, r.counts, v.counted, v.fits, k);
                  fits = v.fits;
                };
                pool = record { total = refl; base = refl; usable = refl };
                after = λ g h. ground (arith, r.after g h);
              })
      ]
]
  where
    frame : ℕ
    frame = (addr - p.base_addr) / page_size
