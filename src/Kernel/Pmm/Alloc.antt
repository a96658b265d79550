-- ===== src/Kernel/Pmm/Alloc.antt =====
-- kernel/src/memory/pmm.rs: what the allocations and `free_frame` make of the set of free frames.
use dunit_os.Prelude.{
  ℕ, ◌+◌, ◌*◌, ◌≡◌, ◌≤◌, ◌<◌, refl, sym, subst, ◌∙◌, Bool, true, false, ◌&&◌, List, length, Option,
  none, some, ltb, leb, ◌==◌, if◌then◌else◌, arith,
}
use dunit_os.Kernel.Pmm.{
  Pmm, is_free, scan_bytes, allocated, alloc_frame, frame_addr, page_size, usize_max,
}
use dunit_os.Kernel.Pmm.Frames.{Covers, count, count_change, count-le, count-ext}
use dunit_os.Kernel.Pmm.Scan.{Seen, scan_lem}

-- The bitmap has a bit for each frame, `free_frames` counts the clear ones, and addresses fit a `usize`.
pub record IsValid (p : Pmm) : Type 0 where
  pub covers : Covers p.total_frames p.bitmap
  pub counted : p.free_frames ≡ count p.total_frames (is_free p.bitmap)
  pub fits : p.base_addr + p.total_frames * page_size ≤ usize_max

-- The pool itself stays what it is.
pub record SamePool (p p' : Pmm) : Type 0 where
  pub total : p'.total_frames ≡ p.total_frames
  pub base : p'.base_addr ≡ p.base_addr
  pub usable : p'.usable_frames ≡ p.usable_frames

-- A set of frames that an allocation of `n` frames at `start` leaves.
abbrev pub without : (start n : ℕ) → (ℕ → Bool) → ℕ → Bool
without start n q g = if leb start g && ltb g (start + n) then false else q g

-- `n` frames from `start` on were free, and are the ones that are not any more.
pub record Gives (n start : ℕ) (p p' : Pmm) : Type 0 where
  pub inside : start + n ≤ p.total_frames
  pub were_free : (g : ℕ) → start ≤ g → g < start + n → is_free p.bitmap g ≡ true
  pub after :
      (g : ℕ) → g < p.total_frames → is_free p'.bitmap g ≡ without start n (is_free p.bitmap) g
  pub counts : p.free_frames ≡ p'.free_frames + n

-- There are no `n` free frames in a row from `start` on.
abbrev pub NoRun : (n start : ℕ) → List ℕ → Type 0
NoRun n start bitmap = ¬ ((g : ℕ) → start ≤ g → g < start + n → is_free bitmap g ≡ true)

-- What an allocation of `n` frames makes of a pool.
abbrev pub Answer : (n : ℕ) → Pmm → Pmm × Option ℕ → Type 0
Answer n p (p', none) =
    IsValid p'
    × SamePool p p'
    × (p'.free_frames ≡ p.free_frames)
    × ((g : ℕ) → g < p.total_frames → is_free p'.bitmap g ≡ is_free p.bitmap g)
    × ((t : ℕ) → t + n ≤ p.total_frames → NoRun n t p.bitmap)
Answer n p (p', some addr) =
    IsValid p'
    × SamePool p p'
    × ((start : ℕ) × (addr ≡ frame_addr p start)
        × Gives n start p p'
        × ((t : ℕ) → t < start → NoRun n t p.bitmap))

-- A set with one frame less, as a run of one.
without_one : (f g : ℕ) (q : ℕ → Bool) → (if f == g then false else q g) ≡ without f 1 q g
without_one f g q = ground arith

-- `alloc_frame` takes the lowest free frame, which nothing else may then take, and it fails only where no
-- frame is free.
pub alloc_frame_lem : (p : Pmm) → IsValid p → Answer 1 p (alloc_frame p)
unfolding alloc_frame
alloc_frame_lem p v =
    go (scan_bytes (length p.bitmap) 0 p.total_frames p.bitmap)
      (scan_lem p.total_frames p.bitmap v.covers)
  where
    go :
        (r : List ℕ × Option ℕ)
        → Seen p.total_frames p.total_frames p.bitmap r
        → Answer 1 p (allocated p 1 r)
    go (bitmap, none) (s, n) = (
      record {
        covers = s.covers;
        counted =
            v.counted
            ∙ count-ext p.total_frames (is_free p.bitmap) (is_free bitmap)
                (λ g h. sym (s.same g h));
        fits = v.fits;
      },
      record { total = refl; base = refl; usable = refl },
      refl,
      s.same,
      λ t h run. cc (n t (omega arith) (omega arith), run t (omega arith) (omega arith)),
    )
    go (bitmap, some frame) t =
        let k : count p.total_frames (is_free p.bitmap)
            ≡ count p.total_frames (is_free bitmap) + 1 =
          count_change p.total_frames frame (is_free p.bitmap) (is_free bitmap) t.inside t.was_free
            t.after in
        let l = count-le p.total_frames (is_free p.bitmap) in
        (
          record {
            covers = t.covers;
            counted = omega (arith, v.counted, v.fits, k, l);
            fits = v.fits;
          },
          record { total = refl; base = refl; usable = refl },
          (
            frame,
            refl,
            record {
              inside = omega (arith, t.inside);
              were_free = λ g h h'. subst (λ x. is_free p.bitmap x ≡ true) (omega arith) t.was_free;
              after = λ g h. t.after g h ∙ without_one frame g (is_free p.bitmap);
              counts = omega (arith, v.counted, v.fits, k, l);
            },
            λ u h run. cc (t.lowest u h, run u (omega arith) (omega arith)),
          ),
        )
