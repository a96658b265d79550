-- ===== src/Kernel/Pmm/Runs.antt =====
-- kernel/src/memory/pmm.rs: `alloc_contiguous`.
use dunit_os.Prelude.{
  ℕ, zero, suc, ◌+◌, ◌*◌, ◌≡◌, ◌≤◌, ◌<◌, refl, sym, subst, true, false, List, length, Option, none,
  some, ltb, ◌==◌, arith, inl, inr, Bool-cases, ==→≡, if-cases,
}
use dunit_os.Kernel.Pmm.{
  Pmm, is_free, mark_used, scan_run, use_run, allocated, alloc_frame, alloc_contiguous, start_of,
  len_of,
}
use dunit_os.Kernel.Pmm.Frames.{
  Covers, is_free-mark_used, mark_used-Covers, count, count_change, count-le,
}
use dunit_os.Kernel.Pmm.Alloc.{IsValid, NoRun, Answer, without, alloc_frame_lem}

-- A run that was free and is marked.
pub record Marked (total n start : ℕ) (bitmap bitmap' : List ℕ) : Type 0 where
  pub covers : Covers total bitmap'
  pub after : (g : ℕ) → g < total → is_free bitmap' g ≡ without start n (is_free bitmap) g
  pub counts : count total (is_free bitmap) ≡ count total (is_free bitmap') + n

use_run-Marked :
    (total n start : ℕ) (bitmap : List ℕ)
    → Covers total bitmap
    → start + n ≤ total
    → ((g : ℕ) → start ≤ g → g < start + n → is_free bitmap g ≡ true)
    → Marked total n start bitmap (use_run n start bitmap)
unfolding use_run
use_run-Marked total zero start bitmap c h free = record {
  covers = c;
  after = λ g k. ground arith;
  counts = omega arith;
}
use_run-Marked total (suc n) start bitmap c h free =
    let k : start < 8 * length bitmap = omega (arith, c.long) in
    let one = is_free-mark_used bitmap start c.bytes k in
    let next : List ℕ = mark_used start bitmap in
    let rest =
      use_run-Marked total n (suc start) next (mark_used-Covers total bitmap start c k)
        (omega arith) (λ g l m. ground (arith, one g, free g (omega arith) (omega arith))) in
    record {
      covers = rest.covers;
      after = λ g l. ground (arith, rest.after g l, one g);
      counts = omega (
        arith,
        rest.counts,
        count_change total start (is_free bitmap) (is_free next) (omega arith)
            (free start (omega arith) (omega arith)) (λ g l. one g),
      );
    }

-- What the search makes of a bitmap.
abbrev Found : (total n : ℕ) → List ℕ → List ℕ × Option ℕ → Type 0
Found total n bitmap (bitmap', none) =
    (bitmap' ≡ bitmap) × ((t : ℕ) → t + n ≤ total → NoRun n t bitmap)
Found total n bitmap (bitmap', some start) =
    (start + n ≤ total)
    × ((g : ℕ) → start ≤ g → g < start + n → is_free bitmap g ≡ true)
    × Marked total n start bitmap bitmap'
    × ((t : ℕ) → t < start → NoRun n t bitmap)

module _ (total n : ℕ) (bitmap : List ℕ) (c : Covers total bitmap) where
  -- Before each turn, the frames from the start of the run to this one are free and too few, and no run
  -- starts before.
  scan_run-Found :
      (turns frame : ℕ) (run_start : Option ℕ) (len : ℕ)
      → turns + frame ≡ total
      → start_of run_start frame + len ≡ frame
      → len_of run_start len ≡ len + 1
      → len < n
      → ((g : ℕ) → start_of run_start frame ≤ g → g < frame → is_free bitmap g ≡ true)
      → ((t : ℕ) → t < start_of run_start frame → NoRun n t bitmap)
      → Found total n bitmap (scan_run turns frame n run_start len bitmap)
  unfolding scan_run
  scan_run-Found zero frame run_start len e at l short free none_before =
      (refl, λ t h. none_before t (omega arith))
  scan_run-Found (suc turns) frame run_start len e at l short free none_before =
      let start : ℕ = start_of run_start frame in
      let longer =
        λ (here : is_free bitmap frame ≡ true) (g : ℕ) (h : start ≤ g) (k : g < suc frame).
          at_or_before (λ x. is_free bitmap x ≡ true) frame g k here (λ m. free g h m) in
      elim (Bool-cases (is_free bitmap frame)) [
        | inl here ↦
            rw (here, l)
              (if-cases (Found total n bitmap) (len + 1 == n)
                (λ full. (
                  ground arith,
                  λ g h k. longer here g h (ground arith),
                  use_run-Marked total n start bitmap c (ground arith)
                      (λ g h k. longer here g h (ground arith)),
                  none_before,
                ))
                (λ more.
                  scan_run-Found turns (suc frame) (some start) (len + 1) (omega arith)
                    (omega arith) refl (ground arith) (longer here) none_before))
        | inr here ↦ rw here (
            scan_run-Found turns (suc frame) none 0 (omega arith) (omega arith) refl (omega arith)
              (λ g h k. absurd (omega arith))
              (λ t h run. elim (Bool-cases (ltb t start)) [
                | inl before ↦ none_before t (ground arith) run
                | inr later ↦ cc (run frame (omega arith) (ground arith), here)
              ]))
      ]
    where
      at_or_before : (P : ℕ → Type 0) (n g : ℕ) → g < suc n → P n → (g < n → P g) → P g
      at_or_before P n g h p q = elim (Bool-cases (g == n)) [
        | inl e ↦ subst P (sym (==→≡ g n e)) p
        | inr ne ↦ q (ground arith)
      ]

-- `alloc_contiguous` takes the lowest run of that many free frames, which nothing else may then take, and
-- fails only where there is no such run.
pub alloc_contiguous_lem : (n : ℕ) (p : Pmm) → 1 ≤ n → IsValid p → Answer n p (alloc_contiguous n p)
unfolding alloc_contiguous
alloc_contiguous_lem n p h v = rw (nonzero n h) (
    if-cases (Answer n p) (n == 1)
      (λ one. subst (λ m. Answer m p (alloc_frame p)) (sym (==→≡ n 1 one)) (alloc_frame_lem p v))
      (λ more. go (scan_run p.total_frames 0 n none 0 p.bitmap) (
        scan_run-Found p.total_frames n p.bitmap v.covers p.total_frames 0 none 0 (omega arith) refl
          refl h (λ g k l. absurd (omega arith)) (λ t k. absurd (omega arith)))))
  where
    nonzero : (n : ℕ) → 1 ≤ n → (n == 0) ≡ false
    nonzero n h = ground arith

    go : (r : List ℕ × Option ℕ) → Found p.total_frames n p.bitmap r → Answer n p (allocated p n r)
    go (bitmap, none) (e, miss) = (
      record {
        covers = subst (Covers p.total_frames) (sym e) v.covers;
        counted = subst (λ b. p.free_frames ≡ count p.total_frames (is_free b)) (sym e) v.counted;
        fits = v.fits;
      },
      record { total = refl; base = refl; usable = refl },
      refl,
      λ g k. subst (λ b. is_free b g ≡ is_free p.bitmap g) (sym e) refl,
      miss,
    )
    go (bitmap, some start) (inside, free, m, low) =
        let l = count-le p.total_frames (is_free p.bitmap) in
        (
          record {
            covers = m.covers;
            counted = omega (arith, v.counted, v.fits, m.counts, l);
            fits = v.fits;
          },
          record { total = refl; base = refl; usable = refl },
          (
            start,
            refl,
            record {
              inside = inside;
              were_free = free;
              after = m.after;
              counts = omega (arith, v.counted, v.fits, m.counts, l);
            },
            low,
          ),
        )
