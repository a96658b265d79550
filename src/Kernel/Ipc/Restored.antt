-- ===== src/Kernel/Ipc/Restored.antt =====
-- kernel/src/ipc/mod.rs: the frames of a region of shared memory that could not be made.
use dunit_os.Prelude.{
  ℕ, ◌+◌, ◌-◌, ◌^◌, ◌%◌, ◌≤◌, ◌⊎◌, ◌/◌, ◌≡◌, ◌<◌, Bool, true, false, not, ◌&&◌, ◌||◌, List, [], ◌∷◌,
  Option, none, some, length,
}
use dunit_os.Prelude.Table.{lookup}
use dunit_os.Kernel.Pmm.{Pmm, is_free}
use dunit_os.Kernel.Pmm.Alloc.{IsValid, SamePool}
use dunit_os.Kernel.Pmm.Calls.{in_frame}
use dunit_os.Kernel.Ipc.{IpcManager}
use dunit_os.Kernel.Ipc.Shared.{Created, new_region}

-- Whether a frame is one of those at the addresses.
abbrev pub is_among : Pmm → ℕ → List ℕ → Bool
is_among p g [] = false
is_among p g (a ∷ frames) = in_frame p g a || is_among p g frames

-- The pool after some of its free frames were taken.
pub record Took (p : Pmm) (frames : List ℕ) (p1 : Pmm) : Type 0 where
  pub valid : IsValid p1
  pub pool : SamePool p p1
  pub after :
      (g : ℕ)
      → g < p.total_frames
      → is_free p1.bitmap g ≡ (is_free p.bitmap g && not (is_among p g frames))
  pub were_free :
      (g : ℕ) → g < p.total_frames → is_among p g frames ≡ true → is_free p.bitmap g ≡ true

-- The same frames are free, and the pool is valid.
pub record SameFree (p p1 : Pmm) : Type 0 where
  pub valid : IsValid p1
  pub pool : SamePool p p1
  pub free : (g : ℕ) → g < p.total_frames → is_free p1.bitmap g ≡ is_free p.bitmap g

-- The pool after frames were given back.
record Gave (p : Pmm) (frames : List ℕ) (p1 : Pmm) : Type 0 where
  pub valid : IsValid p1
  pub pool : SamePool p p1
  pub after :
      (g : ℕ)
      → g < p.total_frames
      → is_free p1.bitmap g ≡ (is_free p.bitmap g || is_among p g frames)

abbrev IfMissed : (count : ℕ) → Pmm → Pmm × Option (List ℕ) → Type 0
IfMissed count p (p1, none) = SameFree p p1
IfMissed count p (p1, some frames) = Took p frames p1 × (length frames ≡ count)

-- What comes of a request for shared memory.
abbrev pub Outcome : (size : ℕ) → IpcManager → Pmm → IpcManager × Option Pmm × Created → Type 0
Outcome size m p (m1, none, c) = ⊥
Outcome size m p (m1, some p1, Created.unavailable) = (m1 ≡ m) × SameFree p p1
Outcome size m p (m1, some p1, Created.panicked) = (size ≡ 0) ⊎ (2 ^ 64 - 4095 ≤ size)
Outcome size m p (m1, some p1, Created.created id) =
    (first : ℕ) × (frames : List ℕ) × (lookup id m1.shared_regions
      ≡ some (new_region id first size))
    × (length (first ∷ frames) ≡ (size + 4095) % 2 ^ 64 / 4096)
    × Took p (first ∷ frames) p1
