-- ===== src/Gui/Server/Guards.antt =====
-- server.rs: what a request that succeeds has shown.
use dunit_os.Prelude.{ℕ, ◌*◌, ◌^◌, ◌≡◌, ◌≤◌, ◌<◌, ◌⊎◌, inl, inr, refl, true, false, arith, ◌==◌}
use dunit_os.Prelude.Results.{
  Result, ok, err, Ensures, Ensures-ok, Ensures->>=, Ensures->>, Ensures-if,
}
use dunit_os.Gui.Wire.Codes.{ErrorCode}
use dunit_os.Gui.Server.State.{Surface, Buffer, surface_of, buffer_of}
use dunit_os.Gui.Server.Step.{World, Ctx, Step, settle}
use dunit_os.Gui.Server.Dispatch.Commit
use dunit_os.Gui.Server.Atomic.{has_error}

-- As a record, so that what holds on success is found from the goal.
record Shows (P : Type 0) (s : Step) : Type 0 where
  shown : has_error s.events ≡ false → P

settle-Shows :
    {P : Type 0} (w : World) (x : Ctx) {m : Result ErrorCode Step}
    → Ensures m (λ _. P)
    → Shows P (settle w x m)
unfolding settle
settle-Shows w x {m = ok s} h = record { shown = λ k. h.holds s refl }
settle-Shows w x {m = err e} h = record { shown = λ k. absurd (cc) }

-- What a buffer shows when it is mapped: the configured size in pixels, without overflow, and the format.
abbrev pub Fits : Surface → Buffer → Type 0
Fits s b =
    (b.width ≡ s.width * s.scale)
    × (b.height ≡ s.height * s.scale)
    × (b.format ≡ s.format)
    × (s.width * s.scale < 2 ^ 32)
    × (s.height * s.scale < 2 ^ 32)

-- What a COMMIT has shown of its surface: a pending attach, and the latest configure, acknowledged.
abbrev pub Committable : World → Ctx → (configure frame_callback : ℕ) → Type 0
Committable w x configure frame_callback =
    (s : Surface) × (surface_of w.conn x.object ≡ ok s)
    × (s.pending_attach ≡ true)
    × (configure ≡ s.latest_token)
    × (s.acked_token ≡ s.latest_token)
    × (frame_callback ≤ 1)
    × ((s.pending_buffer ≡ 0)
        ⊎ ((b : Buffer) × (buffer_of w.conn s.pending_buffer ≡ ok b) × Fits s b))

check_size-Fits :
    (s : Surface) (b : Buffer) → Commit.check_size s b (Commit.pixel_size s) ≡ ok tt → Fits s b
check_size-Fits s b h = ground arith

-- A COMMIT that is not answered by an ERROR names a surface with a pending attach, its latest
-- configure, which is acknowledged, and a pending buffer of just the configured size and format, or
-- none.
pub commit_lem :
    (w : World) (x : Ctx) (configure frame_callback : ℕ)
    → has_error (Commit.commit w x configure frame_callback).events ≡ false
    → Committable w x configure frame_callback
unfolding Commit.commit
commit_lem w x configure frame_callback h =
    (settle-Shows w x (
        Ensures->> _ _ λ h1. Ensures->>= _ λ s e. Ensures->> _ _ λ h2. Ensures->> _ _ λ h3.
          Ensures->> _ _ λ h4.
            Ensures-if (s.pending_buffer == 0)
              (λ z.
                Ensures-ok (λ _. Committable w x configure frame_callback)
                  (
                    s,
                    e,
                    ground (arith, h2),
                    ground (arith, h3),
                    ground (arith, h3),
                    ground (arith, h1),
                    inl (ground arith),
                  ))
              (λ _. Ensures->>= _ λ b k. Ensures->> _ _ λ f.
                Ensures-ok (λ _. Committable w x configure frame_callback)
                  (
                    s,
                    e,
                    ground (arith, h2),
                    ground (arith, h3),
                    ground (arith, h3),
                    ground (arith, h1),
                    inr (b, k, check_size-Fits s b f),
                  )))).shown
      h
