-- ===== src/Kernel/Pmm/Calls.antt =====
-- kernel/src/memory/pmm.rs: sequences of allocations and frees.
use dunit_os.Prelude.{
  ℕ, suc, ◌+◌, ◌*◌, ◌≡◌, ◌<◌, refl, ◌∙◌, Bool, true, false, ◌&&◌, ◌||◌, List, [], ◌∷◌, ◌++◌, Option,
  none, some, ltb, leb, ◌==◌, arith, inl, inr, Bool-cases,
}
use dunit_os.Kernel.Pmm.{
  Pmm, is_free, alloc_frame, alloc_contiguous, free_frame, frame_addr, page_size,
}
use dunit_os.Kernel.Pmm.Alloc.{IsValid, Answer, alloc_frame_lem}
use dunit_os.Kernel.Pmm.Runs.{alloc_contiguous_lem}
use dunit_os.Kernel.Pmm.Regions.{free_frame_lem}

pub data Call : Type 0 where
  one : Call
  many : ℕ → Call
  release : ℕ → Call

-- A grant is an address and the number of frames from there on.
abbrev granted : ℕ → Option ℕ → List (ℕ × ℕ)
granted n none = []
granted n (some addr) = (addr, n) ∷ []

unfoldable pub step : Call → Pmm → Pmm × List (ℕ × ℕ)
unfolding alloc_frame alloc_contiguous free_frame
step Call.one p = let (p', a) = alloc_frame p in (p', granted 1 a)
step (Call.many n) p = let (p', a) = alloc_contiguous n p in (p', granted n a)
step (Call.release addr) p = (free_frame addr p, [])

unfoldable pub run : List Call → Pmm → Pmm × List (ℕ × ℕ)
unfolding step
run [] p = (p, [])
run (c ∷ cs) p = let (p1, grants) = step c p in let (p2, more) = run cs p1 in (p2, grants ++ more)

-- Whether an address lies in the page of a frame.
abbrev pub in_frame : Pmm → ℕ → ℕ → Bool
in_frame p f addr = leb (frame_addr p f) addr && ltb addr (frame_addr p (suc f))

-- No call gives the frame back.
abbrev pub Spares : Pmm → ℕ → List Call → Type 0
Spares p f [] = Unit
Spares p f (Call.one ∷ cs) = Spares p f cs
Spares p f (Call.many n ∷ cs) = Spares p f cs
Spares p f (Call.release addr ∷ cs) = (in_frame p f addr ≡ false) × Spares p f cs

-- No grant overlaps the frame.
abbrev pub Avoids : Pmm → ℕ → List (ℕ × ℕ) → Type 0
Avoids p f [] = Unit
Avoids p f ((addr, n) ∷ gs) =
    ((leb (addr + n * page_size) (frame_addr p f) || leb (frame_addr p f + page_size) addr) ≡ true)
    × Avoids p f gs

-- What a step leaves to a frame that is in use and is not given back.
record Kept (p : Pmm) (f : ℕ) (r : Pmm × List (ℕ × ℕ)) : Type 0 where
  valid : IsValid r.0
  total : r.0.total_frames ≡ p.total_frames
  base : r.0.base_addr ≡ p.base_addr
  used : is_free r.0.bitmap f ≡ false
  avoids : Avoids p f r.1

module _ (p : Pmm) (f : ℕ) (h : f < p.total_frames) (used : is_free p.bitmap f ≡ false) where
  Answer-Kept : (n : ℕ) (r : Pmm × Option ℕ) → Answer n p r → Kept p f (r.0, granted n r.1)
  Answer-Kept n (p', none) (v, same, count, frames, miss) = record {
    valid = v;
    total = same.total;
    base = same.base;
    used = frames f h ∙ used;
    avoids = tt;
  }
  Answer-Kept n (p', some addr) (v, same, (start, e, g, low)) = record {
    valid = v;
    total = same.total;
    base = same.base;
    used = ground (arith, g.after f h);
    avoids = (rw e apart, tt);
  }
    where
      apart :
          (leb (frame_addr p start + n * page_size) (frame_addr p f)
            || leb (frame_addr p f + page_size) (frame_addr p start))
          ≡ true
      apart = elim (Bool-cases (leb start f && ltb f (start + n))) [
        | inl inside ↦ cc (g.were_free f (ground arith) (ground arith), used)
        | inr outside ↦ ground arith
      ]

  step-Kept : (c : Call) → IsValid p → Spares p f (c ∷ []) → Kept p f (step c p)
  unfolding step alloc_contiguous
  step-Kept Call.one v s = Answer-Kept 1 (alloc_frame p) (alloc_frame_lem p v)
  step-Kept (Call.many n) v s = elim (Bool-cases (n == 0)) [
    | inl none_asked ↦ nothing n none_asked
    | inr some_asked ↦
        Answer-Kept n (alloc_contiguous n p) (alloc_contiguous_lem n p (ground arith) v)
  ]
    where
      nothing :
          (n : ℕ)
          → (n == 0) ≡ true
          → Kept p f ((alloc_contiguous n p).0, granted n (alloc_contiguous n p).1)
      nothing n e = rw e (record { valid = v; total = refl; base = refl; used = used; avoids = tt })
  step-Kept (Call.release addr) v s =
      let r = free_frame_lem addr p v in
      record {
        valid = r.valid;
        total = r.pool.total;
        base = r.pool.base;
        used = ground (arith, r.after f h, s.0);
        avoids = tt;
      }

Avoids-append :
    (p : Pmm) (f : ℕ) (gs hs : List (ℕ × ℕ)) → Avoids p f gs → Avoids p f hs → Avoids p f (gs ++ hs)
Avoids-append p f [] hs a b = b
Avoids-append p f (g ∷ gs) hs a b = (a.0, Avoids-append p f gs hs a.1 b)

-- What depends on the base address alone.
Spares-same :
    (p p' : Pmm) (f : ℕ) (cs : List Call)
    → p'.base_addr ≡ p.base_addr
    → Spares p f cs
    → Spares p' f cs
Spares-same p p' f [] e s = tt
Spares-same p p' f (Call.one ∷ cs) e s = Spares-same p p' f cs e s
Spares-same p p' f (Call.many n ∷ cs) e s = Spares-same p p' f cs e s
Spares-same p p' f (Call.release addr ∷ cs) e s = (rw e (s.0), Spares-same p p' f cs e s.1)

avoids_same :
    (p p' : Pmm) (f : ℕ) (gs : List (ℕ × ℕ))
    → p'.base_addr ≡ p.base_addr
    → Avoids p' f gs
    → Avoids p f gs
avoids_same p p' f [] e a = tt
avoids_same p p' f (g ∷ gs) e a = (rw (← e) (a.0), avoids_same p p' f gs e a.1)

Spares-first :
    (p : Pmm) (f : ℕ) (c : Call) (cs : List Call)
    → Spares p f (c ∷ cs)
    → Spares p f (c ∷ []) × Spares p f cs
Spares-first p f Call.one cs s = (tt, s)
Spares-first p f (Call.many n) cs s = (tt, s)
Spares-first p f (Call.release addr) cs s = ((s.0, tt), s.1)

-- A frame that is in use and is not given back stays in use through any calls, no allocation gives it out
-- again, and the count of free frames stays right.
pub run_exclusive :
    (p : Pmm) (f : ℕ) (calls : List Call)
    → IsValid p
    → f < p.total_frames
    → is_free p.bitmap f ≡ false
    → Spares p f calls
    → IsValid (run calls p).0
      × (is_free (run calls p).0.bitmap f ≡ false)
      × Avoids p f (run calls p).1
unfolding run
run_exclusive p f [] v h used s = (v, used, tt)
run_exclusive p f (c ∷ cs) v h used s =
    let (s1, s2) = Spares-first p f c cs s in
    let k = step-Kept p f h used c v s1 in
    let p1 = (step c p).0 in
    let (v', used', a) =
      run_exclusive p1 f cs k.valid (omega (arith, k.total)) k.used
        (Spares-same p p1 f cs k.base s2) in
    (
      v',
      used',
      Avoids-append p f (step c p).1 (run cs p1).1 k.avoids
          (avoids_same p p1 f (run cs p1).1 k.base a),
    )
