-- ===== src/Kernel/Vfs/Descriptors.antt =====
-- kernel/src/fs/vfs.rs: how many processes share a descriptor, and when its handle is closed.
use dunit_os.Prelude.{
  ℕ, ◌+◌, ◌-◌, ◌^◌, ◌≡◌, ◌≤◌, refl, sym, subst, ◌∙◌, min, true, false, List, [], ◌∷◌, ◌++◌, Option,
  none, some, ltb, ◌==◌, if◌then◌else◌, arith, inl, inr, Bool-cases, Option-cases, ==→≡,
}
use dunit_os.Prelude.Table.{lookup, lookup-insert, lookup-remove}
use dunit_os.Kernel.Vfs
use dunit_os.Kernel.Vfs.{VirtualFileSystem, OpenFile, retain_found, close_found}

pub data Call : Type 0 where
  retain : ℕ → Call
  close : ℕ → Call

-- The state after a call, and the dropped files with their descriptors.
abbrev pub tagged : ℕ → List OpenFile → List (ℕ × OpenFile)
tagged fd [] = []
tagged fd (f ∷ fs) = (fd, f) ∷ tagged fd fs

unfoldable pub step : Call → VirtualFileSystem → VirtualFileSystem × List (ℕ × OpenFile)
step (Call.retain fd) vfs = ((Vfs.retain fd vfs).0, [])
step (Call.close fd) vfs = let r = Vfs.close fd vfs in (r.0, tagged fd r.2)

unfoldable pub run : List Call → VirtualFileSystem → VirtualFileSystem × List (ℕ × OpenFile)
unfolding step
run [] vfs = (vfs, [])
run (c ∷ cs) vfs =
    let (vfs1, out) = step c vfs in let (vfs2, more) = run cs vfs1 in (vfs2, out ++ more)

-- The holders of a descriptor, counted from its calls alone: 0 once the last one has closed it.
unfoldable pub holders : ℕ → List Call → ℕ → ℕ
holders fd [] n = n
holders fd (Call.retain g ∷ cs) n =
    holders fd cs (if g == fd then (if n == 0 then 0 else min (n + 1) (2 ^ 32 - 1)) else n)
holders fd (Call.close g ∷ cs) n = holders fd cs (if g == fd then n - 1 else n)

-- What is open at a descriptor with so many holders.
abbrev pub shared : OpenFile → ℕ → Option OpenFile
shared f n = if n == 0 then none else some (record f { refs = n })

-- The files that a run dropped at a descriptor.
abbrev pub drops_at : ℕ → List (ℕ × OpenFile) → ℕ
drops_at fd [] = 0
drops_at fd ((g, f) ∷ out) = (if g == fd then 1 else 0) + drops_at fd out

drops_at-append :
    (fd : ℕ) (xs ys : List (ℕ × OpenFile))
    → drops_at fd (xs ++ ys) ≡ drops_at fd xs + drops_at fd ys
drops_at-append fd [] ys = omega arith
drops_at-append fd (x ∷ xs) ys = omega (arith, drops_at-append fd xs ys)

-- What one call makes of a descriptor: one holder more or less, and a drop with the last one.
abbrev Follows : ℕ → OpenFile → (n m : ℕ) → VirtualFileSystem × List (ℕ × OpenFile) → Type 0
Follows fd f n m (vfs, out) =
    (lookup fd vfs.open_files ≡ shared f m)
    × ((if m == 0 then 1 else 0) ≡ (if n == 0 then 1 else 0) + drops_at fd out)

module _ (fd : ℕ) (f : OpenFile) (n : ℕ) (vfs : VirtualFileSystem)
    (h : lookup fd vfs.open_files ≡ shared f n) where
  retain_own :
      Follows fd f n (if n == 0 then 0 else min (n + 1) (2 ^ 32 - 1)) ((Vfs.retain fd vfs).0, [])
  unfolding Vfs.retain
  retain_own = elim (Bool-cases (n == 0)) [
    | inl gone ↦ rw (h, gone) (h ∙ rw gone refl, refl)
    | inr held ↦
        let more : (min (n + 1) (2 ^ 32 - 1) == 0) ≡ false = ground arith in
        rw (h, held)
          (
            ground (
              arith,
              more,
              lookup-insert fd fd (record f { refs = min (n + 1) (2 ^ 32 - 1) }) vfs.open_files,
            ),
            rw more refl,
          )
  ]

  close_own : Follows fd f n (n - 1) ((Vfs.close fd vfs).0, tagged fd (Vfs.close fd vfs).2)
  unfolding Vfs.close
  close_own = elim (Bool-cases (n == 0)) [
    | inl gone ↦
        let z : (n - 1 == 0) ≡ true = ground arith in rw (h, gone, z) (h ∙ rw gone refl, refl)
    | inr held ↦ elim (Bool-cases (ltb 1 n)) [
      | inl others ↦
          let s : (n - 1 == 0) ≡ false = ground arith in
          rw (h, held, others, s)
            (ground (arith, lookup-insert fd fd (record f { refs = n - 1 }) vfs.open_files), refl)
      | inr last ↦
          let z : (n - 1 == 0) ≡ true = ground arith in
          rw (h, held, last, z) (ground (arith, lookup-remove fd fd vfs.open_files), ground arith)
    ]
  ]

  retain_other : (g : ℕ) → (g == fd) ≡ false → Follows fd f n n ((Vfs.retain g vfs).0, [])
  unfolding Vfs.retain
  retain_other g ne = elim (Option-cases (lookup g vfs.open_files)) [
    | inl none_open ↦ rw none_open (h, omega arith)
    | inr (k, open_at) ↦ rw open_at (
      ground (
        arith,
        h,
        lookup-insert g fd (record k { refs = min (k.refs + 1) (2 ^ 32 - 1) }) vfs.open_files,
      ),
      omega arith,
    )
  ]

  close_other :
      (g : ℕ)
      → (g == fd) ≡ false
      → Follows fd f n n ((Vfs.close g vfs).0, tagged g (Vfs.close g vfs).2)
  unfolding Vfs.close
  close_other g ne = elim (Option-cases (lookup g vfs.open_files)) [
    | inl none_open ↦ rw none_open (h, omega arith)
    | inr (k, open_at) ↦ elim (Bool-cases (ltb 1 k.refs)) [
      | inl others ↦
          rw (open_at, others)
            (
              ground (arith, h, lookup-insert g fd (record k { refs = k.refs - 1 }) vfs.open_files),
              omega arith,
            )
      | inr last ↦
          rw (open_at, last)
            (ground (arith, h, lookup-remove g fd vfs.open_files), rw ne (omega arith))
    ]
  ]

step-Follows :
    (fd : ℕ) (f : OpenFile) (n : ℕ) (vfs : VirtualFileSystem) (c : Call)
    → lookup fd vfs.open_files ≡ shared f n
    → Follows fd f n (holders fd (c ∷ []) n) (step c vfs)
unfolding step holders
step-Follows fd f n vfs (Call.retain g) h = elim (Bool-cases (g == fd)) [
  | inl own ↦ rw own (
      subst
        (λ k.
          Follows fd f n (if n == 0 then 0 else min (n + 1) (2 ^ 32 - 1))
            ((Vfs.retain k vfs).0, []))
        (sym (==→≡ g fd own)) (retain_own fd f n vfs h))
  | inr ne ↦ rw ne (retain_other fd f n vfs h g ne)
]
step-Follows fd f n vfs (Call.close g) h = elim (Bool-cases (g == fd)) [
  | inl own ↦ rw own (
      subst (λ k. Follows fd f n (n - 1) ((Vfs.close k vfs).0, tagged k (Vfs.close k vfs).2))
        (sym (==→≡ g fd own)) (close_own fd f n vfs h))
  | inr ne ↦ rw ne (close_other fd f n vfs h g ne)
]

holders-cons :
    (fd : ℕ) (c : Call) (cs : List Call) (n : ℕ)
    → holders fd (c ∷ cs) n ≡ holders fd cs (holders fd (c ∷ []) n)
unfolding holders
holders-cons fd (Call.retain g) cs n = refl
holders-cons fd (Call.close g) cs n = refl

run-Follows :
    (fd : ℕ) (f : OpenFile) (n : ℕ) (vfs : VirtualFileSystem) (calls : List Call)
    → lookup fd vfs.open_files ≡ shared f n
    → Follows fd f n (holders fd calls n) (run calls vfs)
unfolding run holders
run-Follows fd f n vfs [] h = (h, omega arith)
run-Follows fd f n vfs (c ∷ cs) h =
    let (h1, d1) = step-Follows fd f n vfs c h in
    let (h2, d2) = run-Follows fd f (holders fd (c ∷ []) n) (step c vfs).0 cs h1 in
    rw (holders-cons fd c cs n)
      (h2, omega (arith, d1, d2, drops_at-append fd (step c vfs).1 (run cs (step c vfs).0).1))

-- An open file stays open, at its handle, as long as it has holders, counted by its retains and closes, and is
-- dropped once, when there are none, whatever is called on other descriptors.
pub run_shared :
    (fd : ℕ) (f : OpenFile) (vfs : VirtualFileSystem) (calls : List Call)
    → lookup fd vfs.open_files ≡ some f
    → 1 ≤ f.refs
    → (lookup fd (run calls vfs).0.open_files ≡ shared f (holders fd calls f.refs))
      × (drops_at fd (run calls vfs).1 ≡ (if holders fd calls f.refs == 0 then 1 else 0))
run_shared fd f vfs calls h one =
    let held : (f.refs == 0) ≡ false = ground arith in
    let (a, b) = run-Follows fd f f.refs vfs calls (h ∙ rw held refl) in
    (a, ground (arith, b, held))
