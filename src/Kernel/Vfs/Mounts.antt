-- ===== src/Kernel/Vfs/Mounts.antt =====
-- kernel/src/fs/vfs.rs: which file system a path leads to.
use dunit_os.Prelude.{
  ℕ, ◌≡◌, ◌≤◌, ◌⊎◌, inl, inr, refl, sym, ap, subst, ◌∙◌, Bool, true, false, ◌&&◌, ◌||◌, List, [],
  ◌∷◌, ◌++◌, length, drop, Option, none, some, arith, append-nil, ltb→lt, Bool-cases,
}
use dunit_os.Prelude.Results.{ok, ok_or, >>=-eq-ok}
use dunit_os.Kernel.Vfs.Path.{VfsError, str_eq, starts_with_slash, normalize_path}
use dunit_os.Kernel.Vfs.{
  MountPoint, VirtualFileSystem, starts_with, is_at, is_longer, select, trim_start, relative_to,
  resolve_path,
}

-- A path at a mount point or below it: the mount point's path, and nothing or a slash behind it.
abbrev pub LiesAt : List ℕ → MountPoint → List ℕ → Type 0
LiesAt normalized m rest =
    (normalized ≡ m.path ++ rest) × ((rest ≡ []) ⊎ (starts_with_slash rest ≡ true))

str_eq_lem : (xs ys : List ℕ) → str_eq xs ys ≡ true → xs ≡ ys
unfolding str_eq
str_eq_lem [] [] h = refl
str_eq_lem [] (y ∷ ys) h = cc
str_eq_lem (x ∷ xs) [] h = cc
str_eq_lem (x ∷ xs) (y ∷ ys) h = ground (arith, str_eq_lem xs ys)

starts_with_lem : (xs ps : List ℕ) → starts_with xs ps ≡ true → xs ≡ ps ++ drop (length ps) xs
unfolding starts_with
starts_with_lem xs [] h = refl
starts_with_lem [] (p ∷ ps) h = cc
starts_with_lem (x ∷ xs) (p ∷ ps) h = ground (arith, starts_with_lem xs ps)

drop_all_self : (xs : List ℕ) → drop (length xs) xs ≡ []
drop_all_self [] = refl
drop_all_self (x ∷ xs) = drop_all_self xs

is_at_lem :
    (normalized : List ℕ) (m : MountPoint)
    → is_at normalized m ≡ true
    → LiesAt normalized m (drop (length m.path) normalized)
unfolding is_at
is_at_lem normalized m h = elim (Bool-cases (str_eq normalized m.path)) [
  | inl exact ↦
      let e = str_eq_lem normalized m.path exact in
      let none_left : drop (length m.path) normalized ≡ [] =
        ap (drop (length m.path)) e ∙ drop_all_self m.path in
      (e ∙ sym (append-nil m.path) ∙ ap (λ r. m.path ++ r) (sym none_left), inl none_left)
  | inr child ↦ (ground (arith, starts_with_lem normalized m.path), inr (ground arith))
]

str_eq_self : (xs : List ℕ) → str_eq xs xs ≡ true
unfolding str_eq
str_eq_self [] = refl
str_eq_self (x ∷ xs) = ground (arith, str_eq_self xs)

starts_with-append : (ps rest : List ℕ) → starts_with (ps ++ rest) ps ≡ true
unfolding starts_with
starts_with-append [] rest = refl
starts_with-append (p ∷ ps) rest = ground (arith, starts_with-append ps rest)

drop-append : (ps rest : List ℕ) → drop (length ps) (ps ++ rest) ≡ rest
drop-append [] rest = refl
drop-append (p ∷ ps) rest = drop-append ps rest

LiesAt-is_at :
    (normalized rest : List ℕ) (m : MountPoint)
    → LiesAt normalized m rest
    → is_at normalized m ≡ true
unfolding is_at
LiesAt-is_at normalized rest m (e, inl nothing) =
    let same : normalized ≡ m.path = e ∙ ap (λ r. m.path ++ r) nothing ∙ append-nil m.path in
    rw same (rw (str_eq_self m.path) refl)
LiesAt-is_at normalized rest m (e, inr below) =
    rw e (rw (starts_with-append m.path rest, drop-append m.path rest, below) (or_true _))
  where
    or_true : (b : Bool) → (b || true) ≡ true
    or_true true = refl
    or_true false = refl

abbrev pub In : MountPoint → List MountPoint → Type 0
In m [] = ⊥
In m (n ∷ ns) = (n ≡ m) ⊎ In m ns

-- The longest of the mount points that a path lies at.
pub record Longest (normalized : List ℕ) (mounts : List MountPoint) (m : MountPoint) : Type 0 where
  pub mounted : In m mounts
  pub at : is_at normalized m ≡ true
  pub longest :
      (n : MountPoint) → In n mounts → is_at normalized n ≡ true → length n.path ≤ length m.path

-- What a search that began with `selected` chose.
abbrev Chosen : List ℕ → List MountPoint → Option MountPoint → Option MountPoint → Type 0
Chosen normalized mounts selected none =
    (selected ≡ none) × ((n : MountPoint) → In n mounts → is_at normalized n ≡ false)
Chosen normalized mounts selected (some m) =
    (In m mounts ⊎ (selected ≡ some m))
    × (is_at normalized m ≡ true)
    × ((n : MountPoint) → In n mounts → is_at normalized n ≡ true → length n.path ≤ length m.path)
    × ((c : MountPoint) → selected ≡ some c → length c.path ≤ length m.path)

module _ (normalized : List ℕ) (m : MountPoint) (mounts : List MountPoint) where
  -- The search goes on with `m` instead.
  replaced :
      (selected r : Option MountPoint)
      → is_at normalized m ≡ true
      → is_longer m selected ≡ true
      → Chosen normalized mounts (some m) r
      → Chosen normalized (m ∷ mounts) selected r
  replaced selected none at longer c = absurd (cc (c.0))
  replaced selected (some k) at longer (i, a, best, mine) = (
    inl (elim i [ inl j ↦ inr j | inr e ↦ inl (cc e) ]),
    a,
    λ n j b. elim j [
      | inl e ↦ subst (λ (x : MountPoint). length x.path ≤ length k.path) e (mine m refl)
      | inr l ↦ best n l b
    ],
    shorter selected longer,
  )
    where
      shorter :
          (s : Option MountPoint)
          → is_longer m s ≡ true
          → (c : MountPoint) → s ≡ some c
          → length c.path ≤ length k.path
      shorter none h c e = absurd (cc e)
      shorter (some d) h c e =
          let e' : d ≡ c = cc e in
          subst (λ (x : MountPoint). length x.path ≤ length k.path) e'
            (omega (arith, mine m refl, ltb→lt (length d.path) (length m.path) h))

  -- The search goes on with what was selected before.
  passed :
      (selected r : Option MountPoint)
      → (is_at normalized m && is_longer m selected) ≡ false
      → Chosen normalized mounts selected r
      → Chosen normalized (m ∷ mounts) selected r
  passed none none skip (e, others) = (
    e,
    λ n j. elim j [
      | inl same ↦ subst (λ x. is_at normalized x ≡ false) same (ground (arith, skip))
      | inr l ↦ others n l
    ],
  )
  passed (some d) none skip (e, others) = absurd (cc e)
  passed none (some k) skip (i, a, best, mine) = (
    elim i [ inl j ↦ inl (inr j) | inr e ↦ inr e ],
    a,
    λ n j b. elim j [
      | inl same ↦ absurd (cc (subst (λ x. is_at normalized x ≡ true) (sym same) b, not_at))
      | inr l ↦ best n l b
    ],
    mine,
  )
    where
      not_at : is_at normalized m ≡ false
      not_at = ground (arith, skip)
  passed (some d) (some k) skip (i, a, best, mine) = (
    elim i [ inl j ↦ inl (inr j) | inr e ↦ inr e ],
    a,
    λ n j b. elim j [
      | inl same ↦
          subst (λ (x : MountPoint). length x.path ≤ length k.path) same
            (ground (arith, skip, mine d refl, subst (λ x. is_at normalized x ≡ true) (sym same) b))
      | inr l ↦ best n l b
    ],
    mine,
  )

select-Chosen :
    (normalized : List ℕ) (mounts : List MountPoint) (selected : Option MountPoint)
    → ((c : MountPoint) → selected ≡ some c → is_at normalized c ≡ true)
    → Chosen normalized mounts selected (select normalized mounts selected)
unfolding select
select-Chosen normalized [] none h = (refl, λ n i. absurd i)
select-Chosen normalized [] (some c) h = (
  inr refl,
  h c refl,
  λ n i. absurd i,
  λ d e.
      let e' : c ≡ d = cc e in
      subst (λ (x : MountPoint). length x.path ≤ length c.path) e' (omega arith),
)
select-Chosen normalized (m ∷ mounts) selected h =
    elim (Bool-cases (is_at normalized m && is_longer m selected)) [
      | inl better ↦
          let at : is_at normalized m ≡ true = ground (arith, better) in
          rw better (
            replaced normalized m mounts selected (select normalized mounts (some m)) at
              (ground (arith, better))
              (select-Chosen normalized mounts (some m)
                (λ c e. let e' : m ≡ c = cc e in subst (λ x. is_at normalized x ≡ true) e' at)))
      | inr worse ↦ rw worse (
          passed normalized m mounts selected (select normalized mounts selected) worse
            (select-Chosen normalized mounts selected h))
    ]

ok_or-eq-ok : (o : Option ℕ) {a : ℕ} → ok_or o VfsError.not_found ≡ ok a → o ≡ some a
ok_or-eq-ok none h = absurd (cc h)
ok_or-eq-ok (some b) h = cc h

-- Where a path leads: to the longest mount point that it lies at, with what is behind it, or, with no such
-- mount point, to the root file system.
abbrev pub Leads : List ℕ → VirtualFileSystem → ℕ → List ℕ → Type 0
Leads normalized vfs fs relative =
    ((m : MountPoint) × (rest : List ℕ) × Longest normalized vfs.mounts m
      × LiesAt normalized m rest
      × (fs ≡ m.fs)
      × (relative ≡ trim_start rest))
    ⊎ (((n : MountPoint) → In n vfs.mounts → is_at normalized n ≡ false)
        × (vfs.root_fs ≡ some fs)
        × (relative ≡ trim_start normalized))

-- A path that is resolved leads, once it is normalised, to the longest mount point that it lies at, and else to the
-- root file system, under what is behind the mount point without its leading slashes.
pub resolve_path_lem :
    (path cwd : List ℕ) (vfs : VirtualFileSystem) (fs : ℕ) (relative : List ℕ)
    → resolve_path path cwd vfs ≡ ok (fs, relative)
    → (normalized : List ℕ) × (normalize_path path cwd ≡ ok normalized)
      × Leads normalized vfs fs relative
unfolding resolve_path
resolve_path_lem path cwd vfs fs relative e =
    let (normalized, f, g) =
      >>=-eq-ok (normalize_path path cwd)
        (λ n. relative_to n vfs.root_fs (select n vfs.mounts none)) e in
    (
      normalized,
      f,
      go normalized (select normalized vfs.mounts none)
          (select-Chosen normalized vfs.mounts none (λ c k. absurd (cc k))) g,
    )
  where
    go :
        (normalized : List ℕ) (r : Option MountPoint)
        → Chosen normalized vfs.mounts none r
        → relative_to normalized vfs.root_fs r ≡ ok (fs, relative)
        → Leads normalized vfs fs relative
    go normalized none (k, others) g =
        let (root, a, b) =
          >>=-eq-ok (ok_or vfs.root_fs VfsError.not_found) (λ x. ok (x, trim_start normalized)) g in
        let same : root ≡ fs = cc b in inr (others, ok_or-eq-ok vfs.root_fs a ∙ ap some same, cc b)
    go normalized (some m) (i, at, best, mine) g = inl (
      m,
      drop (length m.path) normalized,
      record { mounted = elim i [ inl j ↦ j | inr k ↦ absurd (cc k) ]; at = at; longest = best },
      is_at_lem normalized m at,
      cc g,
      cc g,
    )
