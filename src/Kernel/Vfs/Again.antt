-- ===== src/Kernel/Vfs/Again.antt =====
-- kernel/src/fs/vfs.rs: a second normalisation.
use dunit_os.Prelude.{
  ℕ, ◌+◌, ◌≡◌, ◌≤◌, refl, sym, ap, subst, ◌∙◌, true, false, List, [], ◌∷◌, ◌++◌, length, contains,
  is_empty, ◌==◌, arith, inl, inr, Bool-cases, if-cases,
}
use dunit_os.Prelude.Results.{ok, ◌>>=◌}
use dunit_os.Gui.Wire.Utf8.{is_utf8}
use dunit_os.Kernel.Vfs.Path.{
  slash, buffer_size, split, onto_first, starts_with_slash, append_parts, checked, normalize_path,
}
use dunit_os.Kernel.Vfs.Components.{
  IsComponent, AllComponents, body, render, enter, walk, length-body,
}
use dunit_os.Kernel.Vfs.Appended.{weight, append_parts-fits}
use dunit_os.Kernel.Vfs.Normal.{
  total, some_part, weight-le, total-split, parts_of, parts_of-NoSlashes, normalize_parts,
  normalize_path_lem,
}

walk-append : (ps qs stack : List (List ℕ)) → walk (ps ++ qs) stack ≡ walk qs (walk ps stack)
unfolding walk
walk-append [] qs stack = refl
walk-append (p ∷ ps) qs stack = walk-append ps qs (enter p stack)

weight-append : (ps qs : List (List ℕ)) → weight (ps ++ qs) ≡ weight ps + weight qs
unfolding weight
weight-append [] qs = omega arith
weight-append (p ∷ ps) qs = omega (arith, weight-append ps qs)

split-append : (xs ys : List ℕ) → split (xs ++ (slash ∷ ys)) ≡ split xs ++ split ys
unfolding split total
split-append [] ys = refl
split-append (b ∷ xs) ys = elim (Bool-cases (b == slash)) [
  | inl sep ↦ rw sep (ap (◌∷◌ []) (split-append xs ys))
  | inr other ↦ rw other (ap (onto_first b) (split-append xs ys) ∙ onto (split xs) (some_part xs))
]
  where
    onto :
        (ps : List (List ℕ))
        → 1 ≤ total ps
        → onto_first b (ps ++ split ys) ≡ onto_first b ps ++ split ys
    onto [] h = absurd (omega arith)
    onto (p ∷ ps) h = refl

split-component : (p : List ℕ) → contains p slash ≡ false → split p ≡ p ∷ []
unfolding split
split-component [] h = refl
split-component (b ∷ bs) h =
    let other : (b == slash) ≡ false = ground arith in
    rw other (ap (onto_first b) (split-component bs (ground arith)))

-- A rendered stack splits into parts that lead to it, and that weigh what it is long.
split-body :
    (stack : List (List ℕ))
    → AllComponents stack
    → (walk (split (body stack)) [] ≡ stack) × (weight (split (body stack)) ≡ length (body stack))
unfolding body split walk weight enter
split-body [] a = (refl, refl)
split-body (p ∷ ps) a =
    let (w, n) = split-body ps a.1 in
    let parts : split (body ps ++ (slash ∷ p)) ≡ split (body ps) ++ (p ∷ []) =
      split-append (body ps) p
      ∙ ap (λ q. split (body ps) ++ q) (split-component p (a.0.no_slash)) in
    rw parts (
      walk-append (split (body ps)) (p ∷ []) [] ∙ ap (enter p) w ∙ entered p ps a.0,
      weight-append (split (body ps)) (p ∷ [])
          ∙ omega (arith, n, length-body p ps, weight-one p a.0),
    )
  where
    entered : (p : List ℕ) (ps : List (List ℕ)) → IsComponent p → enter p ps ≡ p ∷ ps
    entered p ps c = rw (c.kept, c.no_parent) refl

    weight-one : (p : List ℕ) → IsComponent p → weight (p ∷ []) ≡ length p + 1
    weight-one p c = rw (c.kept) (omega arith)

body-starts :
    (p : List ℕ) (ps : List (List ℕ))
    → (starts_with_slash (body (p ∷ ps)) ≡ true) × (is_empty (body (p ∷ ps)) ≡ false)
unfolding body
body-starts p [] = (refl, refl)
body-starts p (q ∷ qs) = go (body (q ∷ qs)) (slash ∷ p) (body-starts q qs)
  where
    go :
        (xs ys : List ℕ)
        → (starts_with_slash xs ≡ true) × (is_empty xs ≡ false)
        → (starts_with_slash (xs ++ ys) ≡ true) × (is_empty (xs ++ ys) ≡ false)
    go [] ys h = cc (h.1)
    go (x ∷ xs) ys h = h

-- The parts of a rendered stack.
render-parts :
    (stack : List (List ℕ)) (cwd : List ℕ)
    → AllComponents stack
    → (walk (parts_of (render stack) cwd) [] ≡ stack)
      × (weight (parts_of (render stack) cwd) ≡ length (body stack))
unfolding render split walk weight enter body
render-parts [] cwd a = (refl, refl)
render-parts (p ∷ ps) cwd a = let (s, e) = body-starts p ps in rw (e, s) (split-body (p ∷ ps) a)

body-le : (stack : List (List ℕ)) → length (body stack) ≤ length (render stack)
unfolding render body
body-le [] = omega arith
body-le (p ∷ ps) = omega arith

checked-valid : (out : List ℕ) → is_utf8 out ≡ true → checked out ≡ ok out
checked-valid out h = rw h refl

root : (slash ∷ [] ≡ render []) × (length (render []) ≤ buffer_size) × (length (body []) ≡ 0)
unfolding render body
root = (refl, omega arith, refl)

-- With room for the parts, the answer is where they lead.
normalize_walk :
    (path cwd : List ℕ)
    → weight (parts_of path cwd) ≤ buffer_size
    → normalize_path path cwd ≡ checked (render (walk (parts_of path cwd) []))
unfolding ◌>>=◌
normalize_walk path cwd h =
    let parts : List (List ℕ) = parts_of path cwd in
    normalize_parts path cwd
    ∙ ap (λ r. append_parts parts r >>= λ out. checked out) root.0
    ∙ ap (λ r. r >>= λ out. checked out)
        (append_parts-fits parts [] (parts_of-NoSlashes path cwd) tt root.1
          (omega (arith, root.2, h)))

weight-split : (path : List ℕ) → weight (split path) ≤ length path + 1
weight-split path = omega (arith, weight-le (split path), total-split path)

weight-parts : (path cwd : List ℕ) → weight (parts_of path cwd) ≤ length path + length cwd + 2
weight-parts path cwd =
    if-cases (λ ps. weight ps ≤ length path + length cwd + 2) (is_empty path)
      (λ _. omega (arith, weight-split cwd))
      (λ _.
        if-cases (λ ps. weight ps ≤ length path + length cwd + 2) (starts_with_slash path)
          (λ _. omega (arith, weight-split path))
          (λ _.
            omega
              (arith, weight-split path, weight-split cwd, weight-append (split cwd) (split path))))

rendered_again :
    (stack : List (List ℕ)) (cwd : List ℕ)
    → AllComponents stack
    → length (render stack) ≤ buffer_size
    → is_utf8 (render stack) ≡ true
    → normalize_path (render stack) cwd ≡ ok (render stack)
rendered_again stack cwd a short valid =
    let (w, k) = render-parts stack cwd a in
    normalize_walk (render stack) cwd (omega (arith, k, body-le stack))
    ∙ ap (λ q. checked (render q)) w
    ∙ checked-valid (render stack) valid

-- A normalised path is its own normal form, from every working directory.
pub normalize_path_twice :
    (path cwd other out : List ℕ)
    → normalize_path path cwd ≡ ok out
    → normalize_path out other ≡ ok out
normalize_path_twice path cwd other out e =
    let stack : List (List ℕ) = walk (parts_of path cwd) [] in
    let n = normalize_path_lem path cwd out e in
    subst (λ x. normalize_path x other ≡ ok x) (sym n.rendered)
      (rendered_again stack other n.components
        (subst (λ (x : List ℕ). length x ≤ buffer_size) n.rendered n.short)
        (subst (λ x. is_utf8 x ≡ true) n.rendered n.utf8))

-- A path and a working directory that are short enough are normalised, to the path of the components that the parts
-- lead to, unless it is not UTF-8.
pub normalize_path_fits :
    (path cwd : List ℕ)
    → length path + length cwd + 2 ≤ buffer_size
    → normalize_path path cwd ≡ checked (render (walk (parts_of path cwd) []))
normalize_path_fits path cwd h = normalize_walk path cwd (omega (arith, h, weight-parts path cwd))
