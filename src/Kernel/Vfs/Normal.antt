-- ===== src/Kernel/Vfs/Normal.antt =====
-- kernel/src/fs/vfs.rs: what `normalize_path` answers.
use dunit_os.Prelude.{
  ℕ, ◌+◌, ◌≡◌, ◌≤◌, refl, sym, ap, subst, ◌∙◌, true, false, List, [], ◌∷◌, ◌++◌, length, is_empty,
  ◌==◌, if◌then◌else◌, arith, inl, inr, Bool-cases, if-cases,
}
use dunit_os.Prelude.Results.{Result, ok, err, ◌>>=◌, >>=-eq-ok}
use dunit_os.Gui.Wire.Utf8.{is_utf8}
use dunit_os.Kernel.Vfs.Path.{
  VfsError, slash, buffer_size, split, onto_first, starts_with_slash, append_part, append_parts,
  append_path_components, checked, normalize_path,
}
use dunit_os.Kernel.Vfs.Components.{AllComponents, render, walk}
use dunit_os.Kernel.Vfs.Appended.{weight, NoSlashes, append_parts-Walked}

split-NoSlashes : (path : List ℕ) → NoSlashes (split path)
unfolding split
split-NoSlashes [] = (refl, tt)
split-NoSlashes (b ∷ bs) = elim (Bool-cases (b == slash)) [
  | inl sep ↦ rw sep (refl, split-NoSlashes bs)
  | inr other ↦ rw other (first (split bs) other (split-NoSlashes bs))
]
  where
    first :
        (parts : List (List ℕ))
        → (b == slash) ≡ false
        → NoSlashes parts
        → NoSlashes (onto_first b parts)
    first [] e n = (rw e refl, tt)
    first (p ∷ ps) e n = (rw e n.0, n.1)

unfoldable pub total : List (List ℕ) → ℕ
total [] = 0
total (p ∷ ps) = (length p + 1) + total ps

pub weight-le : (parts : List (List ℕ)) → weight parts ≤ total parts
unfolding weight total
weight-le [] = omega arith
weight-le (p ∷ ps) = ground (arith, weight-le ps)

pub some_part : (path : List ℕ) → 1 ≤ total (split path)
unfolding split total
some_part [] = omega arith
some_part (b ∷ bs) =
    if-cases (λ parts. 1 ≤ total parts) (b == slash) (λ _. omega arith) (λ _. first (split bs))
  where
    first : (parts : List (List ℕ)) → 1 ≤ total (onto_first b parts)
    first [] = omega arith
    first (p ∷ ps) = omega arith

pub total-split : (path : List ℕ) → total (split path) ≡ length path + 1
unfolding split total
total-split [] = omega arith
total-split (b ∷ bs) = elim (Bool-cases (b == slash)) [
  | inl sep ↦ rw sep (omega (arith, total-split bs))
  | inr other ↦ rw other (omega (arith, split-onto bs, total-split bs))
]
  where
    onto : (parts : List (List ℕ)) → 1 ≤ total parts → total (onto_first b parts) ≡ total parts + 1
    onto [] h = absurd (omega arith)
    onto (p ∷ ps) h = omega arith

    split-onto : (cs : List ℕ) → total (onto_first b (split cs)) ≡ total (split cs) + 1
    split-onto cs = onto (split cs) (some_part cs)

-- The parts that a path means, from a working directory.
abbrev pub parts_of : (path cwd : List ℕ) → List (List ℕ)
parts_of path cwd =
    if is_empty path
    then split cwd
    else if starts_with_slash path
    then split path
    else split cwd ++ split path

append-parts-append :
    (ps qs : List (List ℕ)) (out : List ℕ)
    → append_parts (ps ++ qs) out ≡ (append_parts ps out >>= λ next. append_parts qs next)
unfolding append_parts ◌>>=◌
append-parts-append [] qs out = refl
append-parts-append (p ∷ ps) qs out =
    go (append_part p out) (λ next. append-parts-append ps qs next)
  where
    go :
        (r : Result VfsError (List ℕ))
        → ((next : List ℕ)
            → append_parts (ps ++ qs) next ≡ (append_parts ps next >>= λ n. append_parts qs n))
        → (r >>= λ next. append_parts (ps ++ qs) next)
          ≡ ((r >>= λ next. append_parts ps next) >>= λ next. append_parts qs next)
    go (ok next) ih = ih next
    go (err x) ih = refl

NoSlashes-append : (ps qs : List (List ℕ)) → NoSlashes ps → NoSlashes qs → NoSlashes (ps ++ qs)
NoSlashes-append [] qs a b = b
NoSlashes-append (p ∷ ps) qs a b = (a.0, NoSlashes-append ps qs a.1 b)

pub parts_of-NoSlashes : (path cwd : List ℕ) → NoSlashes (parts_of path cwd)
parts_of-NoSlashes path cwd =
    if-cases NoSlashes (is_empty path) (λ _. split-NoSlashes cwd)
      (λ _.
        if-cases NoSlashes (starts_with_slash path) (λ _. split-NoSlashes path)
          (λ _.
            NoSlashes-append (split cwd) (split path) (split-NoSlashes cwd) (split-NoSlashes path)))

-- The three cases of the code are one walk over the parts.
pub normalize_parts :
    (path cwd : List ℕ)
    → normalize_path path cwd
      ≡ (append_parts (parts_of path cwd) (slash ∷ []) >>= λ out. checked out)
unfolding normalize_path append_path_components
normalize_parts path cwd = elim (Bool-cases (is_empty path)) [
  | inl none_given ↦ rw none_given refl
  | inr given ↦ elim (Bool-cases (starts_with_slash path)) [
    | inl absolute ↦ rw (given, absolute) refl
    | inr relative ↦
        rw (given, relative)
          (ap (λ r. r >>= λ out. checked out)
            (sym (append-parts-append (split cwd) (split path) (slash ∷ []))))
  ]
]

-- A normalised path is its components behind slashes, none of them empty, `.`, `..` or with a slash in it.
pub record IsNormal (path : List ℕ) (stack : List (List ℕ)) : Type 0 where
  pub rendered : path ≡ render stack
  pub components : AllComponents stack
  pub short : length path ≤ buffer_size
  pub utf8 : is_utf8 path ≡ true

checked-eq-ok : (o out : List ℕ) → checked o ≡ ok out → (out ≡ o) × (is_utf8 out ≡ true)
checked-eq-ok o out g = elim (Bool-cases (is_utf8 o)) [
  | inl valid ↦
      let same : o ≡ out = cc (rw valid at g) in
      (sym same, subst (λ x. is_utf8 x ≡ true) same valid)
  | inr invalid ↦ absurd (cc (rw invalid at g))
]

-- When a path is normalised, the answer is the path of the components that its parts lead to from the root, in
-- which no component is empty, `.`, `..` or has a slash; it has at most 256 bytes.
pub normalize_path_lem :
    (path cwd out : List ℕ)
    → normalize_path path cwd ≡ ok out
    → IsNormal out (walk (parts_of path cwd) [])
unfolding render
normalize_path_lem path cwd out e =
    let parts : List (List ℕ) = parts_of path cwd in
    let (o, f, g) =
      >>=-eq-ok (append_parts parts (slash ∷ [])) (λ o. checked o)
        (sym (normalize_parts path cwd) ∙ e) in
    let w = append_parts-Walked parts [] o (parts_of-NoSlashes path cwd) tt (omega arith) f in
    let (same, valid) = checked-eq-ok o out g in
    record {
      rendered = same ∙ w.is_walk;
      components = w.components;
      short = subst (λ (x : List ℕ). length x ≤ buffer_size) (sym same) w.short;
      utf8 = valid;
    }
