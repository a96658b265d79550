-- ===== src/Kernel/Vfs/Appended.antt =====
-- kernel/src/fs/vfs.rs: the buffer follows the stack of components through the parts of a path.
use dunit_os.Prelude.{
  ℕ, ◌+◌, ◌≡◌, ◌≤◌, ◌<◌, refl, ap, subst, ◌∙◌, false, List, [], ◌∷◌, length, contains, is_empty,
  ltb, if◌then◌else◌, arith, ◌⊎◌, inl, inr, Bool-cases, length-append,
}
use dunit_os.Prelude.Results.{ok, err, ◌>>=◌, >>=-eq-ok}
use dunit_os.Kernel.Vfs.Path.{
  VfsError, slash, buffer_size, is_skipped, is_parent, append_part, append_parts,
}
use dunit_os.Kernel.Vfs.Components.{
  IsComponent, AllComponents, body, render, below, enter, walk, length-body, push_lem, pop_lem,
}

-- The bytes that parts may add.
unfoldable pub weight : List (List ℕ) → ℕ
weight [] = 0
weight (p ∷ ps) = (if is_skipped p then 0 else length p + 1) + weight ps

abbrev pub NoSlashes : List (List ℕ) → Type 0
NoSlashes [] = Unit
NoSlashes (p ∷ ps) = (contains p slash ≡ false) × NoSlashes ps

below-AllComponents : (stack : List (List ℕ)) → AllComponents stack → AllComponents (below stack)
below-AllComponents [] a = tt
below-AllComponents (p ∷ ps) a = a.1

length-below : (stack : List (List ℕ)) → length (body (below stack)) ≤ length (body stack)
unfolding body
length-below [] = omega arith
length-below (p ∷ ps) = omega (arith, length-body p ps)

-- One part: the buffer follows the stack, or has no room for one component more.
abbrev Entered : List ℕ → List (List ℕ) → Type 0
Entered p stack =
    ((append_part p (render stack) ≡ ok (render (enter p stack)))
      × AllComponents (enter p stack)
      × (length (render (enter p stack)) ≤ buffer_size))
    ⊎ ((append_part p (render stack) ≡ err VfsError.invalid_path)
        × (is_skipped p ≡ false)
        × (buffer_size < length (body stack) + (length p + 1)))

length-pushed :
    (p : List ℕ) (stack : List (List ℕ))
    → length (render (p ∷ stack))
      ≡ length (render stack) + (length p + (if is_empty stack then 0 else 1))
unfolding render body
length-pushed p [] = omega arith
length-pushed p (q ∷ qs) = omega (arith, length-append (body (q ∷ qs)) (slash ∷ p))

room_used :
    (p : List ℕ) (stack : List (List ℕ))
    → length (render stack) + (length p + (if is_empty stack then 0 else 1))
      ≡ length (body stack) + (length p + 1)
unfolding render body
room_used p [] = omega arith
room_used p (q ∷ qs) = refl

length-render-below :
    (stack : List (List ℕ)) → length (render (below stack)) ≤ length (render stack)
unfolding render
length-render-below [] = omega arith
length-render-below (p ∷ []) = omega (arith, length-body p [])
length-render-below (p ∷ q ∷ qs) = omega (arith, length-body p (q ∷ qs))

append_part-Entered :
    (p : List ℕ) (stack : List (List ℕ))
    → contains p slash ≡ false
    → AllComponents stack
    → length (render stack) ≤ buffer_size
    → Entered p stack
unfolding append_part enter
append_part-Entered p stack n a h = elim (Bool-cases (is_skipped p)) [
  | inl skip ↦ inl (rw skip refl, rw skip a, rw skip h)
  | inr keep ↦ elim (Bool-cases (is_parent p)) [
    | inl up ↦ inl (
      rw (keep, up) (ap ok (pop_lem stack a)),
      rw (keep, up) (below-AllComponents stack a),
      rw (keep, up) (omega (arith, length-render-below stack)),
    )
    | inr down ↦
        let c : IsComponent p = record { no_slash = n; kept = keep; no_parent = down } in
        let need : ℕ = length (render stack) + (length p + (if is_empty stack then 0 else 1)) in
        elim (Bool-cases (ltb buffer_size need)) [
          | inl full ↦ inr (
            rw (keep, down) (push_lem p stack a ∙ rw full refl),
            keep,
            ground (arith, room_used p stack),
          )
          | inr fits ↦ inl (
            rw (keep, down) (push_lem p stack a ∙ rw fits refl),
            rw (keep, down) (c, a),
            rw (keep, down) (ground (arith, length-pushed p stack)),
          )
        ]
  ]
]

-- What the buffer holds after a success.
pub record Walked (parts stack : List (List ℕ)) (out : List ℕ) : Type 0 where
  pub is_walk : out ≡ render (walk parts stack)
  pub components : AllComponents (walk parts stack)
  pub short : length out ≤ buffer_size

pub append_parts-Walked :
    (parts stack : List (List ℕ)) (out : List ℕ)
    → NoSlashes parts
    → AllComponents stack
    → length (render stack) ≤ buffer_size
    → append_parts parts (render stack) ≡ ok out
    → Walked parts stack out
unfolding append_parts walk
append_parts-Walked [] stack out n a h e = record {
  is_walk = cc;
  components = a;
  short = subst (λ (x : List ℕ). length x ≤ buffer_size) (cc) h;
}
append_parts-Walked (p ∷ ps) stack out n a h e =
    let (next, f, g) = >>=-eq-ok (append_part p (render stack)) (λ r. append_parts ps r) e in
    elim (append_part-Entered p stack (n.0) a h) [
      | inl (k, a', h') ↦
          let same : next ≡ render (enter p stack) = cc (f, k) in
          let w =
            append_parts-Walked ps (enter p stack) out n.1 a' h'
              (subst (λ r. append_parts ps r ≡ ok out) same g) in
          record { is_walk = w.is_walk; components = w.components; short = w.short }
      | inr (k, keep, full) ↦ absurd (cc (f, k))
    ]

body-enter :
    (p : List ℕ) (stack : List (List ℕ))
    → length (body (enter p stack))
      ≤ length (body stack) + (if is_skipped p then 0 else length p + 1)
unfolding enter
body-enter p stack = ground (arith, length-below stack, length-body p stack)

-- With room for all their bytes, the parts are appended.
pub append_parts-fits :
    (parts stack : List (List ℕ))
    → NoSlashes parts
    → AllComponents stack
    → length (render stack) ≤ buffer_size
    → length (body stack) + weight parts ≤ buffer_size
    → append_parts parts (render stack) ≡ ok (render (walk parts stack))
unfolding append_parts walk weight ◌>>=◌
append_parts-fits [] stack n a h w = refl
append_parts-fits (p ∷ ps) stack n a h w = elim (append_part-Entered p stack (n.0) a h) [
  | inl (k, a', h') ↦
      rw k (append_parts-fits ps (enter p stack) n.1 a' h' (omega (arith, body-enter p stack)))
  | inr (k, keep, full) ↦ absurd (omega (arith, full, rw keep at w))
]
