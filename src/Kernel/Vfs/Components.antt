-- ===== src/Kernel/Vfs/Components.antt =====
-- kernel/src/fs/vfs.rs: a normalised path as a stack of components, and what the buffer makes of it.
use dunit_os.Prelude.{
  ℕ, zero, suc, ◌+◌, ◌-◌, ◌≡◌, ◌≤◌, ◌<◌, refl, ap, true, false, List, [], ◌∷◌, ◌++◌, length, take,
  get_or, contains, is_empty, ltb, leb, ◌==◌, if◌then◌else◌, arith, length-append,
}
use dunit_os.Prelude.Results.{ok, err}
use dunit_os.Kernel.Vfs.Path.{
  VfsError, slash, buffer_size, push_path_component, back, pop_path_component, is_skipped,
  is_parent,
}

-- A component is not empty, holds no slash, and is neither `.` nor `..`.
pub record IsComponent (p : List ℕ) : Type 0 where
  pub no_slash : contains p slash ≡ false
  pub kept : is_skipped p ≡ false
  pub no_parent : is_parent p ≡ false

abbrev pub AllComponents : List (List ℕ) → Type 0
AllComponents [] = Unit
AllComponents (p ∷ ps) = IsComponent p × AllComponents ps

-- A path from its components, the last one first.
unfoldable pub body : List (List ℕ) → List ℕ
body [] = []
body (p ∷ below) = body below ++ (slash ∷ p)

abbrev pub root_or : List ℕ → List ℕ
root_or [] = slash ∷ []
root_or (b ∷ bs) = b ∷ bs

unfoldable pub render : List (List ℕ) → List ℕ
unfolding body
render [] = slash ∷ []
render (p ∷ below) = body (p ∷ below)

abbrev pub below : List (List ℕ) → List (List ℕ)
below [] = []
below (p ∷ ps) = ps

-- What the parts of a path mean: `.` and nothing stay, `..` leaves the last component, if there is one.
unfoldable pub enter : List ℕ → List (List ℕ) → List (List ℕ)
enter part stack =
    if is_skipped part then stack else if is_parent part then below stack else part ∷ stack

unfoldable pub walk : List (List ℕ) → List (List ℕ) → List (List ℕ)
unfolding enter
walk [] stack = stack
walk (part ∷ parts) stack = walk parts (enter part stack)

pub length-body :
    (p : List ℕ) (ps : List (List ℕ)) → length (body (p ∷ ps)) ≡ length (body ps) + length p + 1
unfolding body
length-body p ps = omega (arith, length-append (body ps) (slash ∷ p))

pub component_length : (p : List ℕ) → IsComponent p → 1 ≤ length p
component_length [] c = cc (c.kept)
component_length (b ∷ bs) c = omega arith

pub push_lem :
    (p : List ℕ) (stack : List (List ℕ))
    → AllComponents stack
    → push_path_component p (render stack) ≡ (
        if ltb buffer_size (length (render stack) + (length p + (if is_empty stack then 0 else 1)))
        then err VfsError.invalid_path
        else ok (render (p ∷ stack)))
unfolding push_path_component render
push_lem p [] a = ground arith
push_lem p (q ∷ ps) a =
    let long : ltb 1 (length (body (q ∷ ps))) ≡ true =
      ground (arith, length-body q ps, component_length q a.0) in
    rw long refl

-- Behind a slash there is none in a component.
get_or-after :
    (pre p : List ℕ) (j : ℕ) → get_or (pre ++ (slash ∷ p)) (length pre + suc j) 0 ≡ get_or p j 0
get_or-after [] p j = let e : 0 + suc j ≡ suc j = omega arith in rw e refl
get_or-after (b ∷ pre) p j =
    let e : suc (length pre) + suc j ≡ suc (length pre + suc j) = omega arith in
    rw e (get_or-after pre p j)

get_or-no_slash :
    (p : List ℕ) (j : ℕ) → contains p slash ≡ false → j < length p → (get_or p j 0 == slash) ≡ false
get_or-no_slash [] j h l = absurd (omega arith)
get_or-no_slash (b ∷ bs) zero h l = ground arith
get_or-no_slash (b ∷ bs) (suc j) h l = ground (arith, get_or-no_slash bs j)

get_or-at : (pre p : List ℕ) → get_or (pre ++ (slash ∷ p)) (length pre) 0 ≡ slash
get_or-at [] p = refl
get_or-at (b ∷ pre) p = get_or-at pre p

back_at : (pre p : List ℕ) → back (length pre) (pre ++ (slash ∷ p)) ≡ length pre
unfolding back
back_at [] p = refl
back_at (b ∷ pre) p =
    let found : (get_or ((b ∷ pre) ++ (slash ∷ p)) (suc (length pre)) 0 == slash) ≡ true =
      rw (get_or-at (b ∷ pre) p) refl in
    rw found refl

-- The search from the end finds the last slash.
back_lem :
    (pre p : List ℕ) (j : ℕ)
    → contains p slash ≡ false
    → j ≤ length p
    → back (length pre + j) (pre ++ (slash ∷ p)) ≡ length pre
unfolding back
back_lem pre p zero h l = let e : length pre + 0 ≡ length pre = omega arith in rw e (back_at pre p)
back_lem pre p (suc j) h l =
    let e : length pre + suc j ≡ suc (length pre + j) = omega arith in
    let past : (get_or (pre ++ (slash ∷ p)) (suc (length pre + j)) 0 == slash) ≡ false =
      rw (← e) (rw (get_or-after pre p j) (get_or-no_slash p j h (omega arith))) in
    rw e (rw past (back_lem pre p j h (omega arith)))

take_front : (xs ys : List ℕ) → take (length xs) (xs ++ ys) ≡ xs
take_front [] ys = refl
take_front (x ∷ xs) ys = ap (◌∷◌ x) (take_front xs ys)

pub pop_lem :
    (stack : List (List ℕ))
    → AllComponents stack
    → pop_path_component (render stack) ≡ render (below stack)
unfolding pop_path_component render body
pop_lem [] a = refl
pop_lem (p ∷ ps) a =
    let out : List ℕ = body ps ++ (slash ∷ p) in
    let last : length out - 1 ≡ length (body ps) + length p =
      omega (arith, length-append (body ps) (slash ∷ p)) in
    let more : leb (length out) 1 ≡ false =
      ground (arith, length-append (body ps) (slash ∷ p), component_length p a.0) in
    let found = back_lem (body ps) p (length p) (a.0.no_slash) (omega arith) in
    rw (more, last, found) (kept ps a.1)
  where
    kept :
        (ps : List (List ℕ))
        → AllComponents ps
        → take (if length (body ps) == 0 then 1 else length (body ps)) (body ps ++ (slash ∷ p))
          ≡ render ps
    kept [] b = refl
    kept (q ∷ qs) b =
        let some : (length (body (q ∷ qs)) == 0) ≡ false = ground (arith, length-body q qs) in
        rw some (take_front (body (q ∷ qs)) (slash ∷ p))
