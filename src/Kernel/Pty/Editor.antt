-- ===== src/Kernel/Pty/Editor.antt =====
-- kernel/src/pty/mod.rs: an editor of lines, which says what canonical input makes of the bytes typed.
use dunit_os.Prelude.{
  ℕ, if◌then◌else◌, ◌≡◌, refl, sym, ap, ◌∙◌, Bool, false, ◌||◌, List, [], ◌∷◌, ◌++◌, contains, ◌==◌,
  arith, append_assoc, if-cases,
}
use dunit_os.Kernel.Pty.{pop_back, newline}

abbrev pub NoNewline : List ℕ → Type 0
NoNewline xs = contains xs newline ≡ false

-- A line has one newline, at its end.
abbrev pub IsLine : List ℕ → Type 0
IsLine l = (xs : List ℕ) × (l ≡ xs ++ newline ∷ []) × NoNewline xs

abbrev pub AllLines : List (List ℕ) → Type 0
AllLines [] = Unit
AllLines (l ∷ ls) = IsLine l × AllLines ls

-- The line editor of canonical input: it starts from a pending line, and erases, ends or extends it byte by byte.
abbrev pub erases : (erase b : ℕ) → Bool
erases erase b = b == erase || b == 0x08

abbrev pub edited : (erase : ℕ) → List ℕ → ℕ → List ℕ
edited erase pending b =
    if erases erase b then pop_back pending else if b == newline then [] else pending ++ (b ∷ [])

abbrev pub ended : (erase : ℕ) → List ℕ → ℕ → List (List ℕ)
ended erase pending b =
    if erases erase b then [] else if b == newline then (pending ++ (newline ∷ [])) ∷ [] else []

-- The lines that the bytes end, and the pending line that they leave.
abbrev pub lines_of : (erase : ℕ) → List ℕ → List ℕ → List (List ℕ)
lines_of erase pending [] = []
lines_of erase pending (b ∷ bytes) =
    ended erase pending b ++ lines_of erase (edited erase pending b) bytes

abbrev pub pending_of : (erase : ℕ) → List ℕ → List ℕ → List ℕ
pending_of erase pending [] = pending
pending_of erase pending (b ∷ bytes) = pending_of erase (edited erase pending b) bytes

abbrev pub concat : List (List ℕ) → List ℕ
concat [] = []
concat (l ∷ ls) = l ++ concat ls

contains-append :
    (xs ys : List ℕ) (a : ℕ) → contains (xs ++ ys) a ≡ (contains xs a || contains ys a)
contains-append [] ys a = refl
contains-append (x ∷ xs) ys a = ground (arith, contains-append xs ys a)

pop_back-NoNewline : (xs : List ℕ) → NoNewline xs → NoNewline (pop_back xs)
pop_back-NoNewline [] h = refl
pop_back-NoNewline (x ∷ []) h = refl
pop_back-NoNewline (x ∷ y ∷ ys) h = ground (arith, pop_back-NoNewline (y ∷ ys))

AllLines-append : (ls ms : List (List ℕ)) → AllLines ls → AllLines ms → AllLines (ls ++ ms)
AllLines-append [] ms a b = b
AllLines-append (l ∷ ls) ms a b = (a.0, AllLines-append ls ms a.1 b)

pub concat-append : (ls ms : List (List ℕ)) → concat (ls ++ ms) ≡ concat ls ++ concat ms
concat-append [] ms = refl
concat-append (l ∷ ls) ms =
    ap (λ xs. l ++ xs) (concat-append ls ms) ∙ sym (append_assoc l (concat ls) (concat ms))

edited-NoNewline :
    (erase : ℕ) (pending : List ℕ) (b : ℕ) → NoNewline pending → NoNewline (edited erase pending b)
edited-NoNewline erase pending b h =
    if-cases NoNewline (erases erase b) (λ _. pop_back-NoNewline pending h)
      (λ _.
        if-cases NoNewline (b == newline) (λ _. refl)
          (λ more. ground (arith, contains-append pending (b ∷ []) newline)))

ended-AllLines :
    (erase : ℕ) (pending : List ℕ) (b : ℕ) → NoNewline pending → AllLines (ended erase pending b)
ended-AllLines erase pending b h =
    if-cases AllLines (erases erase b) (λ _. tt)
      (λ _. if-cases AllLines (b == newline) (λ _. ((pending, refl, h), tt)) (λ _. tt))

pub lines_of-AllLines :
    (erase : ℕ) (pending bytes : List ℕ)
    → NoNewline pending
    → AllLines (lines_of erase pending bytes) × NoNewline (pending_of erase pending bytes)
lines_of-AllLines erase pending [] h = (tt, h)
lines_of-AllLines erase pending (b ∷ bytes) h =
    let rest =
      lines_of-AllLines erase (edited erase pending b) bytes (edited-NoNewline erase pending b h) in
    (AllLines-append (ended erase pending b) _ (ended-AllLines erase pending b h) rest.0, rest.1)
