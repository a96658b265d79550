-- ===== src/Prelude/Results.antt =====
-- `Result<T, E>`, its early return `?` as a bind, and the inversion of a successful bind.
use mathlib.Core.Path.{◌≡◌, refl, subst}
use mathlib.Core.Bool.{Bool, true, false}
use mathlib.Core.Option.{Option, none, some}
use dunit_os.Prelude.Tests.{if◌then◌else◌}

pub data Result {ℓ κ} (E : Type ℓ) (A : Type κ) : Type (ℓ ⊔ κ) where
  ok : A → Result E A
  err : E → Result E A

infixl 5 ◌>>=◌ ◌>>◌
unfoldable pub ◌>>=◌ {ℓ κ μ} :
    {E : Type ℓ} {A : Type κ} {B : Type μ} → Result E A → (A → Result E B) → Result E B
ok a >>= f = f a
err e >>= f = err e

unfoldable pub ◌>>◌ {ℓ μ} :
    {E : Type ℓ} {B : Type μ} → Result E (Unit {0}) → Result E B → Result E B
unfolding ◌>>=◌
m >> k = m >>= λ _. k

-- An `if cond { return Err(e) }`.
abbrev pub reject {ℓ} : {E : Type ℓ} → Bool → E → Result E (Unit {0})
reject true e = err e
reject false e = ok tt

abbrev pub ok_or {ℓ κ} : {E : Type ℓ} {A : Type κ} → Option A → E → Result E A
ok_or none e = err e
ok_or (some a) e = ok a

abbrev pub is_ok {ℓ κ} : {E : Type ℓ} {A : Type κ} → Result E A → Bool
is_ok (ok a) = true
is_ok (err e) = false

pub >>=-eq-ok {ℓ κ μ} :
    {E : Type ℓ} {A : Type κ} {B : Type μ} (m : Result E A) (f : A → Result E B) {b : B}
    → (m >>= f) ≡ ok b
    → (a : A) × (m ≡ ok a) × (f a ≡ ok b)
unfolding ◌>>=◌
>>=-eq-ok (ok a) f h = (a, refl, h)
>>=-eq-ok (err e) f h = cc

-- What holds of the value of a successful computation, with the steps before it as hypotheses.
pub record Ensures {ℓ κ μ} {E : Type ℓ} {A : Type κ} (m : Result E A) (Q : A → Type μ)
    : Type (ℓ ⊔ κ ⊔ μ) where
  pub holds : (a : A) → m ≡ ok a → Q a

pub Ensures-ok {ℓ κ μ} :
    {E : Type ℓ} {A : Type κ} (Q : A → Type μ) {a : A} → Q a → Ensures {E = E} (ok a) Q
Ensures-ok Q q = record { holds = λ b e. subst Q (cc) q }

pub Ensures->>= {ℓ κ μ ν} :
    {E : Type ℓ} {A : Type κ} {B : Type μ} {m : Result E A} (f : A → Result E B) {Q : B → Type ν}
    → ((a : A) → m ≡ ok a → Ensures (f a) Q)
    → Ensures (m >>= f) Q
Ensures->>= {m = m} f h = record {
  holds = λ b e. let (a, p, q) = >>=-eq-ok m f e in (h a p).holds b q;
}

pub reject-eq-ok {ℓ} :
    {E : Type ℓ} (b : Bool) (e : E) {u : Unit {0}} → reject b e ≡ ok u → b ≡ false
reject-eq-ok true e h = cc
reject-eq-ok false e h = refl

pub Ensures-if {ℓ κ μ} :
    {E : Type ℓ} {A : Type κ} {Q : A → Type μ} (b : Bool) {m n : Result E A}
    → (b ≡ true → Ensures m Q)
    → (b ≡ false → Ensures n Q)
    → Ensures (if b then m else n) Q
Ensures-if true h k = h refl
Ensures-if false h k = k refl

pub Ensures->> {ℓ μ ν} :
    {E : Type ℓ} {B : Type μ} (m : Result E (Unit {0})) (k : Result E B) {Q : B → Type ν}
    → (m ≡ ok tt → Ensures k Q)
    → Ensures (m >> k) Q
unfolding ◌>>◌
Ensures->> (ok u) k h = h refl
Ensures->> (err e) k h = record { holds = λ b q. absurd (cc) }
