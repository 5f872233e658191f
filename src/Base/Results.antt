-- ===== src/Base/Results.antt =====
-- The `(value, error)` results of the source, over the type of the errors.
use mathlib.Core.Path.{◌≡◌, refl}
use mathlib.Core.List.{List, [], ◌∷◌}

pub data Result {ℓ κ} (E : Type ℓ) (A : Type κ) : Type (ℓ ⊔ κ) where
  ok : A → Result E A
  err : E → Result E A

infixl 5 ◌>>=◌
abbrev pub ◌>>=◌ {ℓ κ μ} :
    {E : Type ℓ} {A : Type κ} {B : Type μ} → Result E A → (A → Result E B) → Result E B
err e >>= next = err e
ok a >>= next = next a

-- A loop that stops at the first error.
abbrev cons_ok {ℓ κ} :
    {E : Type ℓ} {B : Type κ} → Result E B → Result E (List B) → Result E (List B)
cons_ok (err e) rest = err e
cons_ok (ok b) (err e) = err e
cons_ok (ok b) (ok bs) = ok (b ∷ bs)

abbrev pub traverse {ℓ κ μ} :
    {E : Type ℓ} {A : Type κ} {B : Type μ} → (A → Result E B) → List A → Result E (List B)
traverse f [] = ok []
traverse f (x ∷ xs) = cons_ok (f x) (traverse f xs)

pub >>=-eq-ok {ℓ κ μ} :
    {E : Type ℓ} {A : Type κ} {B : Type μ} (m : Result E A) (next : A → Result E B) {out : B}
    → (m >>= next) ≡ ok out
    → (a : A) × (m ≡ ok a) × (next a ≡ ok out)
>>=-eq-ok (err e) next h = cc
>>=-eq-ok (ok a) next h = (a, refl, h)

cons_ok-eq-ok {ℓ κ} :
    {E : Type ℓ} {B : Type κ} (m : Result E B) (ms : Result E (List B)) {out : List B}
    → cons_ok m ms ≡ ok out
    → (b : B) × (bs : List B) × (m ≡ ok b) × (ms ≡ ok bs) × (out ≡ b ∷ bs)
cons_ok-eq-ok (err e) ms h = cc
cons_ok-eq-ok (ok b) (err e) h = cc
cons_ok-eq-ok (ok b) (ok bs) h = (b, bs, refl, refl, cc)

pub traverse-cons {ℓ κ μ} :
    {E : Type ℓ} {A : Type κ} {B : Type μ} (f : A → Result E B) (x : A) (xs : List A) {out : List B}
    → traverse f (x ∷ xs) ≡ ok out
    → (b : B) × (bs : List B) × (f x ≡ ok b) × (traverse f xs ≡ ok bs) × (out ≡ b ∷ bs)
traverse-cons f x xs h = cons_ok-eq-ok (f x) (traverse f xs) h

-- `P` holds of the value, if there is one.
abbrev pub OnOk {ℓ κ μ} : {E : Type ℓ} {A : Type κ} → (A → Type μ) → Result E A → Type μ
OnOk P (err e) = Unit
OnOk P (ok a) = P a

pub >>=-OnOk {ℓ κ μ} :
    {E : Type ℓ} {A B : Type κ} {P : A → Type μ} (P' : B → Type μ) (m : Result E A)
    (next : A → Result E B)
    → OnOk P m
    → ((a : A) → P a → OnOk P' (next a))
    → OnOk P' (m >>= next)
>>=-OnOk P' (err e) next h step = tt
>>=-OnOk P' (ok a) next h step = step a h
