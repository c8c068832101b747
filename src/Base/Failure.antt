-- ===== src/Base/Failure.antt =====
-- A computation that may raise, the exception as data.
use mathlib.Core.Path.{◌≡◌, refl, ap, subst}
use mathlib.Core.Logic.{◌⊎◌, inl, inr}
use mathlib.Core.Bool.{Bool, true, false}

pub data Result {ℓ κ} (E : Type κ) (A : Type ℓ) : Type (ℓ ⊔ κ) where
  ok : A → Result E A
  err : E → Result E A

infixl 5 ◌>>=◌ ◌>>◌
abbrev pub ◌>>=◌ {ℓ ℓ' κ} :
    {E : Type κ} {A : Type ℓ} {B : Type ℓ'} → Result E A → (A → Result E B) → Result E B
ok a >>= f = f a
err e >>= f = err e

abbrev pub ◌>>◌ {ℓ κ} : {E : Type κ} {B : Type ℓ} → Result E (Unit {0}) → Result E B → Result E B
m >> k = m >>= λ _. k

-- `if not b: raise e`
abbrev pub require {κ} : {E : Type κ} → Bool → E → Result E (Unit {0})
require true e = ok tt
require false e = err e

-- A raise of `e` becomes a raise of `e'`: `except … as exc: raise e' from exc`.
abbrev pub reraise {ℓ κ κ'} :
    {E : Type κ} {E' : Type κ'} {A : Type ℓ} → E' → Result E A → Result E' A
reraise e' (ok a) = ok a
reraise e' (err e) = err e'

pub Result-cases {ℓ κ} :
    {E : Type κ} {A : Type ℓ} (r : Result E A) → ((a : A) × (r ≡ ok a)) ⊎ ((e : E) × (r ≡ err e))
Result-cases (ok a) = inl (a, refl)
Result-cases (err e) = inr (e, refl)

module _ {ℓ κ} {E : Type κ} {A : Type ℓ} where
  -- What holds of the answer, if there is one.
  abbrev pub Answers {ι} : (A → Type ι) → Result E A → Type ι
  Answers P (ok a) = P a
  Answers P (err e) = Unit

  pub Answers-bind {ι ℓ'} :
      {B : Type ℓ'} (P : A → Type ι) (m : Result E B) (f : B → Result E A)
      → ((b : B) → Answers P (f b))
      → Answers P (m >>= f)
  Answers-bind P (ok b) f h = h b
  Answers-bind P (err e) f h = tt

  pub Answers-require {ι} :
      (P : A → Type ι) (b : Bool) (e : E) (m : Result E A)
      → (b ≡ true → Answers P m)
      → Answers P (require b e >>= (λ _. m))
  Answers-require P true e m h = h refl
  Answers-require P false e m h = tt

  -- Here what the first answer is stays known.
  pub Answers-after {ι ℓ'} :
      {B : Type ℓ'} (P : A → Type ι) (m : Result E B) (f : B → Result E A)
      → ((b : B) → m ≡ ok b → Answers P (f b))
      → Answers P (m >>= f)
  Answers-after P (ok b) f h = h b refl
  Answers-after P (err e) f h = tt

  ok-injective : (b a : A) → ◌≡◌ {A = Result E A} (ok b) (ok a) → b ≡ a
  ok-injective b a h = cc

  pub Answers-answer {ι} : (P : A → Type ι) (m : Result E A) (a : A) → Answers P m → m ≡ ok a → P a
  Answers-answer P (ok b) a h is = subst P (ok-injective b a is) h
  Answers-answer P (err e) a h is = cc

pub require-ok {κ} : {E : Type κ} (b : Bool) (e : E) (u : Unit {0}) → require b e ≡ ok u → b ≡ true
require-ok true e u h = refl
require-ok false e u h = cc

module _ {ℓ κ ι} {E : Type κ} {A : Type ℓ} (P : A → Type ι) where
  pub Answers-all : (m : Result E A) → ((a : A) → m ≡ ok a → P a) → Answers P m
  Answers-all (ok a) h = h a refl
  Answers-all (err e) h = tt

-- The rule for a bind: what holds of the first answer is enough for the rest.
pub Answers-then {ℓ ℓ' κ ι ι'} :
    {E : Type κ} {A : Type ℓ} {B : Type ℓ'} (Q : B → Type ι') (P : A → Type ι) (m : Result E B)
    (f : B → Result E A)
    → Answers Q m
    → ((b : B) → Q b → Answers P (f b))
    → Answers P (m >>= f)
Answers-then Q P (ok b) f q h = h b q
Answers-then Q P (err e) f q h = tt

pub Answers-implies {ℓ κ ι ι'} :
    {E : Type κ} {A : Type ℓ} (Q : A → Type ι') (P : A → Type ι) (m : Result E A)
    → Answers Q m
    → ((a : A) → Q a → P a)
    → Answers P m
Answers-implies Q P (ok a) q h = h a q
Answers-implies Q P (err e) q h = tt

pub Answers-reraise {ℓ κ κ' ι} :
    {E : Type κ} {E' : Type κ'} {A : Type ℓ} (P : A → Type ι) (e' : E') (m : Result E A)
    → Answers P m
    → Answers P (reraise e' m)
Answers-reraise P e' (ok a) h = h
Answers-reraise P e' (err e) h = tt

-- What holds of an answer, with what the answer is.
pub Answers-with {ℓ κ ι} :
    {E : Type κ} {A : Type ℓ} (P : A → Type ι) (m : Result E A)
    → Answers P m
    → Answers (λ a. P a × (m ≡ ok a)) m
Answers-with P (ok a) h = (h, refl)
Answers-with P (err e) h = tt

-- Steps of a computation that does not raise.
pub bind_ok {ℓ ℓ' κ} :
    {E : Type κ} {A : Type ℓ} {B : Type ℓ'} (m : Result E A) (a : A) (f : A → Result E B)
    → m ≡ ok a
    → (m >>= f) ≡ f a
bind_ok m a f h = ap (λ x. x >>= f) h

pub require_ok {κ} : {E : Type κ} (b : Bool) (e : E) → b ≡ true → require b e ≡ ok tt
require_ok true e h = refl
require_ok false e h = cc
