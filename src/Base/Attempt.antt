-- ===== src/Base/Attempt.antt =====
-- A Go result with an error, and the early return on it.
use kanly.Base.{◌≡◌, refl, Option, none, some}

pub data Attempt (E A : Type 0) : Type 0 where
  done : A → Attempt E A
  failed : E → Attempt E A

infixl 5 ◌>>=◌
abbrev pub ◌>>=◌ : {E A B : Type 0} → Attempt E A → (A → Attempt E B) → Attempt E B
done a >>= f = f a
failed e >>= f = failed e

pub >>=-eq-done :
    {E A B : Type 0} (m : Attempt E A) (f : A → Attempt E B) {b : B}
    → (m >>= f) ≡ done b
    → (a : A) × (m ≡ done a) × (f a ≡ done b)
>>=-eq-done (done a) f h = (a, refl, h)
>>=-eq-done (failed e) f h = cc

pub done-injective : {E A : Type 0} {a b : A} → ◌≡◌ {A = Attempt E A} (done a) (done b) → a ≡ b
done-injective h = cc

abbrev pub or_fail : {E A : Type 0} → E → Option A → Attempt E A
or_fail e none = failed e
or_fail e (some a) = done a
