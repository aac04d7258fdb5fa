-- ===== src/Base/Result.antt =====
-- A value or an error, as Go's functions return them in two results.
use mathlib.Core.Path.{◌≡◌, refl}
use mathlib.Core.Logic.{◌⊎◌, inl, inr}

pub data Result (E A : Type 0) : Type 0 where
  err : E → Result E A
  ok : A → Result E A

-- What follows `if err != nil { return err }`.
infixl 5 ◌>>=◌ ◌>>◌
abbrev pub ◌>>=◌ : {E A B : Type 0} (result : Result E A) (next : A → Result E B) → Result E B
(err failure) >>= next = err failure
(ok value) >>= next = next value

abbrev pub ◌>>◌ : {E B : Type 0} (check : Result E (Unit {0})) (rest : Result E B) → Result E B
check >> rest = check >>= (λ done. rest)

pub >>=-eq-ok :
    {E A B : Type 0} (result : Result E A) (next : A → Result E B) {final : B}
    → (result >>= next) ≡ ok final
    → (value : A) × (result ≡ ok value) × (next value ≡ ok final)
>>=-eq-ok (err failure) next e = cc
>>=-eq-ok (ok value) next e = (value, refl, e)

-- A property of a match on a result.
pub result_ind {ℓ κ} :
    {E A : Type 0} {B : Type κ} (P : B → Type ℓ) (r : Result E A) {f : E → B} {g : A → B}
    → ((e : E) → r ≡ err e → P (f e))
    → ((a : A) → r ≡ ok a → P (g a))
    → P (elim r [ err e ↦ f e | ok a ↦ g a ])
result_ind P (err e) pe pa = pe e refl
result_ind P (ok a) pe pa = pa a refl

pub Result-cases :
    {E A : Type 0} (r : Result E A) → ((e : E) × (r ≡ err e)) ⊎ ((a : A) × (r ≡ ok a))
Result-cases (err e) = inl (e, refl)
Result-cases (ok a) = inr (a, refl)
