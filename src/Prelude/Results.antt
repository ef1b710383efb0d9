-- ===== src/Prelude/Results.antt =====
-- The exceptions of ms605/errors.py and of Python's own library that the modelled code raises, and
-- a result that is a value or one of them. Messages are not modelled, only the exception's class.
use mathlib.Core.Logic.{◌⊎◌, inl, inr}
use mathlib.Core.Path.{◌≡◌, refl}
use mathlib.Core.Bool.{Bool, true, false}
use mathlib.Core.Option.{Option, none, some}

pub data Error : Type 0 where
  ms605_error frame_error profile_error timeout_error device_error connection_error storage_error :
      Error
  session_busy value_error key_error index_error struct_error runtime_error : Error
  -- not an exception: a loop of the model ran out of its rounds
  no_fuel : Error

pub data Result {ℓ} (A : Type ℓ) : Type ℓ where
  ok : A → Result A
  err : Error → Result A

-- Running on with the value, unless an exception was raised.
module _ {ℓ κ} {A : Type ℓ} {B : Type κ} where
  infixl 5 ◌>>=◌
  abbrev pub ◌>>=◌ : Result A → (A → Result B) → Result B
  err e >>= next = err e
  ok a >>= next = next a

  -- Where the whole returned, its first part did, and the rest returned on that value.
  pub >>=-eq-ok :
      (first : Result A) (next : A → Result B) {b : B}
      → (first >>= next) ≡ ok b
      → (a : A) × (first ≡ ok a) × (next a ≡ ok b)
  >>=-eq-ok (err e) next h = cc
  >>=-eq-ok (ok a) next h = (a, refl, h)

module _ {κ} {B : Type κ} where
  infixl 5 ◌>>◌
  abbrev pub ◌>>◌ : Result (Unit {0}) → Result B → Result B
  check >> next = check >>= λ passed. next

-- `if test: raise e`
abbrev pub raise_if : Bool → Error → Result (Unit {0})
raise_if true e = err e
raise_if false e = ok tt

-- `if value is None: raise e`
abbrev pub or_raise {ℓ} : {A : Type ℓ} → Option A → Error → Result A
or_raise none e = err e
or_raise (some a) e = ok a

pub Result-cases {ℓ} :
    {A : Type ℓ} (r : Result A) → ((a : A) × (r ≡ ok a)) ⊎ ((e : Error) × (r ≡ err e))
Result-cases (ok a) = inl (a, refl)
Result-cases (err e) = inr (e, refl)

pub ok-inj {ℓ} : {A : Type ℓ} {a b : A} → (ok a) ≡ (ok b) → a ≡ b
ok-inj h = cc h

pub >>=_cong {ℓ κ} :
    {A : Type ℓ} {B : Type κ} (r : Result A) (next next' : A → Result B)
    → ((a : A) → next a ≡ next' a)
    → (r >>= next) ≡ (r >>= next')
>>=_cong (ok a) next next' h = h a
>>=_cong (err e) next next' h = refl
