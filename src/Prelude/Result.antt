-- ===== src/Prelude/Result.antt =====
-- Fallible code: a value, or the way in which the code stops.
use mathlib.Core.Bool.{Bool, true, false}
use mathlib.Core.Path.{◌≡◌, refl}

-- `undefined` is an access outside an object, `assert_failed` an `assert`, `runtime_error` a throw.
pub data Error : Type 0 where
  undefined assert_failed runtime_error : Error

pub data Result {ℓ} (V : Type ℓ) : Type ℓ where
  err : Error → Result V
  ok : V → Result V

abbrev pub guard : (holds : Bool) → (otherwise : Error) → Result (Unit {0})
guard false why = err why
guard true why = ok tt

abbrev pub ◌>>=◌ {ℓ κ} : {V : Type ℓ} {W : Type κ} → Result V → (V → Result W) → Result W
err why >>= next = err why
ok v >>= next = next v

abbrev pub ◌>>◌ {κ} : {W : Type κ} → Result (Unit {0}) → Result W → Result W
err why >> next = err why
ok v >> next = next

infixl 5 ◌>>=◌
infixl 5 ◌>>◌
-- Where a chain returns, its parts do.
pub >>-eq-ok {κ} :
    {W : Type κ} (first : Result (Unit {0})) (next : Result W) {w : W}
    → (first >> next) ≡ ok w
    → (first ≡ ok tt) × (next ≡ ok w)
>>-eq-ok (err why) next done = cc
>>-eq-ok (ok tt) next done = (refl, done)

pub >>=-eq-ok {ℓ κ} :
    {V : Type ℓ} {W : Type κ} (first : Result V) (next : V → Result W) {w : W}
    → (first >>= next) ≡ ok w
    → (v : V) × (first ≡ ok v) × (next v ≡ ok w)
>>=-eq-ok (err why) next done = cc
>>=-eq-ok (ok v) next done = (v, refl, done)

pub guard-eq-ok : (holds : Bool) (why : Error) → guard holds why ≡ ok tt → holds ≡ true
guard-eq-ok false why done = cc
guard-eq-ok true why done = refl

pub ok_inj {ℓ} : {V : Type ℓ} {v w : V} → ok v ≡ ok w → v ≡ w
ok_inj done = cc

pub ok_ne_err {ℓ} : {V : Type ℓ} {v : V} {why : Error} → err why ≡ ok v → ⊥
ok_ne_err done = cc
