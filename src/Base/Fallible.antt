-- ===== src/Base/Fallible.antt =====
-- Results with an error, and their `?`.
use mathlib.Core.Path.{◌≡◌, refl}
use mathlib.Core.Option.{Option, none, some}

pub data Result {ℓ κ} (E : Type ℓ) (A : Type κ) : Type (ℓ ⊔ κ) where
  ok : A → Result E A
  err : E → Result E A

-- `r?`, for a result
abbrev pub and_then {ℓ κ μ} :
    {E : Type ℓ} {A : Type κ} {B : Type μ} → Result E A → (A → Result E B) → Result E B
and_then (ok a) f = f a
and_then (err e) f = err e

-- `Option::ok_or`
abbrev pub ok_or {ℓ κ} : {E : Type ℓ} {A : Type κ} → Option A → E → Result E A
ok_or (some a) e = ok a
ok_or none e = err e

-- A chain succeeds only through a first part that does.
pub and_then-eq-ok {ℓ κ μ} :
    {E : Type ℓ} {A : Type κ} {B : Type μ} {last : B} (first : Result E A) (next : A → Result E B)
    → and_then first next ≡ ok last
    → (mid : A) × (next mid ≡ ok last) × (first ≡ ok mid)
and_then-eq-ok (ok mid) next h = (mid, h, refl)
and_then-eq-ok (err e) next h = cc
