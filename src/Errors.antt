-- ===== src/Errors.antt =====
-- The return codes of src/liboryxcache/oryxcache.h and src/liboryxrun/oryxrun.h. A function of the C
-- code that returns ORYX_OK and fills an out parameter returns `ok` of that value here, and its
-- negative codes are `err`.
use oryx.Prelude.{if◌then◌else◌, Bool, true, false, ◌≡◌, refl}

pub data Error : Type 0 where
  io format integrity notfound inval nomem unsupported perm steps : Error

pub data Result {ℓ} (A : Type ℓ) : Type ℓ where
  err : Error → Result A
  ok : A → Result A

-- `rc = m; if (rc != ORYX_OK) return rc;` and the rest, which reads what `m` filled in.
infixl 5 ◌>>=◌
abbrev pub ◌>>=◌ {ℓ ν} : {X : Type ℓ} {Y : Type ν} → Result X → (X → Result Y) → Result Y
err code >>= rest = err code
ok filled >>= rest = rest filled

-- A run of code that reads an array: it returns, or it reads outside the array or does not end.
pub data Run {ℓ} (A : Type ℓ) : Type ℓ where
  returns : A → Run A
  fault : Run A

-- If the code succeeds, its result satisfies `P`.
abbrev pub Ensures {ℓ κ} : {A : Type ℓ} → Result A → (A → Type κ) → Type κ
Ensures (ok a) P = P a
Ensures (err e) P = Unit

pub Ensures-bind {ℓ κ μ ν} :
    {A : Type ℓ} {B : Type κ} (P : A → Type μ) (Q : B → Type ν) (m : Result A) (f : A → Result B)
    → Ensures m P
    → ((a : A) → P a → Ensures (f a) Q)
    → Ensures (m >>= f) Q
Ensures-bind P Q (ok a) f h k = k a h
Ensures-bind P Q (err e) f h k = tt

pub Ensures-ok {ℓ κ} :
    {A : Type ℓ} (P : A → Type κ) (m : Result A) {a : A} → Ensures m P → m ≡ ok a → P a
Ensures-ok P m h e = rw e at h

pub Ensures-weaken {ℓ κ μ} :
    {A : Type ℓ} (P : A → Type κ) (Q : A → Type μ) (m : Result A)
    → Ensures m P
    → ((a : A) → P a → Q a)
    → Ensures m Q
Ensures-weaken P Q (ok a) h k = k a h
Ensures-weaken P Q (err e) h k = tt

-- A guard that fails, in front of the rest.
pub Ensures-guard {ℓ κ} :
    {A : Type ℓ} (P : A → Type κ) (b : Bool) (e : Error) (m : Result A)
    → (b ≡ false → Ensures m P)
    → Ensures (if b then err e else m) P
Ensures-guard P true e m h = tt
Ensures-guard P false e m h = h refl

pub Ensures-any {ℓ κ μ} :
    {A : Type ℓ} {B : Type κ} (Q : B → Type μ) (m : Result A) (f : A → Result B)
    → ((a : A) → Ensures (f a) Q)
    → Ensures (m >>= f) Q
Ensures-any Q (ok a) f k = k a
Ensures-any Q (err e) f k = tt
