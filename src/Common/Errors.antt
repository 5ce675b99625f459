-- ===== src/Common/Errors.antt =====
-- Errors as values: what the services throw, and the promise that resolves or rejects.
use Prim.Native.Nat.{ℕ}
use mathlib.Core.Path.{◌≡◌, refl}
use mathlib.Core.Logic.{◌⊎◌, inl, inr}
use mathlib.Core.Bool.{Bool, true, false}
use mathlib.Core.Option.{Option, none, some}

-- The partial unique indexes of the assignments table, and the unique columns of the others.
pub data Target : Type 0 where
  resource_index incident_index email_index other_index : Target

-- `app` is an AppError with its HTTP status; the next two are PrismaClientKnownRequestError with
-- the codes P2002 and P2025; `transient` and `fatal` are the other errors, told apart by
-- `isTransientError`.
pub data Error : Type 0 where
  app : ℕ → Error
  unique_violation : Target → Error
  row_not_found : Error
  transient : Error
  fatal : Error

-- What a call comes to: it throws, or it returns.
pub data Result {κ} (T : Type κ) : Type κ where
  err : Error → Result T
  ok : T → Result T

infixl 5 ◌>>=◌
abbrev pub ◌>>=◌ {κ μ} : {S : Type κ} {T : Type μ} → Result S → (S → Result T) → Result T
err thrown >>= next = err thrown
ok returned >>= next = next returned

-- One statement after another that returns nothing.
infixl 5 ◌>>◌
abbrev pub ◌>>◌ {κ} : {T : Type κ} → Result (Unit {0}) → Result T → Result T
first >> second = first >>= λ _. second

-- `if (!b) throw e`
abbrev pub guard : (passes : Bool) → Error → Result (Unit {0})
guard false thrown = err thrown
guard true thrown = ok tt

-- `if (!row) throw e`
abbrev pub or_throw {ℓ} : {A : Type ℓ} → Option A → Error → Result A
or_throw none e = err e
or_throw (some a) e = ok a

-- Whether a call returned.
abbrev pub is_ok {κ} : {T : Type κ} → Result T → Bool
is_ok (err thrown) = false
is_ok (ok returned) = true

pub is_ok-guard : (b : Bool) (e : Error) → is_ok (guard b e) ≡ b
is_ok-guard false e = refl
is_ok-guard true e = refl

-- A guard that lets through has passed its test.
pub guard-ok : (b : Bool) (e : Error) {u : Unit {0}} → guard b e ≡ ok u → b ≡ true
guard-ok false e h = cc
guard-ok true e h = refl

pub or_throw-ok {ℓ} :
    {A : Type ℓ} (o : Option A) (e : Error) {a : A} → or_throw o e ≡ ok a → o ≡ some a
or_throw-ok none e h = cc
or_throw-ok (some a) e h = cc

-- http-status
abbrev pub bad_request : ℕ
bad_request = 400

abbrev pub unauthorized : ℕ
unauthorized = 401

abbrev pub forbidden : ℕ
forbidden = 403

abbrev pub not_found : ℕ
not_found = 404

abbrev pub conflict : ℕ
conflict = 409

-- A chain that returned has made its first step, and what follows returned too.
pub >>=-ok {κ μ} :
    {S : Type κ} {T : Type μ} {u : T} (first : Result S) (next : S → Result T)
    → first >>= next ≡ ok u
    → (s : S) × (first ≡ ok s) × (next s ≡ ok u)
>>=-ok (err thrown) next returned = cc
>>=-ok (ok s) next returned = (s, refl, returned)

pub Result-cases {ℓ} :
    {A : Type ℓ} (r : Result A) → ((a : A) × (r ≡ ok a)) ⊎ ((e : Error) × (r ≡ err e))
Result-cases (ok a) = inl (a, refl)
Result-cases (err e) = inr (e, refl)
