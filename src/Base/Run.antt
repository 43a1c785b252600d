-- ===== src/Base/Run.antt =====
-- Handlers that change shared state and may raise. What was written before an exception stays
-- written, so the state comes back beside the exception too.
use Prim.Native.Nat.{ℕ}
use Prim.Native.String.{String}
use mathlib.Core.Path.{◌≡◌, refl}
use mathlib.Core.Logic.{◌⊎◌, inl, inr}

-- `HTTPException(status, detail)`, `ValueError`, `RuntimeError`, `AttributeError`; the exceptions of
-- the token checks: `SigningKeyNotFound`, `ExpiredSignatureError`, another `InvalidTokenError`,
-- `ServiceAuthError`; and any other exception.
pub data Error : Type 0 where
  http : ℕ → String → Error
  value_error runtime_error attribute_error other_error : Error
  signing_key_not_found expired_signature_error invalid_token_error service_auth_error : Error

pub data Result {ℓ} (A : Type ℓ) : Type ℓ where
  ok : A → Result A
  err : Error → Result A

abbrev pub Run {ℓ} : Type ℓ → Type ℓ → Type ℓ
Run S A = S → Result A × S

module _ {ℓ} {S A : Type ℓ} where
  abbrev pub pure : A → Run S A
  pure a s = (ok a, s)

  abbrev pub raise : Error → Run S A
  raise e s = (err e, s)

  abbrev pub lift : Result A → Run S A
  lift r s = (r, s)

module _ {ℓ} {S A B : Type ℓ} where
  abbrev pub continue : Result A → (A → Run S B) → Run S B
  continue (ok a) f s = f a s
  continue (err e) f s = (err e, s)

  infixl 10 ◌>>=◌ ◌>>◌
  abbrev pub ◌>>=◌ : Run S A → (A → Run S B) → Run S B
  ◌>>=◌ m f s = let (r, s') = m s in continue r f s'

  abbrev pub ◌>>◌ : Run S A → Run S B → Run S B
  m >> n = m >>= λ _. n

-- `try: … except ValueError: …`
abbrev pub on_value_error {ℓ} : {S A : Type ℓ} → Result A × S → Run S A → Result A × S
on_value_error (err value_error, s) handler = handler s
on_value_error (r, s) handler = (r, s)

pub Result-cases {ℓ} :
    {A : Type ℓ} (r : Result A) → ((a : A) × (r ≡ ok a)) ⊎ ((e : Error) × (r ≡ err e))
Result-cases (ok a) = inl (a, refl)
Result-cases (err e) = inr (e, refl)
