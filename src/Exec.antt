-- ===== src/Exec.antt =====
-- Fallible code over a state, as the operations of server/internal/policy/engine.go are. What was
-- changed before an error stays changed, so the state comes back beside the error too.
pub mod After
pub mod Failed
pub mod Gives

-- The sentinels of server/internal/policy/engine.go and of server/internal/auth/identity.go, and the
-- errors that are passed on unnamed: a query without a row, a failed database call, a violated
-- constraint (a unique one is a `duplicate`), a refusal of the gateway, a cipher's failure, a ticket
-- with nothing to connect to, an SSH connection or a recording that fails. `invalid`
-- is ErrValidation of server/internal/services/catalog.go; the last line has the gRPC codes.
pub data Error : Type 0 where
  not_found conflict validation self_approve : Error
  invalid_credentials account_locked inactive mfa_unsupported : Error
  no_rows unavailable constraint duplicate gateway_error : Error
  invalid unsealed no_target ssh_error : Error
  unauthenticated invalid_argument aborted exhausted internal : Error

pub data Result {ℓ} (A : Type ℓ) : Type ℓ where
  ok : A → Result A
  err : Error → Result A

abbrev pub Exec {ℓ} : Type ℓ → Type ℓ → Type ℓ
Exec S A = S → Result A × S

module _ {ℓ} {S A : Type ℓ} where
  abbrev pub pure : A → Exec S A
  pure a s = (ok a, s)

  abbrev pub raise : Error → Exec S A
  raise e s = (err e, s)

  abbrev pub lift : Result A → Exec S A
  lift r s = (r, s)

  -- `x, err := m`: the error becomes a value that the caller looks at.
  abbrev pub attempt : Exec S A → Exec S (Result A)
  attempt m s = (ok (m s).0, (m s).1)

module _ {ℓ} {S A B : Type ℓ} where
  -- What follows a call: `if err != nil { return err }` and then the rest.
  abbrev pub resume : (A → Exec S B) → Result A → S → Result B × S
  resume f (ok a) s = f a s
  resume f (err e) s = (err e, s)

  infixl 5 ◌>>=◌
  unfoldable pub ◌>>=◌ : Exec S A → (A → Exec S B) → Exec S B
  ◌>>=◌ m f s = resume f (m s).0 (m s).1

module _ {ℓ} {S A B : Type ℓ} where
  infixl 5 ◌>>◌
  abbrev pub ◌>>◌ : Exec S A → Exec S B → Exec S B
  m >> n = m >>= λ _. n

-- Any error of a lookup is reported as `e`.
abbrev pub named {ℓ} : {A : Type ℓ} → Error → Result A → Result A
named e (ok a) = ok a
named e (err _) = err e

unfoldable pub or_else : {S A : Type 0} → Error → Exec S A → Exec S A
or_else e m s = (named e (m s).0, (m s).1)
