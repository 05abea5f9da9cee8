-- ===== src/Catalog/Secrets.antt =====
-- server/internal/secrets/secrets.go. `Aead` is the AES-GCM of crypto/cipher: what it seals under a
-- nonce of its size it opens again under the same nonce. The nonce is what rand.Reader gave, or its
-- error, and the bytes of a text are numbers.
use yusui.Prelude.{
  ℕ, ◌≡◌, refl, sym, ap, ◌∙◌, false, Option, none, some, List, ◌++◌, String, if◌then◌else◌, ltb,
  length, take, drop, take-append, drop-append, length-append, arith,
}
use yusui.Exec.{Result, ok, err, unsealed}

pub record Aead : Type 0 where
  pub nonce_size : ℕ
  pub seal : List ℕ → List ℕ → List ℕ
  pub unseal : List ℕ → List ℕ → Option (List ℕ)
  pub unseal-seal :
      (nonce plain : List ℕ)
      → length nonce ≡ nonce_size
      → unseal nonce (seal nonce plain) ≡ some plain

pub record Sealer : Type 0 where
  pub gcm : Aead
  pub key_id : String

-- The nonce stands before the ciphertext.
unfoldable pub seal : Sealer → Result (List ℕ) → List ℕ → Result (List ℕ)
seal s (err x) plain = err unsealed
seal s (ok nonce) plain = ok (nonce ++ s.gcm.seal nonce plain)

abbrev pub opened : Option (List ℕ) → Result (List ℕ)
opened none = err unsealed
opened (some plain) = ok plain

-- `Open`.
unfoldable pub unseal : Sealer → List ℕ → Result (List ℕ)
unseal s text =
    let n = s.gcm.nonce_size in
    if ltb (length text) n then err unsealed else opened (s.gcm.unseal (take n text) (drop n text))

-- A drawn nonce is as long as asked for.
unfoldable pub Drawn : Sealer → Result (List ℕ) → Type 0
Drawn s (err x) = Unit {0}
Drawn s (ok nonce) = length nonce ≡ s.gcm.nonce_size

unseal-append :
    (s : Sealer) (nonce text : List ℕ)
    → length nonce ≡ s.gcm.nonce_size
    → unseal s (nonce ++ text) ≡ opened (s.gcm.unseal nonce text)
unfolding unseal
unseal-append s nonce text h =
    rw (long, ap (λ n. take n (nonce ++ text)) (sym h), ap (λ n. drop n (nonce ++ text)) (sym h))
      (rw (take-append nonce text, drop-append nonce text) refl)
  where
    long : ltb (length (nonce ++ text)) s.gcm.nonce_size ≡ false
    long = ground (arith, length-append nonce text)

-- What was sealed is opened again, whichever nonce was drawn.
pub unseal-seal :
    (s : Sealer) (drawn : Result (List ℕ)) (plain text : List ℕ)
    → Drawn s drawn
    → seal s drawn plain ≡ ok text
    → unseal s text ≡ ok plain
unfolding seal Drawn
unseal-seal s (err x) plain text d h = cc h
unseal-seal s (ok nonce) plain text d h =
    ap (unseal s) (sym same)
    ∙ unseal-append s nonce (s.gcm.seal nonce plain) d
    ∙ ap opened (s.gcm.unseal-seal nonce plain d)
  where
    same : nonce ++ s.gcm.seal nonce plain ≡ text
    same = cc h
