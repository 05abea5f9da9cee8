-- ===== src/Catalog/Vault.antt =====
-- A credential that the catalog of server/internal/services/catalog.go has stored, opened again.
use mathlib.Core.List.{reverse_aux}
use yusui.Prelude.{
  ℕ, ◌≡◌, refl, ap, ◌∙◌, Bool, true, false, ◌&&◌, Option, none, some, List, [], ◌∷◌, ◌++◌, String,
  str_eq, ◌==◌, first, arith, Bool-cases, inl, inr,
}
use yusui.Exec.{Result, ok, raise, ◌>>=◌, invalid}
use yusui.Exec.After.{
  After, After-result, After-imp, After-bind, After-bind_any, After-if, After-raise, After-ok,
}
use yusui.Store.Rows.{YusuiAssetCredential, AuthKind}
use yusui.Store.Conn.{Conn, Db, query, counted}
use yusui.Store.Laws.{After-query}
use yusui.Store.Inventory.{
  CreateAssetCredentialParams, create_asset_credential, CredentialRow, credential_row,
  new_credential, has_credential, has_asset, newest_active, get_active_credential_for_asset,
}
use yusui.Catalog.Secrets.{Sealer, seal, unseal, Drawn, unseal-seal}
use yusui.Catalog.Service.{
  unless, or_invalid, is_empty, auth_kind_of, catalog_create_credential, open_credential_secret,
}

-- The row that stands for an active credential of an asset after it was created.
record Kept (asset : ℕ) (ssh_user : String) (kind : AuthKind) (enc : List ℕ) (shown : CredentialRow)
    (d : Conn) : Type 0 where
  row : YusuiAssetCredential
  newest : newest_active asset d.asset_credentials ≡ some row
  user : row.ssh_user ≡ ssh_user
  auth : row.auth_kind ≡ kind
  secret : row.secret_enc ≡ enc
  viewed : shown ≡ credential_row row

reverse-append_one :
    {A : Type 0} (xs ys : List A) (x : A) → reverse_aux (xs ++ x ∷ []) ys ≡ x ∷ reverse_aux xs ys
reverse-append_one [] ys x = refl
reverse-append_one (y ∷ xs) ys x = reverse-append_one xs (y ∷ ys) x

newest_active-append :
    (asset : ℕ) (rows : List YusuiAssetCredential) (r : YusuiAssetCredential)
    → r.asset_id ≡ asset
    → r.is_active ≡ true
    → newest_active asset (rows ++ r ∷ []) ≡ some r
unfolding newest_active
newest_active-append asset rows r own up =
    ap (first (λ r. r.asset_id == asset && r.is_active)) (reverse-append_one rows [] r)
    ∙ ground (arith, own, up)

create-Kept :
    (a : CreateAssetCredentialParams) (c : Conn)
    → After
        (λ shown d. Kept a.asset_id a.ssh_user a.auth_kind a.secret_enc shown d)
        (create_asset_credential a)
        c
unfolding create_asset_credential
create-Kept a c = After-query (record {
  holds = elim (Bool-cases (has_credential a (counted c))) [
    | inl taken ↦ rw taken tt
    | inr free ↦ elim (Bool-cases (has_asset a.asset_id (counted c))) [
      | inl there ↦
          rw (free, there)
            (record {
              row = new_credential c.seq c.now a;
              newest = newest_active-append a.asset_id c.asset_credentials _ refl refl;
              user = refl;
              auth = refl;
              secret = refl;
              viewed = refl;
            })
      | inr missing ↦ rw (free, missing) tt
    ]
  ];
})

module _ (sealer : Sealer) (drawn : Result (List ℕ)) (asset : ℕ) (ssh_user auth_kind : String)
    (plain : List ℕ) (fingerprint description : Option String) where
  -- The credential as the call creates it.
  abbrev created : Db CredentialRow
  created =
      catalog_create_credential sealer drawn asset ssh_user auth_kind plain fingerprint description

  After-unless :
      {Q : CredentialRow → Conn → Type 0} (bad : Bool) {m : Db CredentialRow} {c : Conn}
      → After Q m c
      → After Q (unless bad m) c
  After-unless bad h = After-if bad {m = raise invalid} (λ _. After-raise _ _) (λ _. h)

  or_invalid-After :
      {Q : CredentialRow → Conn → Type 0} {B : Type 0} (o : Option B) {f : B → Db CredentialRow}
      {c : Conn}
      → ((x : B) → After Q (f x) c)
      → After Q (or_invalid o f) c
  or_invalid-After none h = After-raise _ _
  or_invalid-After (some x) h = h x

  Stored : AuthKind → CredentialRow → Conn → Type 0
  Stored kind shown d =
      (enc : List ℕ) × (seal sealer drawn plain ≡ ok enc) × Kept asset ssh_user kind enc shown d

  created-After : (c : Conn) → After (λ shown d. (kind : AuthKind) × Stored kind shown d) created c
  unfolding catalog_create_credential Stored
  created-After c = After-unless (str_eq ssh_user "") (
      or_invalid-After (auth_kind_of auth_kind) (λ kind. After-unless (is_empty plain) (
        After-bind (
          After-imp
            (λ enc d sealed. After-imp (λ shown e k. (kind, (enc, sealed, k))) (create-Kept _ d))
            (After-bind_any _ (λ _. After-result _ _))))))

  open-newest :
      (d : Conn) (r : YusuiAssetCredential) (secret : List ℕ)
      → d.fails d.calls ≡ false
      → newest_active asset d.asset_credentials ≡ some r
      → unseal sealer r.secret_enc ≡ ok secret
      → (open_credential_secret sealer asset d).0 ≡ ok (r.ssh_user, secret, r.auth_kind)
  unfolding open_credential_secret get_active_credential_for_asset query ◌>>=◌
  open-newest d r secret up newest clear = rw up (rw newest (rw clear refl))

  -- A credential that was stored is the one that the shell then gets for its asset: if the next call
  -- of the database answers, OpenCredentialSecret gives the login, the very secret, and the kind of
  -- the row that was answered.
  pub create_credential-open_credential_secret :
      (c : Conn) (shown : CredentialRow)
      → (created c).0 ≡ ok shown
      → Drawn sealer drawn
      → (created c).1.fails (created c).1.calls ≡ false
      → (open_credential_secret sealer asset (created c).1).0
        ≡ ok (ssh_user, plain, shown.auth_kind)
  unfolding Stored
  create_credential-open_credential_secret c shown h d up =
      let (kind, (enc, sealed, k)) = After-ok (created-After c) shown h in
      open-newest (created c).1 k.row plain up k.newest
        (ap (unseal sealer) k.secret ∙ unseal-seal sealer drawn plain enc d sealed)
      ∙ cc (k.user, k.viewed)
