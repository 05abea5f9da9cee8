-- ===== src/Netbird.antt =====
-- server/internal/netbird/adapter.go: the calls of the management API. The API is a parameter: `send`
-- answers a request in the state of the service, with a status and a body, or the connection fails;
-- reading a body as JSON is one too.
pub mod Ensuring
pub mod Classes
use yusui.Prelude.{
  ℕ, Bool, true, false, ◌&&◌, ◌||◌, Option, none, some, List, [], ◌∷◌, ◌++◌, String, str_eq,
  if◌then◌else◌, leb, ◌==◌,
}
use yusui.Prelude.Int.{ℤ}

pub data ErrClass : Type 0 where
  err_transient err_conflict err_auth err_schema err_permanent : ErrClass

-- APIError, without its message.
pub record ApiError : Type 0 where
  pub class : ErrClass
  pub status : ℕ

-- What ClassOf looks through: an APIError, an error that wraps another, or any other.
pub data GoError : Type 0 where
  api_error : ApiError → GoError
  wrapped : GoError → GoError
  plain : GoError

-- `as`.
unfoldable pub find_api_error : GoError → Option ApiError
find_api_error (api_error e) = some e
find_api_error (wrapped e) = find_api_error e
find_api_error plain = none

abbrev pub class_or_permanent : Option ApiError → ErrClass
class_or_permanent none = err_permanent
class_or_permanent (some e) = e.class

unfoldable pub class_of : GoError → ErrClass
unfolding find_api_error
class_of e = class_or_permanent (find_api_error e)

unfoldable pub classify : ℕ → ErrClass
classify status =
    if leb 500 status
    then err_transient
    else if status == 401 || status == 403
    then err_auth
    else if status == 409
    then err_conflict
    else err_permanent

pub record Group : Type 0 where
  pub id : String
  pub name : String

pub record Policy : Type 0 where
  pub id : String
  pub name : String
  pub enabled : Bool

pub record SetupKey : Type 0 where
  pub id : String
  pub key : String

-- The body of a new policy, without its fixed parts: it is enabled, and its one rule is
-- `<name>:r0`, from the source group to the agents' groups, for every protocol, accepted, in one
-- direction.
pub record PolicyBody : Type 0 where
  pub name : String
  pub source : String
  pub destinations : List String

-- A reusable key without a usage limit that is not ephemeral.
pub record KeyBody : Type 0 where
  pub name : String
  pub expires_in : ℤ

pub data Request : Type 0 where
  get_groups get_policies : Request
  post_group : String → Request
  post_policy : PolicyBody → Request
  post_setup_key : KeyBody → Request

-- `url_ok` says whether the configured address makes a request; each `…_of` is json.Unmarshal into the
-- caller's variable.
pub record Management (S Body : Type 0) : Type 0 where
  pub send : Request → S → Option (ℕ × Body) × S
  pub is_blank : Body → Bool
  pub url_ok : Bool
  pub groups_of : Body → Option (List Group)
  pub group_of : Body → Option Group
  pub policies_of : Body → Option (List Policy)
  pub policy_of : Body → Option Policy
  pub setup_key_of : Body → Option SetupKey

pub data Outcome (A : Type 0) : Type 0 where
  done : A → Outcome A
  failed : ApiError → Outcome A

abbrev pub decoded : {A : Type 0} → ℕ → Option A → Outcome A
decoded status (some a) = done a
decoded status none = failed (record { class = err_schema; status = status })

-- What `do` makes of the response; `blank` is the caller's variable as it was.
abbrev pub answered :
    {A Body : Type 0} → (Body → Bool) → (Body → Option A) → A → Option (ℕ × Body) → Outcome A
answered is_blank decode blank none = failed (record { class = err_transient; status = 0 })
answered is_blank decode blank (some (status, body)) =
    if leb 400 status
    then failed (record { class = classify status; status = status })
    else if is_blank body
    then done blank
    else decoded status (decode body)

abbrev pub id_or_create :
    {S : Type 0} → Option String → (S → Outcome String × S) → S → Outcome String × S
id_or_create (some id) create s = (done id, s)
id_or_create none create s = create s

abbrev pub map_done : {A B : Type 0} → (A → B) → Outcome A → Outcome B
map_done f (done a) = done (f a)
map_done f (failed e) = failed e

-- What follows a listing that succeeds.
abbrev pub listed :
    {A S : Type 0} → (A → S → Outcome String × S) → Outcome A → S → Outcome String × S
listed next (done a) s = next a s
listed next (failed e) s = (failed e, s)

unfoldable pub group_named : String → List Group → Option String
group_named name [] = none
group_named name (g ∷ gs) =
    let rest = group_named name gs in if str_eq g.name name then some g.id else rest

unfoldable pub policy_named : String → List Policy → Option String
policy_named name [] = none
policy_named name (p ∷ ps) =
    let rest = policy_named name ps in if str_eq p.name name then some p.id else rest

module _ {S Body : Type 0} (api : Management S Body) where
  -- `do`.
  unfoldable pub call : {A : Type 0} → (Body → Option A) → A → Request → S → Outcome A × S
  unfolding classify
  call decode blank req s =
      let r = api.send req s in
      if api.url_ok
      then (answered api.is_blank decode blank r.0, r.1)
      else (failed (record { class = err_permanent; status = 0 }), s)

  unfoldable pub list_groups : S → Outcome (List Group) × S
  unfolding call
  list_groups = call api.groups_of [] get_groups

  unfoldable pub create_group : String → S → Outcome String × S
  unfolding call
  create_group name s =
      let r = call api.group_of (record { id = ""; name = "" }) (post_group name) s in
      (map_done (λ g. g.id) r.0, r.1)

  unfoldable pub ensure_group : String → S → Outcome String × S
  unfolding list_groups create_group group_named
  ensure_group name s =
      let r = list_groups s in
      listed (λ gs. id_or_create (group_named name gs) (create_group name)) r.0 r.1

  unfoldable pub list_policies : S → Outcome (List Policy) × S
  unfolding call
  list_policies = call api.policies_of [] get_policies

  unfoldable pub create_policy : PolicyBody → S → Outcome String × S
  unfolding call
  create_policy body s =
      let r =
        call api.policy_of (record { id = ""; name = ""; enabled = false }) (post_policy body) s in
      (map_done (λ p. p.id) r.0, r.1)

  unfoldable pub ensure_builtin_policy : PolicyBody → S → Outcome String × S
  unfolding list_policies create_policy policy_named
  ensure_builtin_policy body s =
      let r = list_policies s in
      listed (λ ps. id_or_create (policy_named body.name ps) (create_policy body)) r.0 r.1

  unfoldable pub create_setup_key : KeyBody → S → Outcome SetupKey × S
  unfolding call
  create_setup_key body s =
      call api.setup_key_of (record { id = ""; key = "" }) (post_setup_key body) s
