-- ===== src/Auth/Keys.antt =====
-- The handlers of keys.go. `D` is the state of the database; `ListOwn` and `ListAll` only read it
-- and are left out. A body that cannot be decoded is `none`; 201 and 204 carry no text here.
use tr_engine.Common.{
  ℕ, Bool, true, false, Option, none, some, [], Text, bytes, if◌then◌else◌, ltb, ◌==◌,
  nat_comparable,
}
use tr_engine.Auth.Requests.{Request, context_role, context_user_id, role_level}
use tr_engine.Auth.Middleware.{is_blank}

pub record KeyRequest : Type 0 where
  pub label : Text
  pub role : Text

-- The owner, the role, the label, and whether the key is a service account's.
pub record NewKey : Type 0 where
  pub owner : Option ℕ
  pub role : Text
  pub label : Text
  pub is_service_account : Bool

-- Each method tells whether it succeeded.
pub record KeyTable {ℓ} (D : Type ℓ) : Type ℓ where
  pub create_api_key : NewKey → D → Bool × D
  pub delete_api_key_owned : ℕ → ℕ → D → Bool × D
  pub delete_api_key : ℕ → D → Bool × D

-- The status of an answer, its error text, and the state of the database.
pub record Answer {ℓ} (D : Type ℓ) : Type ℓ where
  pub status : ℕ
  pub error : Text
  pub db : D

abbrev pub invalid_role : Text
invalid_role = bytes "invalid role (viewer, editor, admin)"

abbrev pub or_viewer : Text → Text
or_viewer role = if is_blank role then bytes "viewer" else role

module _ {ℓ} {D : Type ℓ} (table : KeyTable D) where
  abbrev pub answer : ℕ → Text → D → Answer D
  answer status error db = record { status = status; error = error; db = db }

  abbrev pub created : Bool × D → Answer D
  created (true, db) = answer 201 [] db
  created (false, db) = answer 500 (bytes "internal error") db

  abbrev pub deleted : Text → Bool × D → Answer D
  deleted error (true, db) = answer 204 [] db
  deleted error (false, db) = answer 404 error db

  abbrev pub create_for : Request → KeyRequest → D → Answer D
  create_for r req db =
      let role = or_viewer req.role in
      if is_blank req.label
      then answer 400 (bytes "label is required") db
      else if ltb (role_level (context_role r)) (role_level role)
      then answer 403 (bytes "cannot create key with higher role than your own") db
      else if role_level role == 0
      then answer 400 invalid_role db
      else created (
          table.create_api_key
            (record {
              owner = some (context_user_id r);
              role = role;
              label = req.label;
              is_service_account = false;
            })
            db)

  unfoldable pub create : Request → Option KeyRequest → D → Answer D
  create r body db =
      if context_user_id r == 0
      then answer 401 (bytes "user authentication required") db
      else elim body [
        | none ↦ answer 400 (bytes "invalid request body") db
        | some req ↦ create_for r req db
      ]

  unfoldable pub delete_own : Request → Option ℕ → D → Answer D
  delete_own r id db =
      if context_user_id r == 0
      then answer 401 (bytes "user authentication required") db
      else elim id [
        | none ↦ answer 400 (bytes "invalid key ID") db
        | some i ↦
            deleted (bytes "key not found or not owned by you")
              (table.delete_api_key_owned i (context_user_id r) db)
      ]

  abbrev pub service_account_for : KeyRequest → D → Answer D
  service_account_for req db =
      let role = or_viewer req.role in
      if is_blank req.label
      then answer 400 (bytes "label is required") db
      else if role_level role == 0
      then answer 400 invalid_role db
      else created (
          table.create_api_key
            (record { owner = none; role = role; label = req.label; is_service_account = true }) db)

  unfoldable pub create_service_account : Option KeyRequest → D → Answer D
  create_service_account body db = elim body [
    | none ↦ answer 400 (bytes "invalid request body") db
    | some req ↦ service_account_for req db
  ]

  unfoldable pub delete_any : Option ℕ → D → Answer D
  delete_any id db = elim id [
    | none ↦ answer 400 (bytes "invalid key ID") db
    | some i ↦ deleted (bytes "key not found") (table.delete_api_key i db)
  ]
