-- ===== src/Auth/KeyRoles.antt =====
-- A caller makes no key above its own role.
use tr_engine.Common.{
  ◌≤◌, Bool, true, false, Option, none, some, ltb, ◌==◌, ◌≡◌, ◌≢◌, ◌⊎◌, refl, inl, inr,
  nat_comparable, Bool-cases, arith,
}
use tr_engine.Auth.Requests.{Request, context_role, context_user_id, role_level}
use tr_engine.Auth.Middleware.{is_blank}
use tr_engine.Auth.Keys.{
  KeyRequest, NewKey, KeyTable, Answer, create, create_for, created, or_viewer,
}

module _ {ℓ} {D : Type ℓ} (table : KeyTable D) (r : Request) where
  -- One key was asked of the table: the caller's own, of a known role not above the caller's.
  pub record Capped (db : D) (after : D) : Type ℓ where
    pub key : NewKey
    pub stored : after ≡ (table.create_api_key key db).1
    pub own : key.owner ≡ some (context_user_id r)
    pub known : 1 ≤ role_level key.role
    pub capped : role_level key.role ≤ role_level (context_role r)
    pub user : context_user_id r ≢ 0

  -- The answer is an error, and the table is as before.
  pub record Refused (db : D) (a : Answer D) : Type ℓ where
    pub is_error : 400 ≤ a.status
    pub kept : a.db ≡ db

  created-db : (result : Bool × D) → (created table result).db ≡ result.1
  created-db (true, db) = refl
  created-db (false, db) = refl

  create_for_cases :
      (req : KeyRequest) (db : D)
      → context_user_id r ≢ 0
      → Capped db (create_for table r req db).db ⊎ Refused db (create_for table r req db)
  create_for_cases req db user =
      let role = or_viewer req.role in
      elim (Bool-cases (is_blank req.label)) [
        | inl e ↦ inr (rw e (record { is_error = omega arith; kept = refl }))
        | inr e ↦ elim (Bool-cases (ltb (role_level (context_role r)) (role_level role))) [
          | inl f ↦ inr (rw (e, f) (record { is_error = omega arith; kept = refl }))
          | inr f ↦ elim (Bool-cases (role_level role == 0)) [
            | inl g ↦ inr (rw (e, f, g) (record { is_error = omega arith; kept = refl }))
            | inr g ↦ inl (
                rw (e, f, g)
                  (record {
                    key = record {
                      owner = some (context_user_id r);
                      role = role;
                      label = req.label;
                      is_service_account = false;
                    };
                    stored = created-db (table.create_api_key _ db);
                    own = refl;
                    known = ground (arith, g);
                    capped = ground (arith, f);
                    user = user;
                  }))
          ]
        ]
      ]

  -- Create asks the table for at most one key: the caller's own, of a known role that is not above
  -- the caller's. In every other case the answer is an error and the table is as before.
  pub create-Capped :
      (body : Option KeyRequest) (db : D)
      → Capped db (create table r body db).db ⊎ Refused db (create table r body db)
  unfolding create
  create-Capped body db = elim (Bool-cases (context_user_id r == 0)) [
    | inl e ↦ inr (rw e (record { is_error = omega arith; kept = refl }))
    | inr e ↦ by_body body e
  ]
    where
      by_body :
          (b : Option KeyRequest)
          → (context_user_id r == 0) ≡ false
          → Capped db (create table r b db).db ⊎ Refused db (create table r b db)
      by_body none e = inr (rw e (record { is_error = omega arith; kept = refl }))
      by_body (some req) e = rw e (create_for_cases req db (λ z. ground (arith, e, z)))
