-- ===== src/Auth/Tests.antt =====
-- Requests against a small configuration.
use tr_engine.Common.{
  true, false, Option, none, some, List, [], ◌∷◌, Text, bytes, ◌≡◌, ◌⊎◌, ◌↔◌, refl, inl, inr,
  if◌then◌else◌, ◌==◌, nat_comparable, text_comparable, Bool-cases, arith,
}
use tr_engine.Auth.Requests.{
  Request, ApiKey, ParseJwt, ResolveKey, served, refused, unauthorized, extract_bearer_token,
  after_prefix, atoi_or_zero, count_char, role_level, context_role, context_user_id,
  set_auth_context,
}
use tr_engine.Auth.Middleware.{
  AuthConfig, valid_tokens, bearer_auth, upload_auth, upload_auth_with_keys, jwt_or_token_auth,
  by_jwt, by_api_key, by_legacy_token, write_auth, write_with_role, write_without_role,
  is_read_method, api_auth, admin_only, editor_or_above, upload_token,
}
use tr_engine.Auth.Credentials.{credential, is_open, pass_as, jwt_or_token_auth-pass_as}
use tr_engine.Auth.Writes.{KnownRoles, Verdict, api_auth-Verdict}
use tr_engine.Auth.Uploads.{AnyAccepted, offered, upload_auth_with_keys_iff}
use tr_engine.Auth.Keys.{KeyRequest, NewKey, KeyTable, create}
use tr_engine.Auth.KeyRoles.{Capped, Refused, create-Capped}

program : Unit {0}
unfolding extract_bearer_token after_prefix atoi_or_zero count_char role_level context_role
    context_user_id set_auth_context valid_tokens bearer_auth upload_auth upload_auth_with_keys
    jwt_or_token_auth by_jwt by_api_key by_legacy_token write_auth write_with_role
    write_without_role is_read_method api_auth admin_only editor_or_above upload_token create
program = tt

abbrev request : Text → Text → Request
request http_method authorization = record {
  http_method = http_method;
  authorization = authorization;
  token_query = [];
  form = none;
  auth = none;
}

-- No token is a valid JWT here.
abbrev no_jwt : ParseJwt
no_jwt secret token = none

abbrev viewer_key : ApiKey
viewer_key = record { user_id = none; label = bytes "display"; role = bytes "viewer" }

-- One key is known, a viewer's.
abbrev one_key : ResolveKey
one_key t = if t == bytes "tre_v" then some viewer_key else none

abbrev cfg : AuthConfig
cfg = record {
  auth_enabled = true;
  jwt_secret = bytes "s";
  write_token = bytes "w";
  auth_token = bytes "a";
}

viewer_level : role_level (bytes "viewer") ≡ 1
unfolding program
viewer_level = refl

one_key-KnownRoles : KnownRoles (some one_key)
one_key-KnownRoles t k e = elim (Bool-cases (t == bytes "tre_v")) [
  | inl f ↦
      let same : viewer_key.role ≡ k.role = ground (arith, e, f) in
      rw (← same, viewer_level) (omega arith)
  | inr f ↦ absurd (cc (rw f at e))
]

post_is_write : is_read_method (bytes "POST") ≡ false
unfolding program
post_is_write = refl

jwt_or_token_auth-pass_as_example :
    jwt_or_token_auth no_jwt cfg (some one_key) served (request (bytes "GET") (bytes "Bearer w"))
    ≡ (if is_open cfg
        then served (request (bytes "GET") (bytes "Bearer w"))
        else pass_as served (request (bytes "GET") (bytes "Bearer w")) (
            credential no_jwt cfg
              (some one_key)
              (extract_bearer_token (request (bytes "GET") (bytes "Bearer w")))))
jwt_or_token_auth-pass_as_example =
    jwt_or_token_auth-pass_as no_jwt cfg (some one_key) served
      (request (bytes "GET") (bytes "Bearer w"))

api_auth-Verdict_example :
    Verdict served
      (request (bytes "POST") (bytes "Bearer tre_v"))
      (credential no_jwt cfg
        (some one_key)
        (extract_bearer_token (request (bytes "POST") (bytes "Bearer tre_v"))))
      (api_auth no_jwt cfg (some one_key) served (request (bytes "POST") (bytes "Bearer tre_v")))
api_auth-Verdict_example =
    api_auth-Verdict no_jwt cfg (some one_key) served
      (request (bytes "POST") (bytes "Bearer tre_v")) refl refl post_is_write one_key-KnownRoles

read_token_may_not_write :
    api_auth no_jwt cfg none served (request (bytes "DELETE") (bytes "Bearer a"))
    ≡ refused 403 (bytes "insufficient permissions for write operations")
unfolding program
read_token_may_not_write = refl

disabled_serves :
    api_auth no_jwt (record cfg { auth_enabled = false }) none served (request (bytes "POST") [])
    ≡ served (request (bytes "POST") [])
unfolding program
disabled_serves = refl

no_token : api_auth no_jwt cfg none served (request (bytes "GET") []) ≡ unauthorized
unfolding program
no_token = refl

upload_auth_with_keys_iff_example :
    ((upload_auth_with_keys
          (bytes "w")
          (some one_key)
          served
          (request (bytes "POST") (bytes "Bearer tre_v"))
        ≡ served (request (bytes "POST") (bytes "Bearer tre_v")))
      ↔ AnyAccepted
          (bytes "w")
          (some one_key)
          (offered (request (bytes "POST") (bytes "Bearer tre_v"))))
    × ((upload_auth_with_keys
            (bytes "w")
            (some one_key)
            served
            (request (bytes "POST") (bytes "Bearer tre_v"))
          ≡ served (request (bytes "POST") (bytes "Bearer tre_v")))
        ⊎ (upload_auth_with_keys
              (bytes "w")
              (some one_key)
              served
              (request (bytes "POST") (bytes "Bearer tre_v"))
            ≡ unauthorized))
upload_auth_with_keys_iff_example =
    upload_auth_with_keys_iff (bytes "w") (some one_key)
      (request (bytes "POST") (bytes "Bearer tre_v")) refl

-- The table is the list of its keys.
abbrev key_list : KeyTable (List NewKey)
key_list = record {
  create_api_key = λ key db. (true, key ∷ db);
  delete_api_key_owned = λ id user db. (false, db);
  delete_api_key = λ id db. (false, db);
}

abbrev by_editor : Request
by_editor = record {
  http_method = bytes "POST";
  authorization = [];
  token_query = [];
  form = none;
  auth = some (record {
    user_id = 7;
    username = bytes "ann";
    role = bytes "editor";
    auth_type = bytes "jwt";
  });
}

abbrev admin_wish : Option KeyRequest
admin_wish = some (record { label = bytes "x"; role = bytes "admin" })

create-Capped_example :
    Capped key_list by_editor [] (create key_list by_editor admin_wish []).db
    ⊎ Refused key_list by_editor [] (create key_list by_editor admin_wish [])
create-Capped_example = create-Capped key_list by_editor admin_wish []

no_higher_key : (create key_list by_editor admin_wish []).status ≡ 403
unfolding program
no_higher_key = refl
