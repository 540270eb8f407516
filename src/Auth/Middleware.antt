-- ===== src/Auth/Middleware.antt =====
-- The middlewares, each by the conditions of its handler. `next` is called where the source calls
-- `next.ServeHTTP`.
use tr_engine.Common.{
  ℕ, Bool, true, false, ◌&&◌, ◌||◌, not, Option, none, some, List, [], ◌∷◌, Text, bytes,
  if◌then◌else◌, ltb, leb, ◌==◌, nat_comparable, text_comparable, keep, is_some,
}
use tr_engine.Auth.Requests.{
  Request, Reply, Handler, Claims, ApiKey, ParseJwt, ResolveKey, refused, unauthorized,
  context_role, set_auth_context, after_prefix, extract_bearer_token, count_char, atoi_or_zero,
  role_level,
}

abbrev pub is_blank : Text → Bool
is_blank [] = true
is_blank (c ∷ s) = false

abbrev pub is_api_key : Text → Bool
is_api_key s = is_some (after_prefix (bytes "tre_") s)

-- `valid`, then the loop over it.
unfoldable pub valid_tokens : List Text → List Text
valid_tokens tokens = keep (λ t. not (is_blank t)) tokens

abbrev pub any_token : Text → List Text → Bool
any_token provided [] = false
any_token provided (t ∷ tokens) = provided == t || any_token provided tokens

unfoldable pub bearer_auth : List Text → Handler → Handler
bearer_auth tokens next r =
    let valid = valid_tokens tokens in
    elim valid [
      | [] ↦ next r
      | t ∷ more ↦ if any_token (extract_bearer_token r) (t ∷ more) then next r else unauthorized
    ]

-- The fields "key" and "api_key" in this order, with the test of one value.
abbrev pub field_matches : Text → Text → Bool
field_matches token val = not (is_blank val) && val == token

abbrev pub form_matches : (Text → Bool) → Option (Text → Text) → Bool
form_matches test none = false
form_matches test (some form) = test (form (bytes "key")) || test (form (bytes "api_key"))

unfoldable pub upload_auth : Text → Handler → Handler
upload_auth token next r =
    let provided = extract_bearer_token r in
    if is_blank token
    then next r
    else if not (is_blank provided) && provided == token
    then next r
    else if form_matches (field_matches token) r.form
    then next r
    else unauthorized

-- An API key that the resolver, if there is one, knows.
abbrev pub key_of : Option ResolveKey → Text → Option ApiKey
key_of none provided = none
key_of (some resolve) provided = if is_api_key provided then resolve provided else none

abbrev pub token_or_key : Text → Option ResolveKey → Text → Bool
token_or_key token keys provided =
    not (is_blank token) && provided == token || is_some (key_of keys provided)

-- One field: empty fields are passed over, the key is tried before the token.
abbrev pub field_accepts : Text → Option ResolveKey → Text → Bool
field_accepts token keys val =
    if is_blank val
    then false
    else is_some (key_of keys val) || not (is_blank token) && val == token

unfoldable pub upload_auth_with_keys : Text → Option ResolveKey → Handler → Handler
upload_auth_with_keys token keys next r =
    let provided = extract_bearer_token r in
    if is_blank token && not (is_some keys)
    then next r
    else if not (is_blank provided) && token_or_key token keys provided
    then next r
    else if form_matches (field_accepts token keys) r.form
    then next r
    else unauthorized

-- The settings: `jwt_secret` is empty if user login is off, `auth_enabled` is AUTH_ENABLED.
pub record AuthConfig : Type 0 where
  pub auth_enabled : Bool
  pub jwt_secret : Text
  pub write_token : Text
  pub auth_token : Text

-- The claims of the token, where the JWT path is taken and the token is valid.
abbrev pub claims_of : ParseJwt → Text → Text → Option Claims
claims_of parse secret provided =
    if not (is_blank secret) && count_char 46 provided == 2 then parse secret provided else none

abbrev pub owner_or_zero : Option ℕ → ℕ
owner_or_zero none = 0
owner_or_zero (some id) = id

unfoldable pub by_legacy_token : AuthConfig → Handler → Request → Text → Reply
by_legacy_token cfg next r provided =
    if not (is_blank cfg.write_token) && provided == cfg.write_token
    then next (set_auth_context r 0 [] (bytes "admin") (bytes "token"))
    else if not (is_blank cfg.auth_token) && provided == cfg.auth_token
    then next (set_auth_context r 0 [] (bytes "viewer") (bytes "token"))
    else unauthorized

unfoldable pub by_api_key : AuthConfig → Option ResolveKey → Handler → Request → Text → Reply
by_api_key cfg keys next r provided = elim (key_of keys provided) [
  | some key ↦
      next (set_auth_context r (owner_or_zero key.user_id) key.label key.role (bytes "api_key"))
  | none ↦ by_legacy_token cfg next r provided
]

unfoldable pub by_jwt : ParseJwt → AuthConfig → Option ResolveKey → Handler → Request → Text → Reply
by_jwt parse cfg keys next r provided = elim (claims_of parse cfg.jwt_secret provided) [
  | some claims ↦
      next
        (set_auth_context r (atoi_or_zero claims.subject) claims.username claims.role (bytes "jwt"))
  | none ↦ by_api_key cfg keys next r provided
]

unfoldable pub jwt_or_token_auth : ParseJwt → AuthConfig → Option ResolveKey → Handler → Handler
jwt_or_token_auth parse cfg keys next r =
    let provided = extract_bearer_token r in
    if is_blank cfg.jwt_secret && (is_blank cfg.write_token && is_blank cfg.auth_token)
    then next r
    else if is_blank provided
    then unauthorized
    else by_jwt parse cfg keys next r provided

unfoldable pub editor_or_above : Handler → Handler
editor_or_above next r =
    if ltb (role_level (context_role r)) (role_level (bytes "editor"))
    then refused 403 (bytes "editor or admin access required")
    else next r

unfoldable pub admin_only : Handler → Handler
admin_only next r =
    if ltb (role_level (context_role r)) (role_level (bytes "admin"))
    then refused 403 (bytes "admin access required")
    else next r

unfoldable pub is_read_method : Text → Bool
is_read_method m = m == bytes "GET" || m == bytes "HEAD" || m == bytes "OPTIONS"

-- No role in the context.
unfoldable pub write_without_role : Text → Bool → Handler → Handler
write_without_role write_token jwt_enabled next r =
    if jwt_enabled
    then refused 403 (bytes "write operations require login with editor or admin role")
    else if is_blank write_token
    then refused 403 (bytes "write operations require WRITE_TOKEN")
    else if not (extract_bearer_token r == write_token)
    then refused 403 (bytes "write operations require WRITE_TOKEN")
    else next r

-- A role that the authentication gave.
unfoldable pub write_with_role : Handler → Handler
write_with_role next r =
    if leb (role_level (bytes "editor")) (role_level (context_role r))
    then next r
    else refused 403 (bytes "insufficient permissions for write operations")

unfoldable pub write_auth : Text → Text → Bool → Handler → Handler
write_auth write_token auth_token jwt_enabled next r =
    if is_blank write_token && is_blank auth_token && not jwt_enabled
    then next r
    else if is_read_method r.http_method
    then next r
    else if not (is_blank (context_role r))
    then write_with_role next r
    else write_without_role write_token jwt_enabled next r

-- The middlewares of the authenticated routes, in the order in which server.go installs them; with
-- authentication disabled it installs neither.
unfoldable pub api_auth : ParseJwt → AuthConfig → Option ResolveKey → Handler → Handler
api_auth parse cfg keys next r =
    if cfg.auth_enabled
    then jwt_or_token_auth parse cfg keys
        (write_auth cfg.write_token cfg.auth_token (not (is_blank cfg.jwt_secret)) next) r
    else next r

-- The upload token: the write token, or else the token for reading.
unfoldable pub upload_token : AuthConfig → Text
upload_token cfg = if is_blank cfg.write_token then cfg.auth_token else cfg.write_token
