-- ===== src/Auth/Writes.antt =====
-- Who may write over the authenticated routes.
use tr_engine.Common.{
  ◌≤◌, Bool, true, false, ◌&&◌, not, Option, none, some, [], ◌∷◌, Text, bytes, ◌≡◌, refl, sym, ◌∙◌,
  ap, subst, inl, inr, if◌then◌else◌, leb, ◌==◌, nat_comparable, text_comparable, Bool-cases,
  Option-cases, arith,
}
use mathlib.Core.Option.{some-injective}
use tr_engine.Common.Slices.{has_prefix}
use tr_engine.Auth.Requests.{
  Request, Reply, Handler, AuthContext, ApiKey, ParseJwt, ResolveKey, refused, unauthorized,
  extract_bearer_token, context_role, role_level,
}
use tr_engine.Auth.Middleware.{
  AuthConfig, is_blank, is_read_method, write_without_role, write_with_role, write_auth, api_auth,
}
use tr_engine.Auth.Credentials.{
  first, from_key, known_key, from_token, proved, credential, is_open, pass_as,
  jwt_or_token_auth-pass_as,
}

-- The table of API keys has keys of the three roles only.
abbrev pub KnownRoles : Option ResolveKey → Type 0
KnownRoles none = Unit {0}
KnownRoles (some resolve) = (t : Text) (k : ApiKey) → resolve t ≡ some k → 1 ≤ role_level k.role

abbrev pub Forbidden : Reply → Type 0
Forbidden reply = (message : Text) × (reply ≡ refused 403 message)

-- Without a credential 401; with one the role decides between the next handler and 403.
abbrev pub Verdict : Handler → Request → Option AuthContext → Reply → Type 0
Verdict next r none reply = reply ≡ unauthorized
Verdict next r (some a) reply =
    if leb 2 (role_level a.role) then reply ≡ next (record r { auth = some a }) else Forbidden reply

no_role_level : role_level [] ≡ 0
unfolding role_level
no_role_level = refl

editor_level : role_level (bytes "editor") ≡ 2
unfolding role_level
editor_level = refl

-- A role of some level is not empty.
blank_level : (role : Text) → is_blank role ≡ true → role_level role ≡ 0
blank_level [] h = no_role_level
blank_level (c ∷ s) h = absurd (cc (h))

known_key-level :
    (keys : Option ResolveKey) (provided : Text) (k : ApiKey)
    → KnownRoles keys
    → known_key keys provided ≡ some k
    → 1 ≤ role_level k.role
known_key-level none provided k known e = absurd (cc (e))
known_key-level (some resolve) provided k known e =
    elim (Bool-cases (has_prefix provided (bytes "tre_"))) [
      | inl f ↦ known provided k (rw f at e)
      | inr f ↦ absurd (cc (rw f at e))
    ]

from_token-role :
    (role token provided : Text) (a : AuthContext)
    → from_token role token provided ≡ some a
    → a.role ≡ role
from_token-role role token provided a e =
    elim (Bool-cases (not (is_blank token) && provided == token)) [
      | inl f ↦ ap AuthContext.role (sym (some-injective _ _ (rw f at e)))
      | inr f ↦ absurd (cc (rw f at e))
    ]

admin_level : role_level (bytes "admin") ≡ 3
unfolding role_level
admin_level = refl

viewer_level : role_level (bytes "viewer") ≡ 1
unfolding role_level
viewer_level = refl

tokens_level :
    (cfg : AuthConfig) (provided : Text) (a : AuthContext)
    → first
        (from_token (bytes "admin") cfg.write_token provided)
        (from_token (bytes "viewer") cfg.auth_token provided)
      ≡ some a
    → 1 ≤ role_level a.role
tokens_level cfg provided a e =
    elim (Option-cases (from_token (bytes "admin") cfg.write_token provided)) [
      | inr (b, f) ↦
          let same : b ≡ a = some-injective _ _ (rw f at e) in
          rw (← same, from_token-role (bytes "admin") cfg.write_token provided b f)
            (omega (arith, admin_level))
      | inl f ↦
          rw (from_token-role (bytes "viewer") cfg.auth_token provided a (rw f at e))
            (omega (arith, viewer_level))
    ]

keys_level :
    (cfg : AuthConfig) (keys : Option ResolveKey) (provided : Text) (a : AuthContext)
    → KnownRoles keys
    → first (from_key (known_key keys provided)) (
        first
          (from_token (bytes "admin") cfg.write_token provided)
          (from_token (bytes "viewer") cfg.auth_token provided))
      ≡ some a
    → 1 ≤ role_level a.role
keys_level cfg keys provided a known e = elim (Option-cases (known_key keys provided)) [
  | inr (k, f) ↦
      let same : k.role ≡ a.role = ap AuthContext.role (some-injective _ _ (rw f at e)) in
      rw (← same) (known_key-level keys provided k known f)
  | inl f ↦ tokens_level cfg provided a (rw f at e)
]

-- With user login off every credential has a role.
proved_level :
    (parse : ParseJwt) (cfg : AuthConfig) (keys : Option ResolveKey) (provided : Text)
    (a : AuthContext)
    → KnownRoles keys
    → is_blank cfg.jwt_secret ≡ true
    → proved parse cfg keys provided ≡ some a
    → 1 ≤ role_level a.role
proved_level parse cfg keys provided a known off e =
    keys_level cfg keys provided a known (rw off at e)

credential_level :
    (parse : ParseJwt) (cfg : AuthConfig) (keys : Option ResolveKey) (provided : Text)
    (a : AuthContext)
    → KnownRoles keys
    → is_blank cfg.jwt_secret ≡ true
    → credential parse cfg keys provided ≡ some a
    → 1 ≤ role_level a.role
credential_level parse cfg keys provided a known off e = elim (Bool-cases (is_blank provided)) [
  | inl f ↦ absurd (cc (rw f at e))
  | inr f ↦ proved_level parse cfg keys provided a known off (rw f at e)
]

-- WriteAuth on a write by a caller with the context `a`.
write_with_role-Verdict :
    (next : Handler) (r : Request) (a : AuthContext)
    → Verdict next r (some a) (write_with_role next (record r { auth = some a }))
unfolding write_with_role context_role
write_with_role-Verdict next r a = elim (Bool-cases (leb 2 (role_level a.role))) [
  | inl e ↦ rw (editor_level, e) refl
  | inr e ↦ rw (editor_level, e) (_, refl)
]

open_test : (w a j : Bool) → (j && (w && a)) ≡ false → (w && a && not (not j)) ≡ false
open_test w a j h = ground (arith, h)

login_message : Text
login_message = bytes "write operations require login with editor or admin role"

module _ (cfg : AuthConfig) (next : Handler) (r : Request) (a : AuthContext) where
  abbrev gate : Reply
  gate =
      write_auth cfg.write_token cfg.auth_token (not (is_blank cfg.jwt_secret)) next
        (record r { auth = some a })

  gate-role :
      is_open cfg ≡ false
      → is_read_method r.http_method ≡ false
      → is_blank a.role ≡ false
      → gate ≡ write_with_role next (record r { auth = some a })
  unfolding write_auth context_role
  gate-role shut write role =
      rw
        (
          open_test (is_blank cfg.write_token) (is_blank cfg.auth_token) (is_blank cfg.jwt_secret)
              shut,
          write,
          role,
        )
        refl

  gate-no_role :
      is_open cfg ≡ false
      → is_read_method r.http_method ≡ false
      → is_blank a.role ≡ true
      → is_blank cfg.jwt_secret ≡ false
      → gate ≡ refused 403 login_message
  unfolding write_auth context_role write_without_role login_message
  gate-no_role shut write role login =
      rw
        (
          open_test (is_blank cfg.write_token) (is_blank cfg.auth_token) (is_blank cfg.jwt_secret)
              shut,
          write,
          role,
          login,
        )
        refl

  gate-Verdict :
      is_open cfg ≡ false
      → is_read_method r.http_method ≡ false
      → (is_blank cfg.jwt_secret ≡ true → 1 ≤ role_level a.role)
      → Verdict next r (some a) gate
  gate-Verdict shut write known = elim (Bool-cases (is_blank a.role)) [
    | inr role ↦
        subst (Verdict next r (some a)) (sym (gate-role shut write role))
          (write_with_role-Verdict next r a)
    | inl role ↦ elim (Bool-cases (is_blank cfg.jwt_secret)) [
      | inl off ↦ absurd (omega (arith, known off, blank_level a.role role))
      | inr login ↦
          subst (Verdict next r (some a)) (sym (gate-no_role shut write role login))
            (rw (blank_level a.role role) (login_message, refl))
    ]
  ]

api_auth-pass_as :
    (parse : ParseJwt) (cfg : AuthConfig) (keys : Option ResolveKey) (next : Handler) (r : Request)
    → cfg.auth_enabled ≡ true
    → is_open cfg ≡ false
    → api_auth parse cfg keys next r
      ≡ pass_as
          (write_auth cfg.write_token cfg.auth_token (not (is_blank cfg.jwt_secret)) next)
          r
          (credential parse cfg keys (extract_bearer_token r))
unfolding api_auth
api_auth-pass_as parse cfg keys next r on shut =
    rw on refl
    ∙ jwt_or_token_auth-pass_as parse cfg keys
        (write_auth cfg.write_token cfg.auth_token (not (is_blank cfg.jwt_secret)) next) r
    ∙ rw shut refl

-- On the authenticated routes, with authentication enabled and a secret or token configured: a write
-- without a valid credential is refused with 401; with one it reaches the handler if the role is
-- editor or admin, as that caller, and is refused with 403 otherwise. The keys in the database have
-- known roles.
pub api_auth-Verdict :
    (parse : ParseJwt) (cfg : AuthConfig) (keys : Option ResolveKey) (next : Handler) (r : Request)
    → cfg.auth_enabled ≡ true
    → is_open cfg ≡ false
    → is_read_method r.http_method ≡ false
    → KnownRoles keys
    → Verdict next r
        (credential parse cfg keys (extract_bearer_token r))
        (api_auth parse cfg keys next r)
api_auth-Verdict parse cfg keys next r on shut write known =
    subst (Verdict next r (credential parse cfg keys provided))
      (sym (api_auth-pass_as parse cfg keys next r on shut))
      (by_credential (credential parse cfg keys provided) refl)
  where
    provided : Text
    provided = extract_bearer_token r

    by_credential :
        (o : Option AuthContext)
        → credential parse cfg keys provided ≡ o
        → Verdict next r o (
            pass_as
              (write_auth cfg.write_token cfg.auth_token (not (is_blank cfg.jwt_secret)) next)
              r
              o)
    by_credential none e = refl
    by_credential (some a) e =
        gate-Verdict cfg next r a shut write
          λ off. credential_level parse cfg keys provided a known off e
