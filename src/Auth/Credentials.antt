-- ===== src/Auth/Credentials.antt =====
-- What a token proves, as one list of attempts, and JWTOrTokenAuth against it.
use tr_engine.Common.{
  Bool, ◌&&◌, not, Option, none, some, [], Text, bytes, ◌≡◌, refl, inl, inr, if◌then◌else◌, ◌==◌,
  nat_comparable, text_comparable, Bool-cases, Option-cases, ℕ, List, ◌∷◌, length, ◌+◌, ◌<◌, arith,
  is_some, ◌∙◌,
}
use tr_engine.Common.Split.{split, push_byte}
use tr_engine.Common.Slices.{has_prefix}
use tr_engine.Auth.Requests.{
  Request, Reply, Handler, AuthContext, Claims, ApiKey, ParseJwt, ResolveKey, unauthorized,
  set_auth_context, extract_bearer_token, atoi_or_zero, count_char, after_prefix,
}
use tr_engine.Auth.Middleware.{
  AuthConfig, is_blank, claims_of, key_of, owner_or_zero, by_jwt, by_api_key, by_legacy_token,
  jwt_or_token_auth,
}

-- The first of two attempts that succeeds.
abbrev pub first {ℓ} : {A : Type ℓ} → Option A → Option A → Option A
first (some a) o = some a
first none o = o

abbrev pub from_claims : Option Claims → Option AuthContext
from_claims none = none
from_claims (some c) = some (record {
  user_id = atoi_or_zero c.subject;
  username = c.username;
  role = c.role;
  auth_type = bytes "jwt";
})

abbrev pub from_key : Option ApiKey → Option AuthContext
from_key none = none
from_key (some k) = some (record {
  user_id = owner_or_zero k.user_id;
  username = k.label;
  role = k.role;
  auth_type = bytes "api_key";
})

-- A configured token that is the one provided stands for a role.
abbrev pub from_token : Text → Text → Text → Option AuthContext
from_token role token provided =
    if not (is_blank token) && provided == token
    then some (record { user_id = 0; username = []; role = role; auth_type = bytes "token" })
    else none

-- A JWT has three parts between its dots and is tried where user login is on.
abbrev pub jwt_claims : ParseJwt → Text → Text → Option Claims
jwt_claims parse secret provided =
    if is_blank secret
    then none
    else if length (split 46 provided) == 3
    then parse secret provided
    else none

-- An API key starts with `tre_`.
abbrev pub known_key : Option ResolveKey → Text → Option ApiKey
known_key none provided = none
known_key (some resolve) provided =
    if has_prefix provided (bytes "tre_") then resolve provided else none

length-push_byte :
    (c : ℕ) (rest : List Text) → 0 < length rest → length (push_byte c rest) ≡ length rest
length-push_byte c [] h = absurd (omega (arith, h))
length-push_byte c (s ∷ rest) h = refl

-- One part more than dots.
length-split : (c : ℕ) (t : Text) → length (split c t) ≡ count_char c t + 1
unfolding split count_char
length-split c [] = refl
length-split c (d ∷ t) = elim (Bool-cases (d == c)) [
  | inl e ↦ rw e (omega (arith, length-split c t))
  | inr e ↦
      rw e (length-push_byte d (split c t) (omega (arith, length-split c t)) ∙ length-split c t)
]

claims_of-jwt_claims :
    (parse : ParseJwt) (secret provided : Text)
    → claims_of parse secret provided ≡ jwt_claims parse secret provided
claims_of-jwt_claims parse secret provided = rw (length-split 46 provided) (ground (arith))

after_prefix-has_prefix : (prefix s : Text) → is_some (after_prefix prefix s) ≡ has_prefix s prefix
unfolding after_prefix has_prefix
after_prefix-has_prefix [] s = refl
after_prefix-has_prefix (c ∷ prefix) [] = refl
after_prefix-has_prefix (c ∷ prefix) (d ∷ s) = ground (arith, after_prefix-has_prefix prefix s)

key_of-known_key :
    (keys : Option ResolveKey) (provided : Text) → key_of keys provided ≡ known_key keys provided
key_of-known_key none provided = refl
key_of-known_key (some resolve) provided = rw (after_prefix-has_prefix (bytes "tre_") provided) refl

-- What a token that is not empty proves.
abbrev pub proved : ParseJwt → AuthConfig → Option ResolveKey → Text → Option AuthContext
proved parse cfg keys provided = first (from_claims (jwt_claims parse cfg.jwt_secret provided)) (
    first (from_key (known_key keys provided)) (
      first (from_token (bytes "admin") cfg.write_token provided)
        (from_token (bytes "viewer") cfg.auth_token provided)))

-- A token proves the claims of a valid JWT, else the role of an API key, else the admin role if it
-- is the write token, else the viewer role if it is the read token. The empty token proves nothing.
abbrev pub credential : ParseJwt → AuthConfig → Option ResolveKey → Text → Option AuthContext
credential parse cfg keys provided =
    if is_blank provided then none else proved parse cfg keys provided

-- Nothing is configured: every request passes.
abbrev pub is_open : AuthConfig → Bool
is_open cfg = is_blank cfg.jwt_secret && (is_blank cfg.write_token && is_blank cfg.auth_token)

-- The next handler sees the caller in the context of the request.
abbrev pub pass_as : Handler → Request → Option AuthContext → Reply
pass_as next r none = unauthorized
pass_as next r (some a) = next (record r { auth = some a })

module _ (parse : ParseJwt) (cfg : AuthConfig) (keys : Option ResolveKey) (next : Handler)
    (r : Request) where
  by_legacy_token-pass_as :
      (provided : Text)
      → by_legacy_token cfg next r provided
        ≡ pass_as next r (
            first
              (from_token (bytes "admin") cfg.write_token provided)
              (from_token (bytes "viewer") cfg.auth_token provided))
  unfolding by_legacy_token set_auth_context
  by_legacy_token-pass_as provided =
      elim (Bool-cases (not (is_blank cfg.write_token) && provided == cfg.write_token)) [
        | inl e ↦ rw e refl
        | inr e ↦ elim (Bool-cases (not (is_blank cfg.auth_token) && provided == cfg.auth_token)) [
          | inl f ↦ rw (e, f) refl
          | inr f ↦ rw (e, f) refl
        ]
      ]

  by_api_key-pass_as :
      (provided : Text)
      → by_api_key cfg keys next r provided
        ≡ pass_as next r (
            first (from_key (known_key keys provided)) (
              first
                (from_token (bytes "admin") cfg.write_token provided)
                (from_token (bytes "viewer") cfg.auth_token provided)))
  unfolding by_api_key set_auth_context
  by_api_key-pass_as provided =
      rw (← key_of-known_key keys provided) (elim (Option-cases (key_of keys provided)) [
        | inl e ↦ rw (e, by_api_key) (by_legacy_token-pass_as provided)
        | inr (k, e) ↦ rw (e, by_api_key)
      ])

  by_jwt-pass_as :
      (provided : Text)
      → by_jwt parse cfg keys next r provided ≡ pass_as next r (proved parse cfg keys provided)
  unfolding by_jwt set_auth_context
  by_jwt-pass_as provided =
      rw (← claims_of-jwt_claims parse cfg.jwt_secret provided)
        (elim (Option-cases (claims_of parse cfg.jwt_secret provided)) [
          | inl e ↦ rw (e, by_jwt) (by_api_key-pass_as provided)
          | inr (c, e) ↦ rw (e, by_jwt)
        ])

-- JWTOrTokenAuth passes a request on unchanged if nothing is configured. Else it passes it on with
-- the first thing its token proves of these: a valid JWT, of three parts and with user login on; a
-- known API key, of the prefix `tre_`; the write token; the read token. It refuses the request with
-- 401 if the token proves none of them or is empty.
pub jwt_or_token_auth-pass_as :
    (parse : ParseJwt) (cfg : AuthConfig) (keys : Option ResolveKey) (next : Handler) (r : Request)
    → jwt_or_token_auth parse cfg keys next r ≡ (
        if is_open cfg
        then next r
        else pass_as next r (credential parse cfg keys (extract_bearer_token r)))
unfolding jwt_or_token_auth
jwt_or_token_auth-pass_as parse cfg keys next r = elim (Bool-cases (is_open cfg)) [
  | inl e ↦ rw e refl
  | inr e ↦ elim (Bool-cases (is_blank (extract_bearer_token r))) [
    | inl f ↦ rw (e, f) refl
    | inr f ↦ rw (e, f) (by_jwt-pass_as parse cfg keys next r (extract_bearer_token r))
  ]
]
