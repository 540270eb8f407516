-- ===== src/Auth/Uploads.antt =====
-- Who may upload, and the plain bearer tokens.
use tr_engine.Common.{
  Bool, true, false, ◌&&◌, ◌||◌, not, Option, none, some, List, [], ◌∷◌, Text, bytes, ◌≡◌, ◌≢◌, ◌⊎◌,
  ◌↔◌, refl, ◌∙◌, inl, inr, if◌then◌else◌, ◌==◌, nat_comparable, text_comparable, Bool-cases, arith,
  is_some,
}
use tr_engine.Common.Bytes.{text_same_iff}
use tr_engine.Auth.Requests.{
  Request, Handler, ApiKey, ResolveKey, served, unauthorized, extract_bearer_token,
}
use tr_engine.Auth.Middleware.{
  is_blank, key_of, token_or_key, field_accepts, form_matches, upload_auth_with_keys,
}

-- A value that is the upload token, or an API key that the database knows, whatever its role.
abbrev pub Accepted : Text → Option ResolveKey → Text → Type 0
Accepted token keys val =
    ((token ≢ []) × (val ≡ token)) ⊎ ((k : ApiKey) × (key_of keys val ≡ some k))

-- What the request offers: its bearer token and the two form fields.
abbrev pub fields_of : Option (Text → Text) → List Text
fields_of none = []
fields_of (some form) = form (bytes "key") ∷ form (bytes "api_key") ∷ []

abbrev pub offered : Request → List Text
offered r = extract_bearer_token r ∷ fields_of r.form

abbrev pub AnyAccepted : Text → Option ResolveKey → List Text → Type 0
AnyAccepted token keys [] = ⊥
AnyAccepted token keys (val ∷ vals) =
    ((val ≢ []) × Accepted token keys val) ⊎ AnyAccepted token keys vals

is_some_iff {ℓ} : {A : Type ℓ} (o : Option A) → (is_some o ≡ true) ↔ ((a : A) × (o ≡ some a))
is_some_iff none = (λ h. absurd (cc (h)), λ h. absurd (cc (h.1)))
is_some_iff (some a) = (λ h. (a, refl), λ h. refl)

abbrev accepts : Text → Option ResolveKey → Text → Bool
accepts token keys val = not (is_blank val) && token_or_key token keys val

accepts_iff :
    (token : Text) (keys : Option ResolveKey) (val : Text)
    → (accepts token keys val ≡ true) ↔ ((val ≢ []) × Accepted token keys val)
accepts_iff token keys [] = (λ h. absurd (cc (h)), λ h. absurd (h.0 refl))
accepts_iff [] keys (c ∷ s) =
    let known = is_some_iff (key_of keys (c ∷ s)) in
    (λ h. (λ e. cc, inr (known.0 h)), λ h. from_right h.1 known.1)
  where
    from_right :
        Accepted [] keys (c ∷ s)
        → ((k : ApiKey) × (key_of keys (c ∷ s) ≡ some k) → is_some (key_of keys (c ∷ s)) ≡ true)
        → is_some (key_of keys (c ∷ s)) ≡ true
    from_right (inl a) f = absurd (a.0 refl)
    from_right (inr a) f = f a
accepts_iff (d ∷ t) keys (c ∷ s) = (λ h. (λ e. cc, found h), λ h. tested h.1)
  where
    val : Text
    val = c ∷ s

    found : token_or_key (d ∷ t) keys val ≡ true → Accepted (d ∷ t) keys val
    found h = elim (Bool-cases (val == d ∷ t)) [
      | inl e ↦ inl (λ f. cc, (text_same_iff val (d ∷ t)).0 e)
      | inr e ↦ inr ((is_some_iff (key_of keys val)).0 (rw e at h))
    ]

    tested : Accepted (d ∷ t) keys val → token_or_key (d ∷ t) keys val ≡ true
    tested (inl a) = rw ((text_same_iff val (d ∷ t)).1 a.1) refl
    tested (inr (k, e)) = elim (Bool-cases (val == d ∷ t)) [
      | inl f ↦ rw f refl
      | inr f ↦ rw (f, e) refl
    ]

field_accepts-accepts :
    (token : Text) (keys : Option ResolveKey) (val : Text)
    → field_accepts token keys val ≡ accepts token keys val
field_accepts-accepts token keys [] = refl
field_accepts-accepts token keys (c ∷ s) =
    or_comm (is_some (key_of keys (c ∷ s))) (not (is_blank token) && c ∷ s == token)
  where
    or_comm : (a b : Bool) → (a || b) ≡ (b || a)
    or_comm a b = ground arith

or_iff {ℓ κ} :
    {P : Type ℓ} {Q : Type κ} (a b : Bool)
    → (a ≡ true) ↔ P
    → (b ≡ true) ↔ Q
    → ((a || b) ≡ true) ↔ (P ⊎ Q)
or_iff {P = P} {Q = Q} true b p q = (λ h. inl (p.0 refl), λ h. refl)
or_iff {P = P} {Q = Q} false b p q = (λ h. inr (q.0 h), back)
  where
    back : P ⊎ Q → b ≡ true
    back (inl h) = absurd (cc (p.1 h))
    back (inr h) = q.1 h

any_accepts : Text → Option ResolveKey → List Text → Bool
any_accepts token keys [] = false
any_accepts token keys (val ∷ vals) = accepts token keys val || any_accepts token keys vals

any_accepts_iff :
    (token : Text) (keys : Option ResolveKey) (vals : List Text)
    → (any_accepts token keys vals ≡ true) ↔ AnyAccepted token keys vals
unfolding any_accepts
any_accepts_iff token keys [] = (λ h. absurd (cc (h)), λ h. absurd h)
any_accepts_iff token keys (val ∷ vals) =
    or_iff (accepts token keys val) (any_accepts token keys vals) (accepts_iff token keys val)
      (any_accepts_iff token keys vals)

form_matches-any :
    (token : Text) (keys : Option ResolveKey) (form : Option (Text → Text))
    → form_matches (field_accepts token keys) form ≡ any_accepts token keys (fields_of form)
unfolding any_accepts
form_matches-any token keys none = refl
form_matches-any token keys (some form) =
    rw
      (
        field_accepts-accepts token keys (form (bytes "key")),
        field_accepts-accepts token keys (form (bytes "api_key")),
      )
      (or_false _ _)
  where
    or_false : (a b : Bool) → (a || b) ≡ (a || (b || false))
    or_false a b = ground arith

upload_reply :
    (token : Text) (keys : Option ResolveKey) (next : Handler) (r : Request)
    → (is_blank token && not (is_some keys)) ≡ false
    → upload_auth_with_keys token keys next r
      ≡ (if any_accepts token keys (offered r) then next r else unauthorized)
unfolding upload_auth_with_keys any_accepts
upload_reply token keys next r shut =
    rw (shut, form_matches-any token keys r.form)
      (two_tests (accepts token keys (extract_bearer_token r))
        (any_accepts token keys (fields_of r.form)))
  where
    two_tests :
        (a b : Bool)
        → (if a then next r else if b then next r else unauthorized)
          ≡ (if a || b then next r else unauthorized)
    two_tests true b = refl
    two_tests false b = refl

-- UploadAuthWithKeys with a token or a key table configured: the upload passes exactly when the
-- request offers, as bearer token or in one of the two form fields, a value that is not empty and
-- is the upload token or a known API key of any role; every other upload is refused with 401.
pub upload_auth_with_keys_iff :
    (token : Text) (keys : Option ResolveKey) (r : Request)
    → (is_blank token && not (is_some keys)) ≡ false
    → ((upload_auth_with_keys token keys served r ≡ served r) ↔ AnyAccepted token keys (offered r))
      × ((upload_auth_with_keys token keys served r ≡ served r)
          ⊎ (upload_auth_with_keys token keys served r ≡ unauthorized))
upload_auth_with_keys_iff token keys r shut =
    let e = upload_reply token keys served r shut in
    let any = any_accepts_iff token keys (offered r) in
    elim (Bool-cases (any_accepts token keys (offered r))) [
      | inl f ↦
          let passes : upload_auth_with_keys token keys served r ≡ served r = e ∙ rw f refl in
          ((λ h. any.0 f, λ h. passes), inl passes)
      | inr f ↦
          let refuses : upload_auth_with_keys token keys served r ≡ unauthorized = e ∙ rw f refl in
          ((λ h. absurd (cc (h, refuses)), λ h. absurd (cc (any.1 h, f))), inr refuses)
    ]
