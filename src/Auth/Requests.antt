-- ===== src/Auth/Requests.antt =====
-- Requests, replies and tokens. A header, a parameter or a form field that is missing is the empty
-- text, as `Get` and `FormValue` of net/http give it.
use tr_engine.Common.{
  ℕ, Bool, true, ◌&&◌, Option, none, some, [], ◌∷◌, Text, bytes, if◌then◌else◌, leb, ◌==◌,
  nat_comparable, text_comparable, ◌+◌,
}
use tr_engine.Common.Decimal.{number_from}

-- What `setAuthContext` puts in the context of a request.
pub record AuthContext : Type 0 where
  pub user_id : ℕ
  pub username : Text
  pub role : Text
  pub auth_type : Text

-- `form` is `none` if the form of the request cannot be read.
pub record Request : Type 0 where
  pub http_method : Text
  pub authorization : Text
  pub token_query : Text
  pub form : Option (Text → Text)
  pub auth : Option AuthContext

pub data Reply : Type 0 where
  served : Request → Reply
  refused : ℕ → Text → Reply

abbrev pub Handler : Type 0
Handler = Request → Reply

abbrev pub unauthorized : Reply
unauthorized = refused 401 (bytes "unauthorized")

abbrev pub role_in : Option AuthContext → Text
role_in none = []
role_in (some a) = a.role

unfoldable pub context_role : Request → Text
context_role r = role_in r.auth

abbrev pub user_in : Option AuthContext → ℕ
user_in none = 0
user_in (some a) = a.user_id

unfoldable pub context_user_id : Request → ℕ
context_user_id r = user_in r.auth

unfoldable pub set_auth_context : Request → ℕ → Text → Text → Text → Request
set_auth_context r user_id username role auth_type = record r {
  auth =
      some (record { user_id = user_id; username = username; role = role; auth_type = auth_type });
}

-- `strings.HasPrefix`, with the text behind the prefix.
unfoldable pub after_prefix : Text → Text → Option Text
after_prefix [] s = some s
after_prefix (c ∷ prefix) [] = none
after_prefix (c ∷ prefix) (d ∷ s) = if c == d then after_prefix prefix s else none

abbrev pub bearer_or_query : Text → Option Text → Text
bearer_or_query query (some token) = token
bearer_or_query query none = query

unfoldable pub extract_bearer_token : Request → Text
unfolding after_prefix
extract_bearer_token r =
    bearer_or_query r.token_query (after_prefix (bytes "Bearer ") r.authorization)

-- `strings.Count` of one character.
unfoldable pub count_char : ℕ → Text → ℕ
count_char c [] = 0
count_char c (d ∷ s) = if d == c then count_char c s + 1 else count_char c s

abbrev pub all_numeric : Text → Bool
all_numeric [] = true
all_numeric (c ∷ s) = leb b'0' c && leb c b'9' && all_numeric s

-- `strconv.Atoi` of a subject as the server writes it: no sign, in the range of int. Any other text
-- counts as 0.
unfoldable pub atoi_or_zero : Text → ℕ
unfolding number_from
atoi_or_zero s = if all_numeric s then number_from 0 s else 0

unfoldable pub role_level : Text → ℕ
role_level role =
    if role == bytes "viewer"
    then 1
    else if role == bytes "editor"
    then 2
    else if role == bytes "admin"
    then 3
    else 0

pub record Claims : Type 0 where
  pub subject : Text
  pub username : Text
  pub role : Text

pub record ApiKey : Type 0 where
  pub user_id : Option ℕ
  pub label : Text
  pub role : Text

-- `jwt.ParseWithClaims` under a secret: the claims of a valid token.
abbrev pub ParseJwt : Type 0
ParseJwt = Text → Text → Option Claims

-- `ResolveAPIKey`: `none` is an error or no key.
abbrev pub ResolveKey : Type 0
ResolveKey = Text → Option ApiKey
