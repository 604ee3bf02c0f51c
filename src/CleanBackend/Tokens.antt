-- ===== src/CleanBackend/Tokens.antt =====
-- src/08_production/clean_backend: internal/tokenutil/tokenutil.go and
-- api/middleware/jwt_auth_middleware.go.
use grin_with_golang.CleanBackend.{
  Str, Result, ok, err, User, Claims, ClaimValue, text, other_value, Method, hmac, other_method,
  Token, Libraries, Message, error_text, not_authorized, [], Option, ℕ,
}
use grin_with_golang.Prelude.{
  List, ◌∷◌, Option, [], none, not, some, ℕ, ◌+◌, ◌*◌, ◌==◌, if◌then◌else◌,
}

-- "id"
abbrev pub id_key : Str
id_key = 105 ∷ 100 ∷ []

-- "invalid token"
abbrev pub invalid_token : Str
invalid_token = 105 ∷ 110 ∷ 118 ∷ 97 ∷ 108 ∷ 105 ∷ 100 ∷ 32 ∷ 116 ∷ 111 ∷ 107 ∷ 101 ∷ 110 ∷ []

-- The function that `IsAuthorized` and `ExtractIDFromToken` give to `jwt.Parse`; `none` is its
-- error, whose text is left out.
abbrev pub key_of : Str → Method → Option Str
key_of secret hmac = some secret
key_of secret other_method = none

-- `claims["id"].(string)`, where a missing or other claim is a panic
unfoldable pub id_claim : Option (ClaimValue) → Option (Result Str)
id_claim none = none
id_claim (some (text s)) = some (ok s)
id_claim (some other_value) = none

-- `!ok && !token.Valid`, then the claim; the claims of a failed assertion are a nil map.
unfoldable pub id_of_token : Token → Option (Result Str)
id_of_token token = elim token.claims [
  | some claims ↦ id_claim (claims id_key)
  | none ↦ if not token.valid then some (err invalid_token) else none
]

-- `strings.Split(s, " ")`
unfoldable pub split_space : Str → List Str
split_space [] = [] ∷ []
split_space (b ∷ bs) =
    let rest = split_space bs in
    if b == 32
    then [] ∷ rest
    else elim rest [ [] ↦ (b ∷ []) ∷ [] | part ∷ parts ↦ (b ∷ part) ∷ parts ]

-- What the middleware does: pass the request on with the user's identifier, answer 401, or panic.
pub data Passage : Type 0 where
  next : Str → Passage
  unauthorized : Message → Passage
  panicked : Passage

module _ (lib : Libraries) where
  unfoldable pub create_access_token : ℕ → User → Str → ℕ → Result Str
  create_access_token now user secret expiry =
      let claims : Claims = record {
        name = some user.name;
        id = lib.hex user.id;
        expires_at = now + 3600 * expiry;
      } in
      lib.sign claims secret

  unfoldable pub create_refresh_token : ℕ → User → Str → ℕ → Result Str
  create_refresh_token now user secret expiry =
      let claims : Claims = record {
        name = none;
        id = lib.hex user.id;
        expires_at = now + 3600 * expiry;
      } in
      lib.sign claims secret

  -- the error, if the token is not accepted
  unfoldable pub is_authorized : ℕ → Str → Str → Option Str
  is_authorized now request_token secret = elim (lib.parse now request_token (key_of secret)) [
    | ok _ ↦ none
    | err e ↦ some e
  ]

  unfoldable pub extract_id_from_token : ℕ → Str → Str → Option (Result Str)
  extract_id_from_token now request_token secret =
      elim (lib.parse now request_token (key_of secret)) [
        | ok token ↦ id_of_token token
        | err e ↦ some (err e)
      ]

  -- the middleware once the header has two parts; the token is parsed twice, at two times
  unfoldable pub check_token : ℕ → ℕ → Str → Str → Passage
  check_token now later token secret = elim (is_authorized now token secret) [
    | some e ↦ unauthorized (error_text e)
    | none ↦ elim (extract_id_from_token later token secret) [
      | none ↦ panicked
      | some (err e) ↦ unauthorized (error_text e)
      | some (ok user_id) ↦ next user_id
    ]
  ]

  unfoldable pub jwt_auth_middleware : Str → ℕ → ℕ → Str → Passage
  jwt_auth_middleware secret now later header = elim (split_space header) [
    | _ ∷ token ∷ [] ↦ check_token now later token secret
    | _ ↦ unauthorized not_authorized
  ]
