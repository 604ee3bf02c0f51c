-- ===== src/CleanBackend/Access.antt =====
-- Who gets past the middleware of src/08_production/clean_backend.
use grin_with_golang.CleanBackend.{
  Str, Result, ok, err, User, ObjectId, Claims, ClaimValue, text, other_value, Method, hmac,
  other_method, Token, Libraries, ℕ, GoMap, Message, error_text, List, not_authorized,
}
use grin_with_golang.CleanBackend.Tokens.{
  next, unauthorized, panicked, Passage, key_of, id_key, split_space, check_token,
  jwt_auth_middleware, is_authorized, extract_id_from_token, id_of_token, id_claim,
  create_access_token, invalid_token,
}
use grin_with_golang.Prelude.{
  ◌∷◌, ◌≡◌, Option, [], ap, arith, false, inl, inr, none, refl, some, suc, ℕ, ◌+◌, ◌*◌, ◌<◌, ◌≢◌,
  ◌⊎◌, ◌++◌, ◌==◌, get_elem?, Bool-cases, Option-cases, List,
}

-- A token that parses with an identifier.
pub record ParsesAs (lib : Libraries) (now : ℕ) (t : Str) (key : Method → Option Str) (id : Str)
    : Type 0 where
  pub token : Token
  pub claims : GoMap Str ClaimValue
  pub accepted : lib.parse now t key ≡ ok token
  pub claims_of : token.claims ≡ some claims
  pub id_of : claims id_key ≡ some (text id)

-- What the JWT library documents of the tokens that it signs: they parse under the same secret
-- until they expire, with their claims, and they are base64 text, without spaces.
pub record JwtLaws (lib : Libraries) : Type 0 where
  pub signed_parses :
      (claims : Claims) (secret t : Str) (now : ℕ) (id : ObjectId) (key : Method → Option Str)
      → lib.sign claims secret ≡ ok t
      → claims.id ≡ lib.hex id
      → now < claims.expires_at
      → key hmac ≡ some secret
      → ParsesAs lib now t key claims.id
  pub signed_no_space :
      (claims : Claims) (secret t : Str)
      → lib.sign claims secret ≡ ok t
      → (i : ℕ) → get_elem? t i ≢ some 32

-- "Bearer "
abbrev pub bearer : Str
bearer = 66 ∷ 101 ∷ 97 ∷ 114 ∷ 101 ∷ 114 ∷ 32 ∷ []

pub split_space-one : (t : Str) → ((i : ℕ) → get_elem? t i ≢ some 32) → split_space t ≡ t ∷ []
unfolding split_space
split_space-one [] h = refl
split_space-one (b ∷ bs) h =
    let rest = split_space-one bs (λ i. h (suc i)) in
    let here = h 0 in
    let other : b ≢ 32 = λ e. here (ap some e) in
    let test : (b == 32) ≡ false = ground arith in rw (test, rest) refl

pub split_space-bearer :
    (t : Str)
    → ((i : ℕ) → get_elem? t i ≢ some 32)
    → split_space (bearer ++ t) ≡ (66 ∷ 101 ∷ 97 ∷ 114 ∷ 101 ∷ 114 ∷ []) ∷ t ∷ []
unfolding split_space
split_space-bearer t h = rw (split_space-one t h) refl

module _ (lib : Libraries) where
  check_token-accepts :
      (now later : ℕ) (t secret id : Str)
      → ParsesAs lib now t (key_of secret) id
      → ParsesAs lib later t (key_of secret) id
      → check_token lib now later t secret ≡ next id
  unfolding check_token is_authorized extract_id_from_token id_of_token id_claim
  check_token-accepts now later t secret id p q =
      rw
        (
          check_token, is_authorized, extract_id_from_token, p.accepted, q.accepted, q.claims_of,
          q.id_of,
        )
        refl

  -- A bearer token that `CreateAccessToken` has made for a user passes the middleware with the same
  -- secret, as that user, at any time before its expiry.
  pub middleware_accepts :
      (user : User) (secret t : Str) (expiry start now later : ℕ)
      → JwtLaws lib
      → create_access_token lib start user secret expiry ≡ ok t
      → now < start + 3600 * expiry
      → later < start + 3600 * expiry
      → jwt_auth_middleware lib secret now later (bearer ++ t) ≡ next (lib.hex user.id)
  unfolding jwt_auth_middleware create_access_token
  middleware_accepts user secret t expiry start now later laws made p q =
      let claims : Claims = record {
        name = some user.name;
        id = lib.hex user.id;
        expires_at = start + 3600 * expiry;
      } in
      let parts = split_space-bearer t (laws.signed_no_space claims secret t made) in
      let first = laws.signed_parses claims secret t now user.id (key_of secret) made refl p refl in
      let second =
        laws.signed_parses claims secret t later user.id (key_of secret) made refl q refl in
      rw (jwt_auth_middleware, parts)
        (check_token-accepts now later t secret (lib.hex user.id) first second)

  Result-cases : {A : Type 0} (r : Result A) → ((a : A) × (r ≡ ok a)) ⊎ ((e : Str) × (r ≡ err e))
  Result-cases (ok a) = inl (a, refl)
  Result-cases (err e) = inr (e, refl)

  -- what the middleware answers to a token that it does not accept
  abbrev pub IsRefused : Passage → Type 0
  IsRefused r = ((m : Message) × (r ≡ unauthorized m)) ⊎ (r ≡ panicked)

  id_claim_cases :
      (v : Option ClaimValue) → ((id : Str) × (v ≡ some (text id))) ⊎ (id_claim v ≡ none)
  unfolding id_claim
  id_claim_cases none = inr refl
  id_claim_cases (some (text s)) = inl (s, refl)
  id_claim_cases (some other_value) = inr refl

  -- a key function that knows the secret for the HMAC methods and refuses all others
  abbrev pub IsHmacOnly : Str → (Method → Option Str) → Type 0
  IsHmacOnly secret key = (key hmac ≡ some secret) × (key other_method ≡ none)

  -- a token that `jwt.Parse` accepts at both times with such a function, the second time with its
  -- identifier
  abbrev pub IsAccepted : ℕ → ℕ → Str → Str → Str → Type 0
  IsAccepted now later t secret id =
      (key : Method → Option Str) × IsHmacOnly secret key
      × (first : Token) × (lib.parse now t key ≡ ok first)
      × ParsesAs lib later t key id

  check_token_cases :
      (now later : ℕ) (t secret : Str)
      → let r = check_token lib now later t secret in
        ((id : Str) × IsAccepted now later t secret id × (r ≡ next id)) ⊎ IsRefused r
  unfolding check_token is_authorized extract_id_from_token id_of_token id_claim
  check_token_cases now later t secret = elim (Result-cases (lib.parse now t (key_of secret))) [
    | inr (e, h) ↦ inr (inl (error_text e, rw (check_token, is_authorized, h) refl))
    | inl (token1, h) ↦ elim (Result-cases (lib.parse later t (key_of secret))) [
      | inr (e, k) ↦
          inr
            (inl (error_text e, rw (check_token, is_authorized, extract_id_from_token, h, k) refl))
      | inl (token, k) ↦ elim (Option-cases token.claims) [
        | inl missing ↦ elim (Bool-cases token.valid) [
          | inl valid ↦ inr (
              inr
                (rw (check_token, is_authorized, extract_id_from_token, h, k, missing, valid) refl))
          | inr invalid ↦ inr (
              inl (
                error_text invalid_token,
                rw (check_token, is_authorized, extract_id_from_token, h, k, missing, invalid) refl,
              ))
        ]
        | inr (claims, c) ↦ elim (id_claim_cases (claims id_key)) [
          | inr odd ↦
              inr (inr (rw (check_token, is_authorized, extract_id_from_token, h, k, c, odd) refl))
          | inl (id, there) ↦ inl (
            id,
            (
              key_of secret,
              (refl, refl),
              token1,
              h,
              record { token = token; claims = claims; accepted = k; claims_of = c; id_of = there },
            ),
            rw (check_token, is_authorized, extract_id_from_token, h, k, c, there) refl,
          )
        ]
      ]
    ]
  ]

  -- Whatever the header, the middleware passes a request on only if the header has two parts of which
  -- the second is accepted by `jwt.Parse`, at both times, with a key function that gives the secret
  -- for an HMAC method and nothing for another; the identifier passed on is then the "id" claim of the
  -- second parse. In all other cases it refuses the request or panics, and the handler does not run.
  pub middleware_cases :
      (secret header : Str) (now later : ℕ)
      → let r = jwt_auth_middleware lib secret now later header in
        ((scheme : Str) × (t : Str) × (id : Str) × (split_space header ≡ scheme ∷ t ∷ [])
          × IsAccepted now later t secret id
          × (r ≡ next id))
        ⊎ IsRefused r
  unfolding jwt_auth_middleware
  middleware_cases secret header now later = go (split_space header) refl
    where
      go :
          (parts : List Str)
          → split_space header ≡ parts
          → let r = jwt_auth_middleware lib secret now later header in
            ((scheme : Str) × (t : Str) × (id : Str) × (split_space header ≡ scheme ∷ t ∷ [])
              × IsAccepted now later t secret id
              × (r ≡ next id))
            ⊎ IsRefused r
      go [] e = inr (inl (not_authorized, rw (jwt_auth_middleware, e) refl))
      go (a ∷ []) e = inr (inl (not_authorized, rw (jwt_auth_middleware, e) refl))
      go (a ∷ t ∷ []) e = elim (check_token_cases now later t secret) [
        | inl (id, p, r) ↦ inl (a, t, id, e, p, rw (jwt_auth_middleware, e) r)
        | inr (inl (m, r)) ↦ inr (inl (m, rw (jwt_auth_middleware, e) r))
        | inr (inr r) ↦ inr (inr (rw (jwt_auth_middleware, e) r))
      ]
      go (a ∷ b ∷ c ∷ cs) e = inr (inl (not_authorized, rw (jwt_auth_middleware, e) refl))
