-- ===== src/CleanBackend/Signup.antt =====
-- From a signup to a login, a profile and the refresh of the tokens.
use grin_with_golang.CleanBackend.{
  Str, ok, err, User, ObjectId, Libraries, UserRepository, Env, tokens, profile, ◌≡◌, ℕ, failure,
  user_exists, Claims,
}
use grin_with_golang.CleanBackend.Controllers.{
  login, signup, issue, get_profile, SignupRequest, fetch_profile, get_profile_by_id, refresh_token,
}
use grin_with_golang.CleanBackend.Tokens.{
  create_access_token, create_refresh_token, extract_id_from_token, id_of_token, id_claim, key_of,
  jwt_auth_middleware, next,
}
use grin_with_golang.CleanBackend.Access.{ParsesAs, JwtLaws, bearer, middleware_accepts}
use grin_with_golang.Prelude.{◌≡◌, none, refl, some, true, ℕ, ◌+◌, ◌*◌, ◌<◌, ◌++◌}

-- What bcrypt documents: a hash compares equal to the password that it was made from.
pub record BcryptLaws (lib : Libraries) : Type 0 where
  pub hash_compares :
      (salt password hash : Str)
      → lib.generate salt password ≡ ok hash
      → lib.compare_hash hash password ≡ true

-- What the JWT library documents of HS256 with a secret of bytes: signing string claims has no error.
pub record SigningLaws (lib : Libraries) : Type 0 where
  pub signs : (claims : Claims) (secret : Str) → (t : Str) × (lib.sign claims secret ≡ ok t)

-- What the repository promises: a user that it has stored, under an address that had none, is found
-- by the address and by the identifier.
pub record RepositoryLaws {D : Type 0} (lib : Libraries) (repo : UserRepository D) : Type 0 where
  pub found_by_email :
      (db db' : D) (user : User) (e : Str)
      → repo.get_by_email db user.email ≡ err e
      → repo.create db user ≡ some (db', none)
      → repo.get_by_email db' user.email ≡ ok user
  pub found_by_id :
      (db db' : D) (user : User)
      → repo.create db user ≡ some (db', none)
      → repo.get_by_id db' (lib.hex user.id) ≡ ok user

module _ (lib : Libraries) (env : Env) {D : Type 0} (repo : UserRepository D) where
  abbrev pub registered : SignupRequest → ObjectId → Str → User
  registered request id hash = record {
    id = id;
    name = request.name;
    email = request.email;
    password = hash;
  }

  issued :
      (now later : ℕ) (user : User) (access refresh : Str)
      → create_access_token lib now user env.access_secret env.access_expiry ≡ ok access
      → create_refresh_token lib later user env.refresh_secret env.refresh_expiry ≡ ok refresh
      → issue lib env now later user ≡ tokens 200 access refresh
  unfolding issue
  issued now later user access refresh p q = rw (issue, p, q) refl

  signed_up :
      (db db' : D) (request : SignupRequest) (id : ObjectId) (salt hash e : Str) (now later : ℕ)
      → let user = registered request id hash in
        repo.get_by_email db request.email ≡ err e
        → lib.generate salt request.password ≡ ok hash
        → repo.create db user ≡ some (db', none)
        → signup lib env repo db (ok request) id salt now later
          ≡ some (db', issue lib env now later user)
  unfolding signup
  signed_up db db' request id salt hash e now later free hashed stored =
      rw (signup, free, hashed, stored) refl

  -- A signup under an address without a user, where hashing, the write and the signing of the tokens
  -- succeed, answers 200 with the tokens. Afterwards a login with the same address and password is
  -- answered as the issue of tokens for that user, a second signup under the address is refused with
  -- 409 and leaves the database as it is, and a request of the profile with the access token, at any
  -- time before its expiry, is answered 200 with the name and the address of the signup.
  pub signup-login_profile :
      (db db' : D) (request again : SignupRequest) (id id' : ObjectId)
      (salt salt' hash e access refresh : Str) (now later : ℕ)
      → JwtLaws lib
      → BcryptLaws lib
      → RepositoryLaws lib repo
      → repo.get_by_email db request.email ≡ err e
      → lib.generate salt request.password ≡ ok hash
      → let user = registered request id hash in
        repo.create db user ≡ some (db', none)
        → create_access_token lib now user env.access_secret env.access_expiry ≡ ok access
        → create_refresh_token lib later user env.refresh_secret env.refresh_expiry ≡ ok refresh
        → again.email ≡ request.email
        → (t1 t2 : ℕ) → t1 < now + 3600 * env.access_expiry
        → t2 < now + 3600 * env.access_expiry
        → (signup lib env repo db (ok request) id salt now later
            ≡ some (db', tokens 200 access refresh))
          × (login lib env repo db'
                (ok (record { email = request.email; password = request.password }))
                t1
                t2
              ≡ issue lib env t1 t2 user)
          × (signup lib env repo db' (ok again) id' salt' t1 t2
              ≡ some (db', failure 409 user_exists))
          × (get_profile lib env repo db' t1 t2 (bearer ++ access)
              ≡ some (profile 200 request.name request.email))
  unfolding login signup get_profile fetch_profile get_profile_by_id
  signup-login_profile db db' request again id id' salt salt' hash e access refresh now later jwt
        bcrypt laws free hashed stored signed signed' same t1 t2 p q =
      let user = registered request id hash in
      let made = signed_up db db' request id salt hash e now later free hashed stored in
      let reply = issued now later user access refresh signed signed' in
      let found = laws.found_by_email db db' user e free stored in
      let by_id = laws.found_by_id db db' user stored in
      let compares = bcrypt.hash_compares salt request.password hash hashed in
      let passes =
        middleware_accepts lib user env.access_secret access env.access_expiry now t1 t2 jwt signed
          p q in
      (
        rw (made, reply) refl,
        rw (login, found, compares) refl,
        rw (signup, same, found) refl,
        rw (get_profile, passes, fetch_profile, get_profile_by_id, by_id) refl,
      )

  parses-extract_id :
      (now : ℕ) (t secret id : Str)
      → ParsesAs lib now t (key_of secret) id
      → extract_id_from_token lib now t secret ≡ some (ok id)
  unfolding extract_id_from_token id_of_token id_claim
  parses-extract_id now t secret id p =
      rw (extract_id_from_token, p.accepted, p.claims_of, p.id_of) refl

  refresh_token-id :
      (user : User) (t : Str) (start now : ℕ)
      → JwtLaws lib
      → create_refresh_token lib start user env.refresh_secret env.refresh_expiry ≡ ok t
      → now < start + 3600 * env.refresh_expiry
      → extract_id_from_token lib now t env.refresh_secret ≡ some (ok (lib.hex user.id))
  unfolding create_refresh_token
  refresh_token-id user t start now jwt made p =
      let claims : Claims = record {
        name = none;
        id = lib.hex user.id;
        expires_at = start + 3600 * env.refresh_expiry;
      } in
      parses-extract_id now t env.refresh_secret (lib.hex user.id) (
        jwt.signed_parses claims env.refresh_secret t now user.id (key_of env.refresh_secret) made
          refl p refl)

  -- Let signing succeed, as it does under HS256. A refresh token that `CreateRefreshToken` has made for
  -- a user under the refresh secret, sent to the refresh route before its expiry while the repository
  -- finds that user, is answered 200 with a new pair of tokens. Until the new expiries the access token
  -- passes the middleware as the user, and the refresh token is again one of the user.
  pub refresh_token_renews :
      (db : D) (user : User) (t : Str) (start now first second t1 t2 t3 : ℕ)
      → JwtLaws lib
      → SigningLaws lib
      → create_refresh_token lib start user env.refresh_secret env.refresh_expiry ≡ ok t
      → now < start + 3600 * env.refresh_expiry
      → repo.get_by_id db (lib.hex user.id) ≡ ok user
      → t1 < first + 3600 * env.access_expiry
      → t2 < first + 3600 * env.access_expiry
      → t3 < second + 3600 * env.refresh_expiry
      → (access : Str) × (refresh : Str) × (refresh_token lib env repo db (ok t) now first second
          ≡ some (tokens 200 access refresh))
        × (jwt_auth_middleware lib env.access_secret t1 t2 (bearer ++ access)
            ≡ next (lib.hex user.id))
        × (extract_id_from_token lib t3 refresh env.refresh_secret ≡ some (ok (lib.hex user.id)))
  unfolding refresh_token create_refresh_token create_access_token
  refresh_token_renews db user t start now first second t1 t2 t3 jwt signing made p known p1 p2 p3 =
      let (access, signed) =
        signing.signs
          (record {
            name = some user.name;
            id = lib.hex user.id;
            expires_at = first + 3600 * env.access_expiry;
          })
          env.access_secret in
      let (refresh, signed') =
        signing.signs
          (record {
            name = none;
            id = lib.hex user.id;
            expires_at = second + 3600 * env.refresh_expiry;
          })
          env.refresh_secret in
      let id = refresh_token-id user t start now jwt made p in
      let pair = issued first second user access refresh signed signed' in
      (
        access,
        refresh,
        rw (refresh_token, id, known, pair) refl,
        middleware_accepts lib user env.access_secret access env.access_expiry first t1 t2 jwt
            signed p1 p2,
        refresh_token-id user refresh second t3 jwt signed' p3,
      )
