-- ===== src/CleanBackend.antt =====
-- The domain of src/08_production/clean_backend and the libraries that it calls.
-- A Go string is a list of bytes. The JWT, bcrypt and BSON libraries and the database are parameters,
-- as is the source's own interface of the user repository.
pub mod Tokens
pub mod Mongo
pub mod Repositories
pub mod Controllers
pub mod Access
pub mod Signup
pub mod Tasks
mod Concrete
mod Examples
use grin_with_golang.Prelude.{
  List, ℕ, Option, Bool, [], ap, append-nil, append_assoc, ap₂, arith, bit_and, bit_or, dec_le,
  dec_lt, false, fun_ext, inl, inr, map, max, min, none, not, refl, some, subst, suc, sym, true,
  zero, ℕ_discrete, ◌+◌, ◌-◌, ◌*◌, ◌/◌, ◌%◌, ◌^◌, ◌≤◌, ◌<◌, ◌≡◌, ◌≢◌, ◌↔◌, ◌⊎◌, ◌∙◌, ◌&&◌, ◌||◌,
  ◌∷◌, ◌++◌, ◌==◌, ◌>>=◌, if◌then◌else◌, ltb, leb, length, get_elem?, get_or, set, store, replicate,
  Bool-cases, Option-cases, length-append, length-set, length-replicate, get_or-set,
  get_elem?-get_or,
}
use grin_with_golang.Prelude.Maps.{GoMap}

abbrev pub Str : Type 0
Str = List ℕ

-- `primitive.ObjectID`, its bytes
abbrev pub ObjectId : Type 0
ObjectId = List ℕ

-- a value or an error, of which only the text is used
pub data Result (A : Type 0) : Type 0 where
  ok : A → Result A
  err : Str → Result A

pub record User : Type 0 where
  pub id : ObjectId
  pub name : Str
  pub email : Str
  pub password : Str

-- `JwtCustomClaims`, and `JwtCustomRefreshClaims`, which has no name
pub record Claims : Type 0 where
  pub name : Option Str
  pub id : Str
  pub expires_at : ℕ

-- a claim of a parsed token: JSON text, or anything else
pub data ClaimValue : Type 0 where
  text : Str → ClaimValue
  other_value : ClaimValue

-- a token's signing method, as far as the type test on `*jwt.SigningMethodHMAC` tells
pub data Method : Type 0 where
  hmac : Method
  other_method : Method

-- A parsed token; `none` for claims that are not `jwt.MapClaims`.
pub record Token : Type 0 where
  pub claims : Option (GoMap Str ClaimValue)
  pub valid : Bool

pub record Libraries : Type 0 where
  -- `ObjectID.Hex` and `ObjectIDFromHex`
  pub hex : ObjectId → Str
  pub from_hex : Str → Result ObjectId
  -- `NewWithClaims` with HS256 and `SignedString`
  pub sign : Claims → Str → Result Str
  -- `jwt.Parse` at a time, in seconds, with the function that finds the key or refuses the method
  pub parse : ℕ → Str → (Method → Option Str) → Result Token
  -- `bcrypt.GenerateFromPassword`, with the random salt
  pub generate : Str → Str → Result Str
  -- `bcrypt.CompareHashAndPassword` returns no error
  pub compare_hash : Str → Str → Bool

-- `domain.UserRepository` without `Fetch`, over the states of a database: a refused write returns the
-- error's text, and `none` is a panic
pub record UserRepository (D : Type 0) : Type 0 where
  pub create : D → User → Option (D × Option Str)
  pub get_by_email : D → Str → Result User
  pub get_by_id : D → Str → Result User

pub record Task : Type 0 where
  pub id : ObjectId
  pub title : Str
  pub user_id : ObjectId

-- `domain.TaskRepository`; a fetch returns the tasks and an error
pub record TaskRepository (D : Type 0) : Type 0 where
  pub create : D → Task → Option (D × Option Str)
  pub fetch_by_user_id : D → Str → List Task × Option Str

-- the secrets and lifetimes of `bootstrap.Env`, lifetimes in hours
pub record Env : Type 0 where
  pub access_secret : Str
  pub access_expiry : ℕ
  pub refresh_secret : Str
  pub refresh_expiry : ℕ

-- the texts of `ErrorResponse` and `SuccessResponse`
pub data Message : Type 0 where
  error_text : Str → Message
  user_not_found_by_email : Message
  user_not_found : Message
  user_exists : Message
  invalid_credentials : Message
  not_authorized : Message
  task_created : Message

-- the status and the JSON body of a response
pub data Response : Type 0 where
  failure : ℕ → Message → Response
  tokens : ℕ → Str → Str → Response
  profile : ℕ → Str → Str → Response
  success : ℕ → Message → Response
  task_list : ℕ → List Task → Response
