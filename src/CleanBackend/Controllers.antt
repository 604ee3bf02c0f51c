-- ===== src/CleanBackend/Controllers.antt =====
-- The controllers of src/08_production/clean_backend/api/controller, with the use cases of usecase/
-- that they call: those hand each call on to the repository or to tokenutil, under a time limit that
-- the repository keeps.
use grin_with_golang.CleanBackend.{
  Str, Result, ok, err, User, ObjectId, Libraries, UserRepository, Env, Response, failure, tokens,
  profile, error_text, user_not_found_by_email, user_not_found, user_exists, invalid_credentials, ℕ,
  TaskRepository, success, task_list, task_created, List, Task,
}
use grin_with_golang.CleanBackend.Tokens.{
  create_access_token, create_refresh_token, extract_id_from_token, jwt_auth_middleware, next,
  unauthorized, panicked,
}
use grin_with_golang.Prelude.{Option, none, some, ℕ, if◌then◌else◌, ◌>>=◌, List}

-- What `ShouldBind` reads is an argument: a request, or the error of its validation.
pub record LoginRequest : Type 0 where
  pub email : Str
  pub password : Str

pub record SignupRequest : Type 0 where
  pub name : Str
  pub email : Str
  pub password : Str

module _ (lib : Libraries) (env : Env) where
  -- the end of Login, Signup and RefreshToken, at the times of the two tokens
  unfoldable pub issue : ℕ → ℕ → User → Response
  issue now later user =
      elim (create_access_token lib now user env.access_secret env.access_expiry) [
        | err e ↦ failure 500 (error_text e)
        | ok access ↦
            elim (create_refresh_token lib later user env.refresh_secret env.refresh_expiry) [
              | err e ↦ failure 500 (error_text e)
              | ok refresh ↦ tokens 200 access refresh
            ]
      ]

  module _ {D : Type 0} (repo : UserRepository D) where
    unfoldable pub login : D → Result LoginRequest → ℕ → ℕ → Response
    login db (err e) now later = failure 400 (error_text e)
    login db (ok request) now later = elim (repo.get_by_email db request.email) [
      | err e ↦ failure 404 user_not_found_by_email
      | ok user ↦
          if lib.compare_hash user.password request.password
          then issue now later user
          else failure 401 invalid_credentials
    ]

    -- with the new object identifier and the salt; `none` is a panic of the repository
    unfoldable pub signup :
        D → Result SignupRequest → ObjectId → Str → ℕ → ℕ → Option (D × Response)
    signup db (err e) id salt now later = some (db, failure 400 (error_text e))
    signup db (ok request) id salt now later = elim (repo.get_by_email db request.email) [
      | ok _ ↦ some (db, failure 409 user_exists)
      | err _ ↦ elim (lib.generate salt request.password) [
        | err e ↦ some (db, failure 500 (error_text e))
        | ok encrypted ↦ do
          let user : User = record {
            id = id;
            name = request.name;
            email = request.email;
            password = encrypted;
          }
          created ← repo.create db user
          some (elim created.1 [
            | some e ↦ (created.0, failure 500 (error_text e))
            | none ↦ (created.0, issue now later user)
          ])
      ]
    ]

    -- `none` is the panic of a token without an identifier
    unfoldable pub refresh_token : D → Result Str → ℕ → ℕ → ℕ → Option Response
    refresh_token db (err e) start now later = some (failure 400 (error_text e))
    refresh_token db (ok token) start now later =
        elim (extract_id_from_token lib start token env.refresh_secret) [
          | none ↦ none
          | some (err e) ↦ some (failure 401 user_not_found)
          | some (ok id) ↦ elim (repo.get_by_id db id) [
            | err e ↦ some (failure 401 user_not_found)
            | ok user ↦ some (issue now later user)
          ]
        ]

    -- `GetProfileByID` of the use case: the name and the address
    unfoldable pub get_profile_by_id : D → Str → Result (Str × Str)
    get_profile_by_id db user_id = elim (repo.get_by_id db user_id) [
      | err e ↦ err e
      | ok user ↦ ok (user.name, user.email)
    ]

    -- `ProfileController.Fetch`, for the identifier of the middleware
    unfoldable pub fetch_profile : D → Str → Response
    fetch_profile db user_id = elim (get_profile_by_id db user_id) [
      | err e ↦ failure 500 (error_text e)
      | ok (name, email) ↦ profile 200 name email
    ]

    -- GET /profile: the middleware, then the handler; `none` is a panic
    unfoldable pub get_profile : D → ℕ → ℕ → Str → Option Response
    get_profile db now later header =
        elim (jwt_auth_middleware lib env.access_secret now later header) [
          | next user_id ↦ some (fetch_profile db user_id)
          | unauthorized message ↦ some (failure 401 message)
          | panicked ↦ none
        ]

  -- the task controller, for the identifier of the middleware
  module _ {D : Type 0} (repo : TaskRepository D) where
    -- With the task that `ShouldBind` fills from the request, whose identifiers are overwritten, and the
    -- new object identifier.
    unfoldable pub create_task : D → Result Task → Str → ObjectId → Option (D × Response)
    create_task db (err e) user_id id = some (db, failure 400 (error_text e))
    create_task db (ok request) user_id id = elim (lib.from_hex user_id) [
      | err e ↦ some (db, failure 400 (error_text e))
      | ok owner ↦ do
        created ← repo.create db (record request { id = id; user_id = owner })
        some (elim created.1 [
          | some e ↦ (created.0, failure 500 (error_text e))
          | none ↦ (created.0, success 200 task_created)
        ])
    ]

    -- the answer to what the repository returns
    unfoldable pub tasks_response : List Task × Option Str → Response
    tasks_response fetched = elim fetched.1 [
      | some e ↦ failure 500 (error_text e)
      | none ↦ task_list 200 fetched.0
    ]

    unfoldable pub fetch_tasks : D → Str → Response
    fetch_tasks db user_id = tasks_response (repo.fetch_by_user_id db user_id)

    -- POST and GET /task: the middleware, then the handler
    unfoldable pub post_task : D → ℕ → ℕ → Str → Result Task → ObjectId → Option (D × Response)
    post_task db now later header request id =
        elim (jwt_auth_middleware lib env.access_secret now later header) [
          | next user_id ↦ create_task db request user_id id
          | unauthorized message ↦ some (db, failure 401 message)
          | panicked ↦ none
        ]

    unfoldable pub get_tasks : D → ℕ → ℕ → Str → Option Response
    get_tasks db now later header =
        elim (jwt_auth_middleware lib env.access_secret now later header) [
          | next user_id ↦ some (fetch_tasks db user_id)
          | unauthorized message ↦ some (failure 401 message)
          | panicked ↦ none
        ]
