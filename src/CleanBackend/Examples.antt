-- ===== src/CleanBackend/Examples.antt =====
-- The routes of src/08_production/clean_backend at concrete users, tokens and tasks.
use grin_with_golang.CleanBackend.{
  Str, ok, err, User, tokens, profile, failure, user_exists, Task, success, TaskRepository,
  task_list, task_created, [], ◌∷◌,
}
use grin_with_golang.CleanBackend.Controllers.{
  login, signup, issue, get_profile, refresh_token, post_task, get_tasks,
}
use grin_with_golang.CleanBackend.Tokens.{
  create_access_token, create_refresh_token, jwt_auth_middleware, next, split_space,
  extract_id_from_token,
}
use grin_with_golang.CleanBackend.Mongo.{insert_one}
use grin_with_golang.CleanBackend.Repositories.{
  get_by_email, get_by_id, user_repository-RepositoryLaws, task_repository, create,
}
use grin_with_golang.CleanBackend.Tasks.{post_task-get_tasks}
use grin_with_golang.CleanBackend.Access.{
  bearer, middleware_accepts, middleware_cases, IsRefused, IsAccepted,
}
use grin_with_golang.CleanBackend.Signup.{
  RepositoryLaws, signup-login_profile, refresh_token_renews,
}
use grin_with_golang.CleanBackend.Concrete.{
  plain-SigningLaws, access, ann, ann_user, env, plain, plain-BcryptLaws, plain-JwtLaws, refresh,
  task_collection, task_collection-TaskCollectionLaws, user_collection,
  user_collection-UserCollectionLaws, users,
}
use grin_with_golang.Prelude.{
  ◌∷◌, refl, List, [], ap, arith, none, some, ◌≡◌, ◌≢◌, ◌⊎◌, ◌++◌, get_or,
}

abbrev repository_laws : RepositoryLaws plain users
repository_laws =
    user_repository-RepositoryLaws plain user_collection user_collection-UserCollectionLaws
      (λ id. refl)

address_free : users.get_by_email [] ann.email ≡ err []
unfolding get_by_email
address_free = refl

ann_known : users.get_by_id (ann_user ∷ []) (5 ∷ []) ≡ ok ann_user
unfolding get_by_id
ann_known = refl

stored : users.create [] ann_user ≡ some (ann_user ∷ [], none)
unfolding create insert_one
stored = refl

user_repository-RepositoryLaws_example : RepositoryLaws plain users
user_repository-RepositoryLaws_example =
    user_repository-RepositoryLaws plain user_collection user_collection-UserCollectionLaws
      (λ id. refl)

-- a write that the driver fails without a result, as for the identifier 9 here
failed_write_panics : signup plain env users [] (ok ann) (9 ∷ []) [] 100 101 ≡ none
unfolding signup get_by_email create insert_one
failed_write_panics = refl

access_made : create_access_token plain 100 ann_user (1 ∷ []) 2 ≡ ok access
unfolding create_access_token
access_made = refl

refresh_made : create_refresh_token plain 101 ann_user (2 ∷ 2 ∷ []) 168 ≡ ok refresh
unfolding create_refresh_token
refresh_made = refl

middleware_accepts_example :
    jwt_auth_middleware plain (1 ∷ []) 200 201 (bearer ++ access) ≡ next (5 ∷ [])
middleware_accepts_example =
    middleware_accepts plain ann_user (1 ∷ []) access 2 100 200 201 plain-JwtLaws access_made
      (omega arith) (omega arith)

middleware_cases_example :
    let r = jwt_auth_middleware plain (1 ∷ []) 9000 9001 (bearer ++ access) in
    ((scheme : Str) × (t : Str) × (id : Str) × (split_space (bearer ++ access) ≡ scheme ∷ t ∷ [])
      × IsAccepted plain 9000 9001 t (1 ∷ []) id
      × (r ≡ next id))
    ⊎ IsRefused plain r
middleware_cases_example = middleware_cases plain (1 ∷ []) (bearer ++ access) 9000 9001

signup-login_profile_example :
    (signup plain env users [] (ok ann) (5 ∷ []) [] 100 101
      ≡ some (ann_user ∷ [], tokens 200 access refresh))
    × (login plain env users
          (ann_user ∷ [])
          (ok (record { email = 97 ∷ 64 ∷ []; password = 7 ∷ 8 ∷ [] }))
          200
          201
        ≡ issue plain env 200 201 ann_user)
    × (signup plain env users (ann_user ∷ []) (ok ann) (6 ∷ []) [] 200 201
        ≡ some (ann_user ∷ [], failure 409 user_exists))
    × (get_profile plain env users (ann_user ∷ []) 200 201 (bearer ++ access)
        ≡ some (profile 200 (65 ∷ []) (97 ∷ 64 ∷ [])))
signup-login_profile_example =
    signup-login_profile plain env users [] (ann_user ∷ []) ann ann (5 ∷ []) (6 ∷ []) [] []
      (7 ∷ 8 ∷ []) [] access refresh 100 101 plain-JwtLaws plain-BcryptLaws repository_laws
      address_free refl stored access_made refresh_made refl 200 201 (omega arith) (omega arith)

refresh_token_renews_example :
    (access' : Str) × (refresh' : Str) × (refresh_token plain env users
        (ann_user ∷ [])
        (ok refresh)
        7000
        7001
        7002
      ≡ some (tokens 200 access' refresh'))
    × (jwt_auth_middleware plain env.access_secret 7100 7101 (bearer ++ access') ≡ next (5 ∷ []))
    × (extract_id_from_token plain 9000 refresh' env.refresh_secret ≡ some (ok (5 ∷ [])))
refresh_token_renews_example =
    refresh_token_renews plain env users (ann_user ∷ []) ann_user refresh 101 7000 7001 7002 7100
      7101 9000 plain-JwtLaws plain-SigningLaws refresh_made (omega arith) ann_known (omega arith)
      (omega arith) (omega arith)

abbrev bob_user : User
bob_user = record { id = 6 ∷ []; name = 66 ∷ []; email = 98 ∷ 64 ∷ []; password = 9 ∷ [] }

abbrev bob_access : Str
bob_access = 7333 ∷ 34 ∷ 39 ∷ []

bob_access_made : create_access_token plain 100 bob_user (1 ∷ []) 2 ≡ ok bob_access
unfolding create_access_token
bob_access_made = refl

abbrev ann_task : Task
ann_task = record { id = 3 ∷ []; title = 84 ∷ []; user_id = 5 ∷ [] }

-- a request that names identifiers of its own
abbrev forged : Task
forged = record { id = 1 ∷ []; title = 84 ∷ []; user_id = 6 ∷ [] }

abbrev task_repo : TaskRepository (List Task)
task_repo = task_repository plain task_collection

post_task-get_tasks_example :
    (post_task plain env task_repo [] 200 201 (bearer ++ access) (ok forged) (3 ∷ [])
      ≡ some (ann_task ∷ [], success 200 task_created))
    × ((before after : List Task) × (get_tasks plain env task_repo
            (ann_task ∷ [])
            202
            203
            (bearer ++ access)
          ≡ some (task_list 200 (before ++ ann_task ∷ after))))
    × (get_tasks plain env task_repo (ann_task ∷ []) 202 203 (bearer ++ bob_access)
        ≡ get_tasks plain env task_repo [] 202 203 (bearer ++ bob_access))
post_task-get_tasks_example =
    post_task-get_tasks plain env task_collection task_collection-TaskCollectionLaws []
      (ann_task ∷ []) ann_user bob_user forged access bob_access (3 ∷ []) (3 ∷ [])
      (some (ann_task ∷ [])) (some []) (some []) 100 200 201 202 203 plain-JwtLaws (λ id. refl)
      access_made bob_access_made apart refl (ann_task ∷ [], refl, refl) ([], refl, refl)
      ([], refl, refl) (omega arith) (omega arith) (omega arith) (omega arith)
  where
    apart : bob_user.id ≢ ann_user.id
    apart e = let heads = ap (λ xs. get_or xs 0 0) e in omega arith
