-- ===== src/CleanBackend/Repositories.antt =====
-- src/08_production/clean_backend/repository: users and tasks in collections of the database.
use grin_with_golang.CleanBackend.{
  Str, ObjectId, Result, ok, err, User, Task, Libraries, UserRepository, TaskRepository, Option,
  Bool, List, ◌≡◌,
}
use mathlib.Core.Option.{some-injective, none-ne-some}
use grin_with_golang.CleanBackend.Mongo.{
  Collection, Filter, every, by_email, by_id, by_user_id, insert_one,
}
use grin_with_golang.CleanBackend.Signup.{RepositoryLaws}
use grin_with_golang.Prelude.{
  ◌≡◌, Bool, List, Option, [], ap, ap₂, false, inl, inr, none, some, true, ◌∙◌, ◌>>=◌, Option-cases,
}

module _ {D C Doc : Type 0} (coll : Collection D C Doc) where
  -- `InsertOne`, of which only the error is kept
  unfoldable pub create : D → Doc → Option (D × Option Str)
  create db doc = insert_one coll db doc >>= λ r. some (r.0, r.2)

  -- `Find` and `All`, with an empty slice in place of nil
  unfoldable pub fetch : D → Filter → Bool → List Doc × Option Str
  fetch db filter hidden = elim (coll.find db filter hidden) [
    | err e ↦ ([], some e)
    | ok cursor ↦ let r = coll.all cursor in elim r.0 [ none ↦ ([], r.1) | some docs ↦ (docs, r.1) ]
  ]

module _ {D C : Type 0} (lib : Libraries) (users : Collection D C User) where
  unfoldable pub get_by_email : D → Str → Result User
  get_by_email db email = users.find_one db (by_email email)

  unfoldable pub get_by_id : D → Str → Result User
  get_by_id db id = elim (lib.from_hex id) [
    | err e ↦ err e
    | ok oid ↦ users.find_one db (by_id oid)
  ]

  -- `Fetch` of the users, without their passwords
  unfoldable pub fetch_users : D → List User × Option Str
  fetch_users db = fetch users db every true

  abbrev pub user_repository : UserRepository D
  user_repository = record {
    create = create users;
    get_by_email = get_by_email;
    get_by_id = get_by_id;
  }

module _ {D C : Type 0} (lib : Libraries) (tasks : Collection D C Task) where
  unfoldable pub fetch_by_user_id : D → Str → List Task × Option Str
  fetch_by_user_id db user_id = elim (lib.from_hex user_id) [
    | err e ↦ ([], some e)
    | ok owner ↦ fetch tasks db (by_user_id owner) false
  ]

  abbrev pub task_repository : TaskRepository D
  task_repository = record { create = create tasks; fetch_by_user_id = fetch_by_user_id }

-- What the driver documents of users: an inserted one is found by its identifier, and by its address
-- if no other had that.
pub record UserCollectionLaws {D C : Type 0} (users : Collection D C User) : Type 0 where
  pub inserted_by_id :
      (db db' : D) (user : User) (id : ObjectId)
      → users.insert db user ≡ (db', some id, none)
      → users.find_one db' (by_id user.id) ≡ ok user
  pub inserted_by_email :
      (db db' : D) (user : User) (id : ObjectId) (e : Str)
      → users.insert db user ≡ (db', some id, none)
      → users.find_one db (by_email user.email) ≡ err e
      → users.find_one db' (by_email user.email) ≡ ok user

module _ {D C Doc : Type 0} (coll : Collection D C Doc) where
  pub create-inserted :
      (db db' : D) (doc : Doc)
      → create coll db doc ≡ some (db', none)
      → (id : ObjectId) × (coll.insert db doc ≡ (db', some id, none))
  unfolding create insert_one
  create-inserted db db' doc h =
      let r = coll.insert db doc in
      elim (Option-cases r.1) [
        | inl nothing ↦
            let e = rw (create, insert_one, nothing) at h in absurd (none-ne-some (db', none) e)
        | inr (id, p) ↦
            let q = some-injective _ _ (rw (create, insert_one, p) at h) in
            (
              id,
              ap (λ o. (r.0, o, r.2)) p
                  ∙ ap₂ (λ x y. (x, some id, y)) (ap (λ t. t.0) q) (ap (λ t. t.1) q),
            )
      ]

module _ {D C : Type 0} (lib : Libraries) (users : Collection D C User) where
  -- The repository over the collection of the database keeps what the sign-up relies on: given the
  -- documented behaviour of the driver and of object identifiers, a user that `Create` has stored
  -- without an error is found by `GetByID` under its identifier, and by `GetByEmail` under its address
  -- if none was found there before.
  pub user_repository-RepositoryLaws :
      UserCollectionLaws users
      → ((id : ObjectId) → lib.from_hex (lib.hex id) ≡ ok id)
      → RepositoryLaws lib (user_repository lib users)
  unfolding get_by_email get_by_id
  user_repository-RepositoryLaws laws hexes = record {
    found_by_email = λ db db' user e free stored.
        let (id, done) = create-inserted users db db' user stored in
        laws.inserted_by_email db db' user id e done free;
    found_by_id = λ db db' user stored.
        let (id, done) = create-inserted users db db' user stored in
        let hex = hexes user.id in rw (get_by_id, hex) (laws.inserted_by_id db db' user id done);
  }
