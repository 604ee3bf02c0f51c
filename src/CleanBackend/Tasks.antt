-- ===== src/CleanBackend/Tasks.antt =====
-- Tasks of src/08_production/clean_backend: from a request that makes one to one that lists them, over
-- the collection of the database.
use grin_with_golang.CleanBackend.{
  Str, ObjectId, ok, User, Task, Libraries, Env, success, task_list, task_created, false,
}
use grin_with_golang.CleanBackend.Mongo.{Collection, by_user_id, insert_one}
use grin_with_golang.CleanBackend.Repositories.{task_repository, create, fetch, fetch_by_user_id}
use grin_with_golang.CleanBackend.Controllers.{
  create_task, fetch_tasks, post_task, get_tasks, tasks_response,
}
use grin_with_golang.CleanBackend.Tokens.{create_access_token}
use grin_with_golang.CleanBackend.Access.{JwtLaws, bearer, middleware_accepts}
use grin_with_golang.Prelude.{
  ◌≡◌, List, [], Option, ap, sym, none, refl, some, ℕ, ◌+◌, ◌*◌, ◌<◌, ◌≢◌, ◌∷◌, ◌++◌, ◌∙◌, subst,
  false, ◌>>=◌,
}
use grin_with_golang.Prelude.Filters.{Filters, Filters-middle, Filters-without, Filters-unique}

-- the slice that `All` has filled, where nil has no elements
abbrev pub elements : Option (List Task) → List Task
elements none = []
elements (some docs) = docs

-- a query by user that succeeds, and what it reads
abbrev pub Reads : {D C : Type 0} → Collection D C Task → D → ObjectId → Option (List Task) → Type 0
Reads {C = C} tasks db owner docs =
    (cursor : C) × (tasks.find db (by_user_id owner) false ≡ ok cursor)
    × (tasks.all cursor ≡ (docs, none))

-- What the driver documents of a collection: it holds documents in some order, an insert without an
-- error puts one more among them, and a query reads those that its filter matches.
pub record TaskCollectionLaws {D C : Type 0} (tasks : Collection D C Task) : Type 0 where
  pub contents : D → List Task
  pub inserted :
      (db db' : D) (task : Task) (id : ObjectId)
      → tasks.insert db task ≡ (db', some id, none)
      → (before after : List Task) × (contents db ≡ before ++ after)
        × (contents db' ≡ before ++ task ∷ after)
  pub matched :
      (db : D) (owner : ObjectId) (docs : Option (List Task))
      → Reads tasks db owner docs
      → Filters (λ t. t.user_id ≡ owner) (contents db) (elements docs)

module _ (lib : Libraries) (env : Env) {D C : Type 0} (tasks : Collection D C Task) where
  abbrev filled : Option (List Task) × Option Str → List Task × Option Str
  filled r = elim r.0 [ none ↦ ([], r.1) | some docs ↦ (docs, r.1) ]

  read-fetch :
      (db : D) (owner : ObjectId) (docs : Option (List Task))
      → lib.from_hex (lib.hex owner) ≡ ok owner
      → Reads tasks db owner docs
      → fetch_by_user_id lib tasks db (lib.hex owner) ≡ (elements docs, none)
  unfolding fetch_by_user_id fetch
  read-fetch db owner none hex (cursor, found, all) =
      rw (fetch_by_user_id, hex, fetch, found) (ap filled all)
  read-fetch db owner (some docs) hex (cursor, found, all) =
      rw (fetch_by_user_id, hex, fetch, found) (ap filled all)

  insert-create :
      (db db' : D) (task : Task) (id : ObjectId)
      → tasks.insert db task ≡ (db', some id, none)
      → create tasks db task ≡ some (db', none)
  unfolding create insert_one
  insert-create db db' task id stored =
      let result : D × Option ObjectId × Option Str → Option (D × ObjectId × Option Str) =
        λ r. elim r.1 [ none ↦ none | some i ↦ some (r.0, i, r.2) ] in
      let error : D × ObjectId × Option Str → Option (D × Option Str) = λ r. some (r.0, r.2) in
      ap (λ r. result r >>= error) stored

  -- Given the documented laws of JWT, of object identifiers and of the driver: a request with an
  -- unexpired access token of a user, whose body is valid and whose insert succeeds, is answered 200.
  -- The task that is stored belongs to that user under the new identifier, whatever identifiers
  -- the body names. Where the queries succeed, a request of the user's tasks is answered 200 with a
  -- list that has it, and a request of the tasks of a user with another identifier as before.
  pub post_task-get_tasks :
      (laws : TaskCollectionLaws tasks) (db db' : D) (user other : User) (request : Task)
      (access access' : Str) (id oid : ObjectId) (mine theirs theirs' : Option (List Task))
      (start t1 t2 t3 t4 : ℕ)
      → JwtLaws lib
      → ((id : ObjectId) → lib.from_hex (lib.hex id) ≡ ok id)
      → create_access_token lib start user env.access_secret env.access_expiry ≡ ok access
      → create_access_token lib start other env.access_secret env.access_expiry ≡ ok access'
      → other.id ≢ user.id
      → let task : Task = record { id = id; title = request.title; user_id = user.id } in
        let repo = task_repository lib tasks in
        tasks.insert db task ≡ (db', some oid, none)
        → Reads tasks db' user.id mine
        → Reads tasks db other.id theirs
        → Reads tasks db' other.id theirs'
        → t1 < start + 3600 * env.access_expiry
        → t2 < start + 3600 * env.access_expiry
        → t3 < start + 3600 * env.access_expiry
        → t4 < start + 3600 * env.access_expiry
        → (post_task lib env repo db t1 t2 (bearer ++ access) (ok request) id
            ≡ some (db', success 200 task_created))
          × ((before after : List Task) × (get_tasks lib env repo db' t3 t4 (bearer ++ access)
                ≡ some (task_list 200 (before ++ task ∷ after))))
          × (get_tasks lib env repo db' t3 t4 (bearer ++ access')
              ≡ get_tasks lib env repo db t3 t4 (bearer ++ access'))
  unfolding post_task get_tasks create_task fetch_tasks tasks_response
  post_task-get_tasks laws db db' user other request access access' id oid mine theirs theirs' start
        t1 t2 t3 t4 jwt hexes made made' apart stored reads reads_other reads_other' p1 p2 p3 p4 =
      let task : Task = record { id = id; title = request.title; user_id = user.id } in
      let repo = task_repository lib tasks in
      let passes =
        middleware_accepts lib user env.access_secret access env.access_expiry start t1 t2 jwt made
          p1 p2 in
      let again =
        middleware_accepts lib user env.access_secret access env.access_expiry start t3 t4 jwt made
          p3 p4 in
      let foreign =
        middleware_accepts lib other env.access_secret access' env.access_expiry start t3 t4 jwt
          made' p3 p4 in
      let (xs, ys, held, held') = laws.inserted db db' task oid stored in
      let (before, after, listed) =
        Filters-middle (λ t. t.user_id ≡ user.id) xs ys task refl
          (subst (λ all. Filters (λ t. t.user_id ≡ user.id) all (elements mine)) held'
            (laws.matched db' user.id mine reads)) in
      let now_theirs =
        Filters-without (λ t. t.user_id ≡ other.id) xs ys task (λ e. apart (sym e))
          (subst (λ all. Filters (λ t. t.user_id ≡ other.id) all (elements theirs')) held'
            (laws.matched db' other.id theirs' reads_other')) in
      let same =
        Filters-unique (λ t. t.user_id ≡ other.id)
          (subst (λ all. Filters (λ t. t.user_id ≡ other.id) all (elements theirs)) held
            (laws.matched db other.id theirs reads_other))
          now_theirs in
      let found =
        read-fetch db' user.id mine (hexes user.id) reads ∙ ap (λ ts. (ts, none)) listed in
      let as_before =
        read-fetch db' other.id theirs' (hexes other.id) reads_other'
        ∙ ap (λ ts. (ts, none)) (sym same)
        ∙ sym (read-fetch db other.id theirs (hexes other.id) reads_other) in
      let hex = hexes user.id in
      let made_one = insert-create db db' task oid stored in
      (
        rw (post_task, passes, create_task, hex, made_one) refl,
        (
          before,
          after,
          rw (get_tasks, again) (ap (λ r. some (tasks_response lib env repo r)) found),
        ),
        rw (get_tasks, foreign) (ap (λ r. some (tasks_response lib env repo r)) as_before),
      )
