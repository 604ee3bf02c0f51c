-- ===== src/CleanBackend/Mongo.antt =====
-- src/08_production/clean_backend/mongo/mongo.go, as far as the repositories use it: the wrapper of a
-- collection of the MongoDB driver, which is a parameter.
use grin_with_golang.CleanBackend.{Str, ObjectId, Result, Option}
use grin_with_golang.Prelude.{Bool, List, Option, none, some}

-- the filters of the repositories: `bson.D{}`, and one key with its value
pub data Filter : Type 0 where
  every : Filter
  by_email : Str → Filter
  by_id : ObjectId → Filter
  by_user_id : ObjectId → Filter

-- A collection of the driver, over the states `D` of a database, with cursors `C`.
pub record Collection (D C Doc : Type 0) : Type 0 where
  -- the identifier in the result, or a nil result, and an error
  pub insert : D → Doc → D × Option ObjectId × Option Str
  -- `FindOne` and `Decode`
  pub find_one : D → Filter → Result Doc
  -- with `true` for a projection that leaves the password out
  pub find : D → Filter → Bool → Result C
  -- the slice that `All` fills, with `none` for nil, and an error
  pub all : C → Option (List Doc) × Option Str

module _ {D C Doc : Type 0} (coll : Collection D C Doc) where
  -- `id.InsertedID` is read before the error is looked at: `none` is the panic on a nil result.
  unfoldable pub insert_one : D → Doc → Option (D × ObjectId × Option Str)
  insert_one db doc =
      let r = coll.insert db doc in elim r.1 [ none ↦ none | some id ↦ some (r.0, id, r.2) ]
