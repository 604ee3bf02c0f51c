-- ===== src/CleanBackend/Concrete.antt =====
-- Concrete libraries for src/08_production/clean_backend, and concrete collections, that keep the
-- documented laws. Tokens here are plain lists, and a hash is the password itself.
use grin_with_golang.CleanBackend.{
  Str, Result, ok, err, User, Claims, ClaimValue, text, Method, hmac, Token, Libraries,
  UserRepository, Env, Task, ObjectId, Bool, ◌≡◌, ◌∷◌, ℕ, ◌+◌, subst, List, [], GoMap,
}
use grin_with_golang.CleanBackend.Controllers.{SignupRequest}
use grin_with_golang.CleanBackend.Mongo.{Collection, Filter, every, by_email, by_id, by_user_id}
use grin_with_golang.CleanBackend.Repositories.{UserCollectionLaws, user_repository}
use grin_with_golang.CleanBackend.Tasks.{TaskCollectionLaws, elements}
use grin_with_golang.Prelude.Filters.{Filters, nil, keep, drop}
use grin_with_golang.CleanBackend.Access.{JwtLaws, ParsesAs}
use grin_with_golang.CleanBackend.Signup.{BcryptLaws, SigningLaws}
use mathlib.Core.Option.{some-injective, none-ne-some}
use mathlib.Core.Bool.{false≢true}
use grin_with_golang.Prelude.{
  ◌≡◌, ◌+◌, ◌∷◌, Bool, List, Option, [], ap, ap₂, arith, false, inl, inr, none, refl, some, subst,
  suc, sym, true, zero, ℕ, ◌-◌, ◌<◌, ◌≢◌, ◌∙◌, ◌&&◌, ◌==◌, if◌then◌else◌, ltb, length, get_elem?,
  Bool-cases,
}

abbrev pub same_text : Str → Str → Bool
same_text [] [] = true
same_text (a ∷ xs) (b ∷ bs) = if a == b then same_text xs bs else false
same_text _ _ = false

pub same_text_self : (s : Str) → same_text s s ≡ true
same_text_self [] = refl
same_text_self (a ∷ xs) =
    let here : (a == a) ≡ true = ground arith in rw (here, same_text_self xs) refl

abbrev pub raise : Str → Str
raise [] = []
raise (b ∷ bs) = (33 + b) ∷ raise bs

abbrev pub lower : Str → Str
lower [] = []
lower (b ∷ bs) = (b - 33) ∷ lower bs

lower-raise : (s : Str) → lower (raise s) ≡ s
lower-raise [] = refl
lower-raise (b ∷ bs) = ap₂ (λ x y. x ∷ y) (omega arith) (lower-raise bs)

raise-no_space : (s : Str) (i : ℕ) → get_elem? (raise s) i ≢ some 32
raise-no_space [] i p = none-ne-some 32 p
raise-no_space (b ∷ bs) zero p = let e = some-injective _ _ p in omega arith
raise-no_space (b ∷ bs) (suc i) p = raise-no_space bs i p

abbrev pub text_of : Claims → Str → Str
text_of c secret = (33 + c.expires_at) ∷ (33 + length secret) ∷ raise c.id

abbrev pub parse_text : ℕ → Str → (Method → Option Str) → Result Token
parse_text now (e ∷ k ∷ bs) key = elim (key hmac) [
  | none ↦ err []
  | some secret ↦
      if ltb (now + 33) e && k == 33 + length secret
      then ok (record { claims = some (λ j. some (text (lower bs))); valid = true })
      else err []
]
parse_text now _ key = err []

abbrev pub plain : Libraries
plain = record {
  hex = λ id. id;
  from_hex = λ s. ok s;
  sign = λ c secret. ok (text_of c secret);
  parse = parse_text;
  generate = λ salt password. ok password;
  compare_hash = same_text;
}

abbrev pub content : Result Str → Str
content (ok s) = s
content (err e) = e

parse-text_of :
    (c : Claims) (secret : Str) (now : ℕ) (key : Method → Option Str)
    → now < c.expires_at
    → key hmac ≡ some secret
    → ParsesAs plain now (text_of c secret) key c.id
parse-text_of c secret now key p q =
    let m : GoMap Str ClaimValue = λ j. some (text (lower (raise c.id))) in
    let fresh : ltb (now + 33) (33 + c.expires_at) ≡ true = ground arith in
    let right : (33 + length secret == 33 + length secret) ≡ true = ground arith in
    record {
      token = record { claims = some m; valid = true };
      claims = m;
      accepted = rw (q, fresh, right) refl;
      claims_of = refl;
      id_of = ap (λ s. some (text s)) (lower-raise c.id);
    }

text_of-no_space : (c : Claims) (secret : Str) (i : ℕ) → get_elem? (text_of c secret) i ≢ some 32
text_of-no_space c secret zero p = let e = some-injective _ _ p in omega arith
text_of-no_space c secret (suc zero) p = let e = some-injective _ _ p in omega arith
text_of-no_space c secret (suc (suc i)) p = raise-no_space c.id i p

pub plain-JwtLaws : JwtLaws plain
plain-JwtLaws = record {
  signed_parses = λ c secret t now id key made same p q.
      subst (λ s. ParsesAs plain now s key c.id) (ap content made)
        (parse-text_of c secret now key p q);
  signed_no_space = λ c secret t made.
      subst (λ s. (i : ℕ) → get_elem? s i ≢ some 32) (ap content made) (text_of-no_space c secret);
}

pub plain-SigningLaws : SigningLaws plain
plain-SigningLaws = record { signs = λ c secret. (text_of c secret, refl) }

pub plain-BcryptLaws : BcryptLaws plain
plain-BcryptLaws = record {
  hash_compares = λ salt password hash made.
      subst (λ s. same_text s password ≡ true) (ap content made) (same_text_self password);
}

abbrev pub find_user : (User → Bool) → List User → Result User
find_user test [] = err []
find_user test (u ∷ us) = if test u then ok u else find_user test us

abbrev pub same_object : Filter → User → Bool
same_object every u = true
same_object (by_email email) u = same_text u.email email
same_object (by_id id) u = same_text u.id id
same_object (by_user_id id) u = false

-- A collection of users that refuses the identifier 9, without a result.
abbrev pub user_collection : Collection (List User) (List User) User
user_collection = record {
  insert = λ db u.
      if same_text u.id (9 ∷ []) then (db, none, some (1 ∷ [])) else (u ∷ db, some u.id, none);
  find_one = λ db filter. find_user (same_object filter) db;
  find = λ db filter hidden. ok db;
  all = λ cursor. (some cursor, none);
}

inserted :
    (db db' : List User) (u : User) (id : ObjectId)
    → user_collection.insert db u ≡ (db', some id, none)
    → db' ≡ u ∷ db
inserted db db' u id h = elim (Bool-cases (same_text u.id (9 ∷ []))) [
  | inl refused ↦
      let e = rw refused at h in
      absurd (none-ne-some id (ap (λ (t : List User × Option ObjectId × Option Str). t.1) e))
  | inr taken ↦
      let e = rw taken at h in sym (ap (λ (t : List User × Option ObjectId × Option Str). t.0) e)
]

pub user_collection-UserCollectionLaws : UserCollectionLaws user_collection
user_collection-UserCollectionLaws = record {
  inserted_by_id = λ db db' u id h. rw (inserted db db' u id h, same_text_self u.id) refl;
  inserted_by_email =
      λ db db' u id e h free. rw (inserted db db' u id h, same_text_self u.email) refl;
}

abbrev pub users : UserRepository (List User)
users = user_repository plain user_collection

abbrev pub env : Env
env = record {
  access_secret = 1 ∷ [];
  access_expiry = 2;
  refresh_secret = 2 ∷ 2 ∷ [];
  refresh_expiry = 168;
}

abbrev pub ann : SignupRequest
ann = record { name = 65 ∷ []; email = 97 ∷ 64 ∷ []; password = 7 ∷ 8 ∷ [] }

abbrev pub ann_user : User
ann_user = record { id = 5 ∷ []; name = 65 ∷ []; email = 97 ∷ 64 ∷ []; password = 7 ∷ 8 ∷ [] }

abbrev pub access : Str
access = 7333 ∷ 34 ∷ 38 ∷ []

abbrev pub refresh : Str
refresh = 604934 ∷ 35 ∷ 38 ∷ []

same_text_eq : (s t : Str) → same_text s t ≡ true → s ≡ t
same_text_eq [] [] h = refl
same_text_eq [] (b ∷ bs) h = absurd (false≢true h)
same_text_eq (a ∷ xs) [] h = absurd (false≢true h)
same_text_eq (a ∷ xs) (b ∷ bs) h = elim (Bool-cases (a == b)) [
  | inl same ↦
      let rest = rw same at h in
      let heads : a ≡ b = ground arith in ap₂ (λ x y. x ∷ y) heads (same_text_eq xs bs rest)
  | inr other ↦ let e = rw other at h in absurd (false≢true e)
]

abbrev pub of_user : Str → List Task → List Task
of_user id [] = []
of_user id (t ∷ ts) = let rest = of_user id ts in if same_text t.user_id id then t ∷ rest else rest

of_user-Filters : (id : Str) (ts : List Task) → Filters (λ t. t.user_id ≡ id) ts (of_user id ts)
of_user-Filters id [] = nil
of_user-Filters id (t ∷ ts) = elim (Bool-cases (same_text t.user_id id)) [
  | inl same ↦ rw same (keep (same_text_eq t.user_id id same) (of_user-Filters id ts))
  | inr other ↦
      let apart : t.user_id ≢ id = λ e.
        false≢true
          (sym other ∙ ap (λ s. same_text t.user_id s) (sym e) ∙ same_text_self t.user_id) in
      rw other (drop apart (of_user-Filters id ts))
]

abbrev pub task_collection : Collection (List Task) (List Task) Task
task_collection = record {
  insert = λ db t. (t ∷ db, some t.id, none);
  find_one = λ db filter. err [];
  find = λ db filter hidden. elim filter [ by_user_id id ↦ ok (of_user id db) | _ ↦ ok db ];
  all = λ cursor. (some cursor, none);
}

abbrev listed : Result (List Task) → List Task
listed (ok ts) = ts
listed (err e) = []

inserted_task :
    (db db' : List Task) (t : Task) (id : ObjectId)
    → task_collection.insert db t ≡ (db', some id, none)
    → db' ≡ t ∷ db
inserted_task db db' t id h = sym (ap (λ (p : List Task × Option ObjectId × Option Str). p.0) h)

pub task_collection-TaskCollectionLaws : TaskCollectionLaws task_collection
task_collection-TaskCollectionLaws = record {
  contents = λ db. db;
  inserted = λ db db' t id h. ([], db, refl, inserted_task db db' t id h);
  matched = λ db owner docs (cursor, found, all).
      let read : elements (some cursor) ≡ elements docs =
        ap (λ (p : Option (List Task) × Option Str). elements p.0) all in
      subst (λ ts. Filters (λ t. t.user_id ≡ owner) db ts) (ap listed found ∙ read)
        (of_user-Filters owner db);
}
