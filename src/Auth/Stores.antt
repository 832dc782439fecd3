-- ===== src/Auth/Stores.antt =====
-- The two stores that the auth service talks to, as their clients show them: Redis and MongoDB, over
-- the state `W` of what is outside. Neither is code of the repository: `IsRedis` and
-- `RefusesConflicts` are what their documentation promises.
use card.Prelude.{ℕ, ◌≡◌, ◌≢◌, ite, ◌⊎◌, List, [], ◌∷◌, Option, none, some, Bool, true}
use card.Prelude.Map.{Map, lookup}
use card.Prelude.Text.{Str, str_dec}
use card.Gate.Model.{Time}

-- The answer of `Get` or `GetDel`: `redis.Nil`, another error, or the value.
pub data Answer : Type 0 where
  missing failed : Answer
  found : Str → Answer

-- A command of a `TxPipeline`; a time to live is in nanoseconds.
pub data Command : Type 0 where
  set_command : Str → Str → ℕ → Command
  del_command : Str → Command

-- `set` and `exec` answer whether they returned without an error.
pub record Redis (W : Type 0) : Type 0 where
  pub get : W → Str → Answer
  pub get_del : W → Str → W × Answer
  pub set : W → Str → Str → ℕ → W × Bool
  pub exec : W → List Command → W × Bool

-- What the commands of a transaction do to the value of each key.
abbrev pub apply : Command → (Str → Option Str) → Str → Option Str
apply (set_command k v _) view j = ite (str_dec k j) (some v) (view j)
apply (del_command k) view j = ite (str_dec k j) none (view j)

abbrev pub apply_all : List Command → (Str → Option Str) → Str → Option Str
apply_all [] view = view
apply_all (c ∷ cs) view = apply_all cs (apply c view)

-- With `value_at` the value that a key has: each command acts on its own keys alone, at once. A
-- command that fails may have acted or not, a transaction as a whole. That a key expires, or that another client writes, is a
-- change of `W` between two calls.
pub record IsRedis {W : Type 0} (redis : Redis W) (value_at : W → Str → Option Str) : Type 0 where
  pub get_found : (w : W) (k v : Str) → redis.get w k ≡ found v → value_at w k ≡ some v
  pub get_missing : (w : W) (k : Str) → redis.get w k ≡ missing → value_at w k ≡ none
  pub get_del_found : (w : W) (k v : Str) → (redis.get_del w k).1 ≡ found v → value_at w k ≡ some v
  pub get_del_missing : (w : W) (k : Str) → (redis.get_del w k).1 ≡ missing → value_at w k ≡ none
  pub get_del_gone :
      (w : W) (k : Str) → (redis.get_del w k).1 ≢ failed → value_at (redis.get_del w k).0 k ≡ none
  pub get_del_either :
      (w : W) (k : Str)
      → (value_at (redis.get_del w k).0 k ≡ value_at w k)
        ⊎ (value_at (redis.get_del w k).0 k ≡ none)
  pub get_del_other : (w : W) (k j : Str) → k ≢ j → value_at (redis.get_del w k).0 j ≡ value_at w j
  pub set_done :
      (w : W) (k v : Str) (ttl : ℕ) (j : Str)
      → (redis.set w k v ttl).1 ≡ true
      → value_at (redis.set w k v ttl).0 j ≡ ite (str_dec k j) (some v) (value_at w j)
  pub set_other :
      (w : W) (k v : Str) (ttl : ℕ) (j : Str)
      → k ≢ j
      → value_at (redis.set w k v ttl).0 j ≡ value_at w j
  pub exec_done :
      (w : W) (cs : List Command)
      → (redis.exec w cs).1 ≡ true
      → value_at (redis.exec w cs).0 ≡ apply_all cs (value_at w)
  pub exec_atomic :
      (w : W) (cs : List Command)
      → (value_at (redis.exec w cs).0 ≡ value_at w)
        ⊎ (value_at (redis.exec w cs).0 ≡ apply_all cs (value_at w))

-- A field of a document, as far as the service stores any.
pub data Value : Type 0 where
  text : Str → Value
  instant : Time → Value

abbrev pub Document : Type 0
Document = Map Str Value

-- The update of a `FindOneAndUpdate`: its `$set` and its `$setOnInsert`.
pub record Update : Type 0 where
  pub set : Document
  pub set_on_insert : Document

-- The two collections. `find_one_and_update` upserts and answers the document after the update;
-- `none` is an error.
pub record Mongo (W : Type 0) : Type 0 where
  pub bindings_update : W → Document → Update → W × Option Document
  pub accounts_update : W → Document → Update → W × Option Document

-- A path that both operators of an update name.
abbrev pub IsConflict : Update → Type 0
IsConflict u =
    (path : Str) × (v : Value) × (w : Value) × (lookup str_dec path u.set ≡ some v)
    × (lookup str_dec path u.set_on_insert ≡ some w)

-- MongoDB refuses an update in which two operators name one path.
abbrev pub RefusesConflicts : {W : Type 0} → Mongo W → Type 0
RefusesConflicts {W} mongo =
    (w : W) (filter : Document) (u : Update)
    → IsConflict u
    → (mongo.bindings_update w filter u).1 ≡ none
