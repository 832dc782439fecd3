-- ===== src/Auth/Example.antt =====
-- A Redis, two MongoDBs and codecs, as functions on lists, that keep the promises asked of them.
use mathlib.Core.Path.{fun_ext}
use card.Prelude.{
  ℕ, zero, suc, ◌≡◌, refl, sym, ap, subst, ◌∙◌, inr, List, [], ◌∷◌, ◌++◌, Option, none, some, Bool,
  true, false, arith, length, take, drop, ◌==◌, if◌then◌else◌,
}
use card.Prelude.Int.{ℤ, pos, negsuc}
use card.Prelude.Map.{
  Map, lookup, insert, delete, lookup-insert, lookup-insert_ne, lookup-delete, lookup-delete_self,
  lookup-delete_ne,
}
use card.Prelude.Text.{Str, str_dec}
use card.Gate.Model.{Time}
use card.Auth.Model.{Session, LoginTicket, ConnectToken}
use card.Auth.Stores.{
  Answer, missing, found, Command, set_command, del_command, Redis, IsRedis, apply, apply_all,
  Value, Document, Mongo, RefusesConflicts,
}
use card.Auth.Repository.{Codec, RoundTrips}
use card.Auth.Service.{Backend}
use card.Auth.Logins.{IsSound}
use card.Auth.Histories.{IsSeparate}

abbrev pub Memory : Type 0
Memory = Map Str Str

abbrev pub value_at : Memory → Str → Option Str
value_at w j = lookup str_dec j w

abbrev answer_of : Option Str → Answer
answer_of none = missing
answer_of (some v) = found v

abbrev run_command : Memory → Command → Memory
run_command w (set_command k v _) = insert str_dec k v w
run_command w (del_command k) = delete str_dec k w

abbrev run_commands : Memory → List Command → Memory
run_commands w [] = w
run_commands w (c ∷ cs) = run_commands (run_command w c) cs

abbrev pub memory_redis : Redis Memory
memory_redis = record {
  get = λ w k. answer_of (lookup str_dec k w);
  get_del = λ w k. (delete str_dec k w, answer_of (lookup str_dec k w));
  set = λ w k v ttl. (insert str_dec k v w, true);
  exec = λ w cs. (run_commands w cs, true);
}

answer-found : (o : Option Str) (v : Str) → answer_of o ≡ found v → o ≡ some v
answer-found none v e = cc
answer-found (some u) v e = cc

answer-missing : (o : Option Str) → answer_of o ≡ missing → o ≡ none
answer-missing none e = refl
answer-missing (some u) e = cc

run_command-view : (w : Memory) (c : Command) → value_at (run_command w c) ≡ apply c (value_at w)
run_command-view w (set_command k v ttl) = fun_ext (λ j. lookup-insert str_dec k j v w)
run_command-view w (del_command k) = fun_ext (λ j. lookup-delete str_dec k j w)

run_commands-view :
    (w : Memory) (cs : List Command) → value_at (run_commands w cs) ≡ apply_all cs (value_at w)
run_commands-view w [] = refl
run_commands-view w (c ∷ cs) =
    run_commands-view (run_command w c) cs ∙ ap (apply_all cs) (run_command-view w c)

pub memory-IsRedis : IsRedis memory_redis value_at
memory-IsRedis = record {
  get_found = λ w k v e. answer-found (lookup str_dec k w) v e;
  get_missing = λ w k e. answer-missing (lookup str_dec k w) e;
  get_del_found = λ w k v e. answer-found (lookup str_dec k w) v e;
  get_del_missing = λ w k e. answer-missing (lookup str_dec k w) e;
  get_del_gone = λ w k _. lookup-delete_self str_dec k w;
  get_del_either = λ w k. inr (lookup-delete_self str_dec k w);
  get_del_other = λ w k j h. lookup-delete_ne str_dec k j w h;
  set_done = λ w k v ttl j _. lookup-insert str_dec k j v w;
  set_other = λ w k v ttl j h. lookup-insert_ne str_dec k j v w h;
  exec_done = λ w cs _. run_commands-view w cs;
  exec_atomic = λ w cs. inr (run_commands-view w cs);
}

-- Values as lists of texts, each behind its length.
abbrev pack : List Str → Str
pack [] = []
pack (s ∷ r) = length s ∷ s ++ pack r

abbrev unpack : ℕ → Str → List Str
unpack zero s = []
unpack (suc n) [] = []
unpack (suc n) (k ∷ s) = take k s ∷ unpack n (drop k s)

take_own : (s r : Str) → take (length s) (s ++ r) ≡ s
take_own [] r = refl
take_own (c ∷ s) r = ap (λ l. c ∷ l) (take_own s r)

drop_own : (s r : Str) → drop (length s) (s ++ r) ≡ r
drop_own [] r = refl
drop_own (c ∷ s) r = drop_own s r

unpack-pack : (fields : List Str) → unpack (length fields) (pack fields) ≡ fields
unpack-pack [] = refl
unpack-pack (s ∷ r) = rw (take_own s (pack r), drop_own s (pack r), unpack-pack r) refl

abbrev of_time : Time → Str
of_time t = elim t.sec [ pos n ↦ 0 ∷ n ∷ t.nsec ∷ [] | negsuc n ↦ 1 ∷ n ∷ t.nsec ∷ [] ]

abbrev to_time : Str → Time
to_time [] = record { sec = pos 0; nsec = 0 }
to_time (a ∷ []) = record { sec = pos 0; nsec = 0 }
to_time (a ∷ n ∷ []) = record { sec = pos 0; nsec = 0 }
to_time (a ∷ n ∷ k ∷ r) = record { sec = (if a == 0 then pos n else negsuc n); nsec = k }

time_trip :
    (sec : ℤ) (nsec : ℕ)
    → to_time (of_time (record { sec = sec; nsec = nsec })) ≡ record { sec = sec; nsec = nsec }
time_trip (pos n) nsec = refl
time_trip (negsuc n) nsec = refl

abbrev session_of : List Str → Option Session
session_of (a ∷ b ∷ c ∷ d ∷ e ∷ f ∷ x ∷ y ∷ z ∷ []) = some (record {
  session_id = a;
  account_id = b;
  player_id = c;
  channel = d;
  subject = e;
  device_id = f;
  created_at = to_time x;
  expires_at = to_time y;
  last_login_at = to_time z;
})
session_of _ = none

abbrev session_fields : Session → List Str
session_fields s =
    s.session_id
    ∷ s.account_id
    ∷ s.player_id
    ∷ s.channel
    ∷ s.subject
    ∷ s.device_id
    ∷ of_time s.created_at
    ∷ of_time s.expires_at
    ∷ of_time s.last_login_at
    ∷ []

abbrev session_codec : Codec Session
session_codec = record {
  marshal = λ s. some (pack (session_fields s));
  unmarshal = λ p. session_of (unpack 9 p);
}

some_inj : {A : Type 0} {a b : A} → ◌≡◌ {A = Option A} (some a) (some b) → a ≡ b
some_inj e = cc

session-trips : RoundTrips session_codec
session-trips s p e =
    let same : pack (session_fields s) ≡ p = some_inj e in
    subst (λ q. session_of (unpack 9 q) ≡ some s) same
      (rw
        (
          unpack-pack (session_fields s),
          time_trip s.created_at.sec s.created_at.nsec,
          time_trip s.expires_at.sec s.expires_at.nsec,
          time_trip s.last_login_at.sec s.last_login_at.nsec,
        )
        refl)

abbrev ticket_of : List Str → Option LoginTicket
ticket_of (a ∷ b ∷ c ∷ x ∷ y ∷ []) = some (record {
  ticket_id = a;
  session_id = b;
  account_id = c;
  created_at = to_time x;
  expires_at = to_time y;
})
ticket_of _ = none

abbrev ticket_fields : LoginTicket → List Str
ticket_fields t =
    t.ticket_id ∷ t.session_id ∷ t.account_id ∷ of_time t.created_at ∷ of_time t.expires_at ∷ []

abbrev ticket_codec : Codec LoginTicket
ticket_codec = record {
  marshal = λ t. some (pack (ticket_fields t));
  unmarshal = λ p. ticket_of (unpack 5 p);
}

ticket-trips : RoundTrips ticket_codec
ticket-trips t p e =
    let same : pack (ticket_fields t) ≡ p = some_inj e in
    subst (λ q. ticket_of (unpack 5 q) ≡ some t) same
      (rw
        (
          unpack-pack (ticket_fields t),
          time_trip t.created_at.sec t.created_at.nsec,
          time_trip t.expires_at.sec t.expires_at.nsec,
        )
        refl)

abbrev token_of : List Str → Option ConnectToken
token_of (a ∷ b ∷ c ∷ d ∷ x ∷ y ∷ []) = some (record {
  token_id = a;
  session_id = b;
  account_id = c;
  device_id = d;
  created_at = to_time x;
  expires_at = to_time y;
})
token_of _ = none

abbrev token_fields : ConnectToken → List Str
token_fields t =
    t.token_id
    ∷ t.session_id
    ∷ t.account_id
    ∷ t.device_id
    ∷ of_time t.created_at
    ∷ of_time t.expires_at
    ∷ []

abbrev token_codec : Codec ConnectToken
token_codec = record {
  marshal = λ t. some (pack (token_fields t));
  unmarshal = λ p. token_of (unpack 6 p);
}

token-trips : RoundTrips token_codec
token-trips t p e =
    let same : pack (token_fields t) ≡ p = some_inj e in
    subst (λ q. token_of (unpack 6 q) ≡ some t) same
      (rw
        (
          unpack-pack (token_fields t),
          time_trip t.created_at.sec t.created_at.nsec,
          time_trip t.expires_at.sec t.expires_at.nsec,
        )
        refl)

-- A MongoDB that creates each document anew, and accepts any update.
abbrev lenient_mongo : Mongo Memory
lenient_mongo = record {
  bindings_update = λ w filter u. (w, some (u.set ++ u.set_on_insert ++ filter));
  accounts_update = λ w filter u. (w, some (u.set ++ u.set_on_insert ++ filter));
}

abbrev clash_with : Option Value → Bool → Bool
clash_with none rest = rest
clash_with (some _) rest = true

abbrev clash : Document → Document → Bool
clash [] d = false
clash ((k, _) ∷ r) d = clash_with (lookup str_dec k d) (clash r d)

-- One that refuses an update with a conflict.
abbrev strict_mongo : Mongo Memory
strict_mongo = record {
  bindings_update = λ w filter u.
      (w, if clash u.set u.set_on_insert then none else some (u.set ++ u.set_on_insert ++ filter));
  accounts_update = λ w filter u.
      (w, if clash u.set u.set_on_insert then none else some (u.set ++ u.set_on_insert ++ filter));
}

clash_any : (o : Option Value) → clash_with o true ≡ true
clash_any none = refl
clash_any (some _) = refl

clash-common :
    (d e : Document) (path : Str) (v w : Value)
    → lookup str_dec path d ≡ some v
    → lookup str_dec path e ≡ some w
    → clash d e ≡ true
unfolding lookup
clash-common [] e path v w h k = cc
clash-common ((j, u) ∷ d) e path v w h k = elim (str_dec j path) [
  | yes same ↦
      let k' : lookup str_dec j e ≡ some w =
        subst (λ p. lookup str_dec p e ≡ some w) (sym same) k in
      rw k' refl
  | no other ↦
      let h' : lookup str_dec path d ≡ some v = ground arith in
      rw (clash-common d e path v w h' k) (clash_any (lookup str_dec j e))
]

strict-RefusesConflicts : RefusesConflicts strict_mongo
strict-RefusesConflicts w filter u (path, v, x, h, k) =
    rw (clash-common u.set u.set_on_insert path v x h k) refl

abbrev pub lenient : Backend Memory
lenient = record {
  redis = memory_redis;
  mongo = lenient_mongo;
  sessions = session_codec;
  tickets = ticket_codec;
  tokens = token_codec;
  to_lower = λ s. s;
}

abbrev pub strict : Backend Memory
strict = record lenient { mongo = strict_mongo }

pub strict-Refuses : RefusesConflicts strict.mongo
strict-Refuses = strict-RefusesConflicts

pub strict-IsSound : IsSound strict value_at
strict-IsSound = record {
  redis_laws = memory-IsRedis;
  session_trips = session-trips;
  ticket_trips = ticket-trips;
  token_trips = token-trips;
}

pub lenient-IsSound : IsSound lenient value_at
lenient-IsSound = record {
  redis_laws = memory-IsRedis;
  session_trips = session-trips;
  ticket_trips = ticket-trips;
  token_trips = token-trips;
}

pub lenient-IsSeparate : IsSeparate lenient value_at
lenient-IsSeparate = record { bindings = λ w filter u. refl; accounts = λ w filter u. refl }
