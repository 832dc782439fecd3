-- ===== src/FastId/Defs.antt =====
-- fastid.go. Identifiers, times and masks are the int64 values that are not negative, as numbers;
-- the wrap-around of a new identifier is written out. The clock is an argument.
use Prim.Native.Nat.{bit_and}
use card.Prelude.{
  ℕ, suc, ◌+◌, ◌-◌, ◌*◌, ◌/◌, ◌%◌, ◌^◌, List, [], ◌∷◌, Option, none, some, ltb, leb, ◌==◌,
  if◌then◌else◌, get_elem?, take, drop, ◌++◌,
}

pub record Config : Type 0 where
  pub time_bits : ℕ
  pub seq_bits : ℕ
  pub machine_bits : ℕ
  pub time_mask : ℕ
  pub seq_mask : ℕ
  pub machine_id : ℕ
  pub machine_id_mask : ℕ
  pub last_id : ℕ

-- `^(int64(-1) << bits)`, for at most 63 bits.
abbrev pub ones : ℕ → ℕ
ones bits = 2 ^ bits - 1

unfoldable pub construct_config_with_machine_id : ℕ → ℕ → ℕ → ℕ → Config
construct_config_with_machine_id time_bits seq_bits machine_bits machine_id = record {
  time_bits = time_bits;
  seq_bits = seq_bits;
  machine_bits = machine_bits;
  time_mask = ones time_bits;
  seq_mask = ones seq_bits;
  machine_id_mask = ones machine_bits;
  machine_id = bit_and machine_id (ones machine_bits);
  last_id = 0;
}

-- What `InitWithMachineID` sets.
abbrev pub common_config : ℕ → Config
common_config machine_id = construct_config_with_machine_id 40 10 13 machine_id

-- Nanoseconds, `start` the epoch of the identifiers; the clock is not before it.
-- `(nanos - startEpochNano) >> 20` as a word of 64 bits: the shift of a negative number rounds down, and
-- a negative number counts from 2 ^ 64 downwards. The times are far below 2 ^ 63.
unfoldable pub elapsed : ℕ → ℕ → ℕ
elapsed start nanos =
    if leb start nanos
    then (nanos - start) / 2 ^ 20
    else 2 ^ 64 - (start - nanos + (2 ^ 20 - 1)) / 2 ^ 20

unfoldable pub get_current_timestamp : Config → ℕ → ℕ → ℕ
unfolding elapsed
get_current_timestamp c start now = bit_and (elapsed start now) c.time_mask

unfoldable pub get_seq_from_id : Config → ℕ → ℕ
get_seq_from_id c id = bit_and (id / 2 ^ c.machine_bits) c.seq_mask

unfoldable pub get_time_from_id : Config → ℕ → ℕ
get_time_from_id c id = id / 2 ^ (c.machine_bits + c.seq_bits)

unfoldable pub get_machine_id_from_fast_id : Config → ℕ → ℕ
get_machine_id_from_fast_id c id = bit_and id (ones c.machine_bits) % 2 ^ 32

unfoldable pub get_time_mill_from_fast_id : Config → ℕ → ℕ → ℕ
get_time_mill_from_fast_id c start id =
    let ep : ℕ = id / 2 ^ (c.machine_bits + c.seq_bits) in
    let t_nano : ℕ = ep * 2 ^ 20 + start in t_nano / 1000000

unfoldable pub min_fast_id_at : Config → ℕ → ℕ → ℕ
unfolding elapsed
min_fast_id_at c start unix_ms =
    bit_and (elapsed start (unix_ms * 1000000)) c.time_mask * 2 ^ (c.machine_bits + c.seq_bits)

unfoldable pub new_id : Config → ℕ → ℕ → ℕ
new_id c now seq =
    (now * 2 ^ (c.machine_bits + c.seq_bits) + seq * 2 ^ c.machine_bits + c.machine_id) % 2 ^ 64

-- One round of `GenInt64ID` up to the identifier it tries to store. `none` is the round that sleeps.
unfoldable pub next_id : Config → ℕ → ℕ → Option ℕ
next_id c local_last_id now =
    let seq : ℕ = get_seq_from_id c local_last_id in
    let last_id_time : ℕ = get_time_from_id c local_last_id in
    if ltb last_id_time now
    then some (new_id c now 0)
    else if leb c.seq_mask seq
    then none
    else some (new_id c now (seq + 1))

-- The calls of `GenInt64ID` that run at once: `waiting` holds, for each call that has loaded `lastID`,
-- what it loaded and what it will try to store; `issued` what was returned, the last first.
pub record Generator : Type 0 where
  pub config : Config
  pub waiting : List (ℕ × ℕ)
  pub issued : List ℕ

-- A call loads `lastID` and reads the clock; the call at a place tries its compare-and-swap.
pub data Event : Type 0 where
  load : ℕ → Event
  swap : ℕ → Event

abbrev pub enter : List (ℕ × ℕ) → ℕ → Option ℕ → List (ℕ × ℕ)
enter waiting local_last_id none = waiting
enter waiting local_last_id (some id) = (local_last_id, id) ∷ waiting

-- A call whose swap fails starts its next round by a `load`.
unfoldable pub swap_at : Generator → ℕ → Option (ℕ × ℕ) → Generator
swap_at g place none = g
swap_at g place (some (local_last_id, id)) =
    let rest : List (ℕ × ℕ) = take place g.waiting ++ drop (suc place) g.waiting in
    if g.config.last_id == local_last_id
    then record g {
      config = record g.config { last_id = id };
      waiting = rest;
      issued = id ∷ g.issued;
    }
    else record g { waiting = rest }

unfoldable pub step : Generator → Event → Generator
step g (load now) = record g {
  waiting = enter g.waiting g.config.last_id (next_id g.config g.config.last_id now);
}
step g (swap place) = swap_at g place (get_elem? g.waiting place)

unfoldable pub run : Generator → List Event → Generator
run g [] = g
run g (e ∷ es) = run (step g e) es
