-- ===== src/FastId/Tests.antt =====
-- Runs of the identifiers, and the theorems at concrete inputs.
use card.Prelude.{◌+◌, ◌*◌, ◌^◌, ◌≤◌, ◌<◌, ◌≡◌, refl, [], ◌∷◌, none, arith}
use card.Prelude.Pairs.{AllPairs}
use card.FastId.Defs.{
  Config, common_config, new_id, next_id, load, swap, run, step, swap_at, get_time_from_id,
  get_seq_from_id, get_machine_id_from_fast_id, get_time_mill_from_fast_id, get_current_timestamp,
  min_fast_id_at, construct_config_with_machine_id,
}
use card.FastId.Fields.{IsSound, new_id_fields}
use card.FastId.Order.{run-issued_descends}
use card.FastId.Times.{construct-IsSound, get_time_mill-near, min_fast_id_at-cuts}
use card.FastId.Repeats.{calls, clock_back-repeats}

abbrev config : Config
config = common_config 5

config-IsSound : IsSound config
config-IsSound = construct-IsSound 40 10 13 5 (omega arith) (omega arith)

packed : new_id config 3 2 ≡ 3 * 2 ^ 23 + 2 * 2 ^ 13 + 5
unfolding new_id construct_config_with_machine_id
packed = refl

full :
    next_id
      (construct_config_with_machine_id 4 1 2 1)
      (new_id (construct_config_with_machine_id 4 1 2 1) 3 1)
      3
    ≡ none
unfolding new_id next_id construct_config_with_machine_id get_seq_from_id get_time_from_id
full = refl

-- Two calls at once: the second swap fails, since the first has stored an identifier.
raced :
    (run
      (record { config = config; waiting = []; issued = [] })
      (load 7 ∷ load 7 ∷ swap 1 ∷ swap 0 ∷ [])).issued
    ≡ new_id config 7 0 ∷ []
unfolding run step swap_at next_id new_id construct_config_with_machine_id get_seq_from_id
    get_time_from_id
raced = refl

new_id_fields_example :
    (get_time_from_id config (new_id config 3 2) ≡ 3)
    × (get_seq_from_id config (new_id config 3 2) ≡ 2)
    × (get_machine_id_from_fast_id config (new_id config 3 2) ≡ config.machine_id)
    × (new_id config 3 2 < 2 ^ 63)
unfolding construct_config_with_machine_id
new_id_fields_example = new_id_fields config config-IsSound 3 2 (omega arith) (omega arith)

run-issued_descends_example :
    AllPairs
      (λ later earlier. earlier < later)
      (run
        (record { config = config; waiting = []; issued = [] })
        (load 7 ∷ load 7 ∷ swap 1 ∷ swap 0 ∷ load 7 ∷ swap 0 ∷ [])).issued
unfolding construct_config_with_machine_id get_time_from_id
run-issued_descends_example =
    run-issued_descends config 0 (load 7 ∷ load 7 ∷ swap 1 ∷ swap 0 ∷ load 7 ∷ swap 0 ∷ [])
      config-IsSound (omega arith) (omega arith)

get_time_mill-near_example :
    (get_time_mill_from_fast_id config 1000
        (new_id config (get_current_timestamp config 1000 5000000) 2)
      ≤ 5)
    × (5
        ≤ get_time_mill_from_fast_id config 1000
            (new_id config (get_current_timestamp config 1000 5000000) 2)
          + 2)
unfolding construct_config_with_machine_id
get_time_mill-near_example =
    get_time_mill-near config config-IsSound 1000 5000000 2 (omega arith) (omega arith)
      (omega arith)

min_fast_id_at-cuts_example :
    (4 * 1000000 ≤ 5000000
      → min_fast_id_at config 1000 4 ≤ new_id config (get_current_timestamp config 1000 5000000) 2)
    × (5000000 + 2 ^ 20 ≤ 4 * 1000000
        → new_id config (get_current_timestamp config 1000 5000000) 2
          < min_fast_id_at config 1000 4)
unfolding construct_config_with_machine_id
min_fast_id_at-cuts_example =
    min_fast_id_at-cuts config config-IsSound 1000 5000000 2 (omega arith) (omega arith)
      (omega arith) 4 (omega arith) (omega arith)

clock_back-repeats_example :
    (run
      (record { config = config; waiting = []; issued = [] })
      (calls (9 ∷ 9 ∷ 10 ∷ 9 ∷ []))).issued
    ≡ new_id config 9 1 ∷ new_id config 10 0 ∷ new_id config 9 1 ∷ new_id config 9 0 ∷ []
unfolding construct_config_with_machine_id
clock_back-repeats_example =
    clock_back-repeats config 9 config-IsSound refl (omega arith) (omega arith) (omega arith)
