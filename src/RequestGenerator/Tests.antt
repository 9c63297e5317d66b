-- ===== src/RequestGenerator/Tests.antt =====
-- A record with three blocks, on a new table.
use dual_map.Prelude.{ℕ, ◌-◌, ◌≡◌, refl, true, false, none, some, Option, List, [], ◌∷◌, pos}
use dual_map.LazyPrefixTable.Table
use dual_map.LazyPrefixTable.Table.View.{init-IsLayered}
use dual_map.LazyPrefixTable.Detector
use dual_map.LazyPrefixTable.Detector.Counts.{init-IsCounted}
use dual_map.RequestGenerator.{
  Record, RequestGenerator, is_rejected, split, is_request_active, generate_request_offline,
}
use dual_map.RequestGenerator.Makes.{IsDone, generate_request_offline-IsDone}

abbrev trace : Record
trace = record {
  prompts = b'x' ∷ [];
  input_ids = 1 ∷ 2 ∷ 3 ∷ [];
  output_len = pos 4;
  g_session_id = b'g' ∷ b'@' ∷ b'1' ∷ b'@' ∷ b'2' ∷ [];
  hash_session_id = b'h' ∷ b'@' ∷ b'7' ∷ [];
  hash_ids = some (11 ∷ 12 ∷ 13 ∷ []);
}

abbrev generator : RequestGenerator
generator = record {
  max_model_len = 10;
  cur_num_request = 0;
  request_id_counter = 5;
  prefix_expansion_ctrl = record {
    table = Table.init 512 2;
    detector = Detector.init 200 (612, 10000) 20;
    cnt = 0;
  };
}

-- A number of one digit.
abbrev int : List ℕ → Option ℕ
int (c ∷ []) = some (c - b'0')
int s = none

abbrev str : ℕ → List ℕ
str n = n ∷ []

parts : split b'@' trace.g_session_id ≡ (b'g' ∷ []) ∷ (b'1' ∷ []) ∷ (b'2' ∷ []) ∷ []
parts = refl

trace-accepted : is_rejected 10 trace ≡ false
unfolding is_rejected
trace-accepted = refl

-- A time 0 stands for no request yet: the clock takes its place.
first_request : is_request_active false 60 1000 1001 1002 (some 0) ≡ (true, some 1001)
unfolding is_request_active
first_request = refl

generate_request_offline-IsDone_example :
    IsDone int str trace generator (generate_request_offline int str 9 trace generator)
generate_request_offline-IsDone_example =
    generate_request_offline-IsDone int str 9 trace generator
      (record { layered = init-IsLayered 512 2; counted = init-IsCounted _ 200 (612, 10000) 20 })
