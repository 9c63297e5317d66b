-- ===== src/RequestGenerator.antt =====
-- dualmap/request_generator/request_generator.py: how RequestGenerator makes a request from a record of the trace. A string
-- is the list of its characters, and `int` and `str` are arguments. The session id and the sampling parameters, which
-- the router only passes on, are left out.
pub mod Makes
pub mod Tests
use dual_map.Prelude.{
  ℕ, ◌+◌, Bool, true, false, ◌||◌, none, some, Option, List, [], ◌∷◌, ◌++◌, ◌==◌, if◌then◌else◌,
  length, take, ltb, leb, ℤ, pos, negsuc, leb_ℤ, ◌>>=◌,
}
use dual_map.Request.{Request}
use dual_map.LazyPrefixTable.Table.{lookup_depth}
use dual_map.LazyPrefixTable.Controller.{LazyExpansionController, process}

pub record Record : Type 0 where
  pub prompts : List ℕ
  pub input_ids : List ℕ
  pub output_len : ℤ
  pub g_session_id : List ℕ
  pub hash_session_id : List ℕ
  pub hash_ids : Option (List ℕ)

-- `request_id_counter` is the counter of the module.
pub record RequestGenerator : Type 0 where
  pub max_model_len : ℕ
  pub cur_num_request : ℕ
  pub request_id_counter : ℕ
  pub prefix_expansion_ctrl : LazyExpansionController

-- The test of the time, with the time of the last request that is kept. The clock is read for the time, for the shared
-- state, and at the end.
unfoldable pub is_request_active : Bool → ℕ → ℕ → ℕ → ℕ → Option ℕ → Bool × Option ℕ
is_request_active is_finished active_timeout first second now none = (true, none)
is_request_active is_finished active_timeout first second now (some last) =
    if is_finished
    then (false, some last)
    else if last == 0
    then (ltb now (first + active_timeout), some second)
    else (ltb now (last + active_timeout), some last)

abbrev pub in_front : ℕ → List (List ℕ) → List (List ℕ)
in_front c [] = (c ∷ []) ∷ []
in_front c (part ∷ parts) = (c ∷ part) ∷ parts

-- `split`
abbrev pub split : ℕ → List ℕ → List (List ℕ)
split mark [] = [] ∷ []
split mark (c ∷ cs) = let rest = split mark cs in if c == mark then [] ∷ rest else in_front c rest

abbrev pub is_empty : List ℕ → Bool
is_empty l = length l == 0

abbrev pub ids_of : Record → List ℕ
ids_of r = elim r.hash_ids [ none ↦ [] | some ids ↦ ids ]

unfoldable pub is_rejected : ℕ → Record → Bool
is_rejected max_model_len r =
    is_empty r.g_session_id
    || is_empty r.hash_session_id
    || is_empty r.prompts
    || ltb max_model_len (length r.input_ids)
    || is_empty r.input_ids
    || leb_ℤ r.output_len (pos 0)
    || is_empty (ids_of r)

pub data Generated : Type 0 where
  skipped : Generated
  value_error : Generated
  generated : Request → Generated

abbrev pub join : (ℕ → List ℕ) → List ℕ → List ℕ
join str [] = []
join str (i ∷ ids) = str i ++ join str ids

-- `int(output_len)`, of a positive number.
abbrev pub natural : ℤ → ℕ
natural (pos n) = n
natural (negsuc n) = 0

module _ (int : List ℕ → Option ℕ) (str : ℕ → List ℕ) where
  -- `Request(...)` raises where the session id is not a number, after the id was taken from the counter.
  abbrev pub new_request :
      ℕ → Record → List ℕ → ℕ → Option ℕ → RequestGenerator → Generated × RequestGenerator
  new_request now r first depth none s =
      (value_error, record s { request_id_counter = s.request_id_counter + 1 })
  new_request now r first depth (some session_id) s = (
    generated (record {
      id = s.request_id_counter;
      native_session_id = session_id;
      hash_session_id = first ++ b'@' ∷ join str (take depth (ids_of r));
      input_ids = r.input_ids;
      num_prefill_tokens = length r.input_ids;
      output_len = natural r.output_len;
      arrived_at = now;
    }),
    record s {
      request_id_counter = s.request_id_counter + 1;
      cur_num_request = s.cur_num_request + 1;
    },
  )

  -- `none` means that `lookup` or `process` does not end.
  abbrev pub route :
      ℕ → Record → List ℕ → List ℕ → RequestGenerator → Option (Generated × RequestGenerator)
  route now r first session_id s = do
    (depth, table) ← lookup_depth (ids_of r) s.prefix_expansion_ctrl.table
    c ← process (ids_of r) (record s.prefix_expansion_ctrl { table = table })
    some (new_request now r first depth (int session_id) (record s { prefix_expansion_ctrl = c }))

  abbrev pub with_parts :
      ℕ → Record → List (List ℕ) → RequestGenerator → Option (Generated × RequestGenerator)
  with_parts now r [] s = some (skipped, s)
  with_parts now r (first ∷ []) s = some (skipped, s)
  with_parts now r (first ∷ session_id ∷ more) s =
      if leb s.max_model_len (length r.input_ids)
      then some (skipped, s)
      else if ltb (length (split b'@' r.g_session_id)) 3
      then some (skipped, s)
      else route now r first session_id s

  -- `generate_request_offline` up to the call of `_generate_request_helper`.
  unfoldable pub generate_request_offline :
      ℕ → Record → RequestGenerator → Option (Generated × RequestGenerator)
  generate_request_offline now r s =
      if is_rejected s.max_model_len r
      then some (skipped, s)
      else with_parts now r (split b'@' r.hash_session_id) s
