-- ===== src/RequestGenerator/Makes.antt =====
-- Every record is skipped or made a request with a new id.
use dual_map.Prelude.{
  by_cases_of, ℕ, suc, ◌+◌, ◌≤◌, ◌<◌, ◌≡◌, refl, sym, ap, ◌∙◌, Bool, true, false, ◌&&◌, not, none,
  some, Option, List, [], ◌∷◌, ◌++◌, ◌==◌, if◌then◌else◌, length, take, ltb, leb, leb_ℤ, pos, arith,
  Bool-cases, inl, inr,
}
use mathlib.Core.Path.{subst}
use dual_map.LazyPrefixTable.Table.{LazyPrefixTable, lookup_depth}
use dual_map.LazyPrefixTable.Table.Walk.{lookup_depth-Walks}
use dual_map.LazyPrefixTable.Controller.{LazyExpansionController, IsSound, process-IsSound}
use dual_map.RequestGenerator.{
  Record, RequestGenerator, in_front, split, ids_of, is_rejected, Generated, skipped, value_error,
  generated, join, new_request, route, with_parts, generate_request_offline,
}

-- How often a character stands in a string.
abbrev pub times_in : ℕ → List ℕ → ℕ
times_in mark [] = 0
times_in mark (c ∷ cs) = let rest = times_in mark cs in if c == mark then rest + 1 else rest

length-in_front :
    (c n : ℕ) (parts : List (List ℕ)) → length parts ≡ n + 1 → length (in_front c parts) ≡ n + 1
length-in_front c n [] h = absurd (omega (arith, h))
length-in_front c n (part ∷ parts) h = h

length-split : (mark : ℕ) (s : List ℕ) → length (split mark s) ≡ times_in mark s + 1
length-split mark [] = refl
length-split mark (c ∷ cs) =
    ground (arith, length-split mark cs, length-in_front c (times_in mark cs) (split mark cs))

-- The records that a request is made from.
abbrev pub is_usable : ℕ → Record → Bool
is_usable max_model_len r =
    ltb 0 (length r.prompts)
    && ltb 0 (length r.input_ids)
    && ltb (length r.input_ids) max_model_len
    && not (leb_ℤ r.output_len (pos 0))
    && ltb 0 (length (ids_of r))
    && ltb 0 (times_in b'@' r.hash_session_id)
    && ltb 1 (times_in b'@' r.g_session_id)

-- `first` is what stands before the first mark.
abbrev pub before : ℕ → List ℕ → List ℕ
before mark [] = []
before mark (c ∷ cs) = let rest = before mark cs in if c == mark then [] else c ∷ rest

-- What stands behind the first mark.
abbrev pub behind : ℕ → List ℕ → List ℕ
behind mark [] = []
behind mark (c ∷ cs) = let rest = behind mark cs in if c == mark then cs else rest

abbrev head_of : List (List ℕ) → List ℕ
head_of [] = []
head_of (part ∷ parts) = part

head_of-in_front : (c : ℕ) (parts : List (List ℕ)) → head_of (in_front c parts) ≡ c ∷ head_of parts
head_of-in_front c [] = refl
head_of-in_front c (part ∷ parts) = refl

head_of-split : (mark : ℕ) (s : List ℕ) → head_of (split mark s) ≡ before mark s
head_of-split mark [] = refl
head_of-split mark (c ∷ cs) = elim (Bool-cases (c == mark)) [
  | inl h ↦ rw h refl
  | inr h ↦ rw h (head_of-in_front c (split mark cs) ∙ ap (λ l. c ∷ l) (head_of-split mark cs))
]

abbrev second_of : List (List ℕ) → List ℕ
second_of [] = []
second_of (part ∷ parts) = head_of parts

second_of-in_front :
    (c : ℕ) (parts : List (List ℕ)) → second_of (in_front c parts) ≡ second_of parts
second_of-in_front c [] = refl
second_of-in_front c (part ∷ parts) = refl

second_of-split : (mark : ℕ) (s : List ℕ) → second_of (split mark s) ≡ before mark (behind mark s)
second_of-split mark [] = refl
second_of-split mark (c ∷ cs) = elim (Bool-cases (c == mark)) [
  | inl h ↦ rw h (head_of-split mark cs)
  | inr h ↦ rw h (second_of-in_front c (split mark cs) ∙ second_of-split mark cs)
]

times_in-le : (mark : ℕ) (s : List ℕ) → times_in mark s ≤ length s
times_in-le mark [] = omega arith
times_in-le mark (c ∷ cs) = ground (arith, times_in-le mark cs)

is_rejected-is_usable : (n : ℕ) (r : Record) → is_rejected n r ≡ true → is_usable n r ≡ false
unfolding is_rejected
is_rejected-is_usable n r h =
    ground (arith, h, times_in-le b'@' r.g_session_id, times_in-le b'@' r.hash_session_id)

accepted-is_usable :
    (n : ℕ) (r : Record)
    → is_rejected n r ≡ false
    → leb n (length r.input_ids) ≡ false
    → 0 < times_in b'@' r.hash_session_id
    → 1 < times_in b'@' r.g_session_id
    → is_usable n r ≡ true
unfolding is_rejected
accepted-is_usable n r h a b c = ground (arith, h, a, b, c)

module _ (int : List ℕ → Option ℕ) (str : ℕ → List ℕ) where
  abbrev pub session_of : Record → Option ℕ
  session_of r = int (before b'@' (behind b'@' r.hash_session_id))

  -- What a call with the record `r` in the state `s` answers and leaves.
  abbrev pub IsMade : Record → RequestGenerator → Generated → RequestGenerator → Type 0
  IsMade r s skipped s' = (is_usable s.max_model_len r ≡ false) × (s' ≡ s)
  IsMade r s value_error s' =
      (is_usable s.max_model_len r ≡ true)
      × (s'.request_id_counter ≡ s.request_id_counter + 1)
      × (session_of r ≡ none)
      × (s'.cur_num_request ≡ s.cur_num_request)
  IsMade r s (generated q) s' =
      (is_usable s.max_model_len r ≡ true)
      × (s'.request_id_counter ≡ s.request_id_counter + 1)
      × (s'.cur_num_request ≡ s.cur_num_request + 1)
      × (session_of r ≡ some q.native_session_id)
      × (q.id ≡ s.request_id_counter)
      × (q.input_ids ≡ r.input_ids)
      × (d : ℕ) × (t : LazyPrefixTable) × (lookup_depth (ids_of r) s.prefix_expansion_ctrl.table
          ≡ some (d, t))
      × (0 < d)
      × (d ≤ length (ids_of r))
      × (q.hash_session_id ≡ before b'@' r.hash_session_id ++ b'@' ∷ join str (take d (ids_of r)))

  abbrev pub IsDone : Record → RequestGenerator → Option (Generated × RequestGenerator) → Type 0
  IsDone r s o =
      (g : Generated) × (s' : RequestGenerator) × (o ≡ some (g, s'))
      × IsSound s'.prefix_expansion_ctrl
      × IsMade r s g s'

  skipped-IsDone :
      (r : Record) (s : RequestGenerator)
      → IsSound s.prefix_expansion_ctrl
      → is_usable s.max_model_len r ≡ false
      → IsDone r s (some (skipped, s))
  skipped-IsDone r s sound h = (skipped, s, refl, sound, (h, refl))

  new_request-IsDone :
      (now : ℕ) (r : Record) (depth : ℕ) (o : Option ℕ) (s : RequestGenerator)
      (c : LazyExpansionController)
      → session_of r ≡ o
      → (t : LazyPrefixTable)
      → lookup_depth (ids_of r) s.prefix_expansion_ctrl.table ≡ some (depth, t)
      → IsSound c
      → is_usable s.max_model_len r ≡ true
      → 0 < depth
      → depth ≤ length (ids_of r)
      → IsDone r s (
          some (
            new_request int str now r
              (before b'@' r.hash_session_id)
              depth
              o
              (record s { prefix_expansion_ctrl = c })))
  new_request-IsDone now r depth none s c i t e sound h a b =
      (value_error, _, refl, sound, (h, refl, i, refl))
  new_request-IsDone now r depth (some session_id) s c i t e sound h a b =
      (generated _, _, refl, sound, (h, refl, refl, i, refl, refl, depth, t, e, a, b, refl))

  ids_nonempty : (n : ℕ) (r : Record) → is_usable n r ≡ true → 0 < length (ids_of r)
  ids_nonempty n r h = ground (arith, h)

  route-IsDone :
      (now : ℕ) (r : Record) (session_id : List ℕ) (s : RequestGenerator)
      → before b'@' (behind b'@' r.hash_session_id) ≡ session_id
      → IsSound s.prefix_expansion_ctrl
      → is_usable s.max_model_len r ≡ true
      → IsDone r s (route int str now r (before b'@' r.hash_session_id) session_id s)
  route-IsDone now r session_id s i sound h =
      let (d, t, e, w) =
        lookup_depth-Walks (ids_of r) s.prefix_expansion_ctrl.table sound.layered in
      let looked : LazyExpansionController = record s.prefix_expansion_ctrl { table = t } in
      let (c, e', sound', _) =
        process-IsSound (ids_of r) looked
          (record { layered = w.layered; counted = sound.counted }) in
      rw (e, e')
        (new_request-IsDone now r d (int session_id) s c (ap int i) t e sound' h
          (omega (arith, w.reach, ids_nonempty s.max_model_len r h)) w.within)

  with_parts-IsDone :
      (now : ℕ) (r : Record) (s : RequestGenerator) (parts : List (List ℕ))
      → split b'@' r.hash_session_id ≡ parts
      → is_rejected s.max_model_len r ≡ false
      → IsSound s.prefix_expansion_ctrl
      → IsDone r s (with_parts int str now r parts s)
  with_parts-IsDone now r s [] e h sound =
      let nothing : length (split b'@' r.hash_session_id) ≡ 0 = ap length e in
      absurd (omega (arith, nothing, length-split b'@' r.hash_session_id))
  with_parts-IsDone now r s (first ∷ []) e h sound =
      let single : length (split b'@' r.hash_session_id) ≡ 1 = ap length e in
      skipped-IsDone r s sound (ground (arith, single, length-split b'@' r.hash_session_id))
  with_parts-IsDone now r s (first ∷ session_id ∷ more) e h sound =
      let marks = length-split b'@' r.hash_session_id in
      let parts : length (split b'@' r.hash_session_id) ≡ suc (suc (length more)) = ap length e in
      let same : before b'@' r.hash_session_id ≡ first =
        sym (head_of-split b'@' r.hash_session_id) ∙ ap head_of e in
      let second : before b'@' (behind b'@' r.hash_session_id) ≡ session_id =
        sym (second_of-split b'@' r.hash_session_id) ∙ ap second_of e in
      by_cases_of (IsDone r s) (leb s.max_model_len (length r.input_ids))
        (λ long. skipped-IsDone r s sound (ground (arith, long)))
        (λ fits.
          by_cases_of (IsDone r s) (ltb (length (split b'@' r.g_session_id)) 3)
            (λ few.
              skipped-IsDone r s sound (ground (arith, few, length-split b'@' r.g_session_id)))
            (λ many.
              let usable =
                accepted-is_usable s.max_model_len r h fits (omega (arith, parts, marks))
                  (ground (arith, many, length-split b'@' r.g_session_id)) in
              subst (λ first. IsDone r s (route int str now r first session_id s)) same
                (route-IsDone now r session_id s second sound usable)))

  -- With a sound controller, generate_request_offline ends for every record and leaves a sound controller. A record that is
  -- not usable is skipped, with nothing changed. Of a usable one it takes a new id from the counter; if its session id is
  -- a number, it makes one more request of the record, with that id, and hashed by what stands before the first mark
  -- and by the first of its block ids, as many as lookup answers, which is one at least; otherwise it raises ValueError.
  pub generate_request_offline-IsDone :
      (now : ℕ) (r : Record) (s : RequestGenerator)
      → IsSound s.prefix_expansion_ctrl
      → IsDone r s (generate_request_offline int str now r s)
  unfolding generate_request_offline
  generate_request_offline-IsDone now r s sound =
      by_cases_of (IsDone r s) (is_rejected s.max_model_len r)
        (λ h. skipped-IsDone r s sound (is_rejected-is_usable s.max_model_len r h))
        (λ h. with_parts-IsDone now r s (split b'@' r.hash_session_id) refl h sound)
