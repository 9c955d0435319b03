-- ===== src/Modify/ProtoMap.antt =====
-- segments/modify/protomap/protomap.go and utils/iana.go: the names of the protocols. The rows are
-- those of the embedded file of IANA, `atoi` is `strconv.Atoi` without its error. A result of none
-- is a panic on an index out of range.
pub mod Names
use flowpipeline.Base.{
  ℕ, zero, suc, ◌<◌, ◌≤◌, Bool, true, false, ◌||◌, List, [], ◌∷◌, Option, none, some, String,
  str_eq, str_eq_iff, ℤ, pos, negsuc, ltb, ◌==◌, if◌then◌else◌, ◌>>=◌, length, get_or, set,
  replicate, ◌≡◌, ◌≢◌, refl, arith, ap, All, length-set, length-replicate, Bool-cases, inl, inr,
  Returns, Holds, subst, sym, ◌∙◌,
}
use flowpipeline.Flow.{Flow}

abbrev pub largest_iana_proto_name_index : ℕ
largest_iana_proto_name_index = 256

abbrev pub index : List String → ℕ → Option String
index names i = if ltb i (length names) then some (get_or names i "") else none

module _ (atoi : String → Option ℤ) where
  -- A row: the number, the name, and the description, which is used if the name is empty. The
  -- library's reader of comma-separated values has split it.
  unfoldable pub add_row : List String → List String → Option (List String)
  add_row [] names = some names
  add_row (a ∷ []) names = some names
  add_row (a ∷ b ∷ []) names = some names
  add_row (number ∷ name ∷ description ∷ rest) names = elim (atoi number) [
    | none ↦ some names
    | some (negsuc n) ↦ none
    | some (pos i) ↦
        if ltb i (length names)
        then some (set names i (if str_eq name "" then description else name))
        else none
  ]

  unfoldable pub add_rows : List (List String) → List String → Option (List String)
  unfolding add_row
  add_rows [] names = some names
  add_rows (row ∷ rows) names = add_row row names >>= λ names'. add_rows rows names'

  -- `init`: the array of the names.
  unfoldable pub init : List (List String) → Option (List String)
  unfolding add_rows
  init rows = add_rows rows (replicate largest_iana_proto_name_index "")

-- The test lets the index 256 of the array of 256 names through.
unfoldable pub iana_protocol_number_to_name : List String → ℕ → Option String
iana_protocol_number_to_name names number =
    if ltb largest_iana_proto_name_index number then some "" else index names number

-- `Run` of protomap.
unfoldable pub map_proto : List String → Flow → Option Flow
unfolding iana_protocol_number_to_name
map_proto names msg = iana_protocol_number_to_name names msg.proto >>= λ proto.
    some (record msg { proto_name = if str_eq proto "" then "UNKNOWN" else proto })

unfoldable pub run : List String → List Flow → Option (List Flow)
unfolding map_proto
run names [] = some []
run names (msg ∷ msgs) = map_proto names msg >>= λ m. (run names msgs >>= λ ms. some (m ∷ ms))
