-- ===== src/Modify/ProtoMap/Names.antt =====
-- Which names protomap gives.
use flowpipeline.Base.{
  ℕ, Bool, true, false, ◌||◌, List, [], ◌∷◌, Option, none, some, String, str_eq, ℤ, pos, negsuc,
  ltb, ◌==◌, ◌<◌, if◌then◌else◌, ◌>>=◌, length, get_or, set, replicate, map, ◌≡◌, refl, arith, ap,
  ap₂, ◌∙◌, length-set, length-replicate, get_or-set_self, get_or-set_ne, get_or-replicate,
  Bool-cases, inl, inr, Holds, subst,
}
use flowpipeline.Flow.{Flow}
use flowpipeline.Modify.ProtoMap.{
  add_row, add_rows, init, iana_protocol_number_to_name, map_proto, run,
}

-- A row is about a number if it has three columns or more and the number in the first.
abbrev pub is_number : Option ℤ → ℕ → Bool
is_number (some (pos i)) n = i == n
is_number (some (negsuc i)) n = false
is_number none n = false

module _ (atoi : String → Option ℤ) where
  -- The name of a number after a row, for its name before: the second column or, if that is empty,
  -- the third.
  abbrev pub named_by : List String → ℕ → String → String
  named_by (number ∷ name ∷ description ∷ rest) n old =
      if is_number (atoi number) n then (if str_eq name "" then description else name) else old
  named_by [] n old = old
  named_by (a ∷ []) n old = old
  named_by (a ∷ b ∷ []) n old = old

  -- The name by the last row about a number.
  abbrev pub last_name : List (List String) → ℕ → String → String
  last_name [] n old = old
  last_name (row ∷ rows) n old = last_name rows n (named_by row n old)

  -- A table made of another one, with the names that `f` gives.
  abbrev Renames : (ℕ → String → String) → List String → List String → Type 0
  Renames f names names' =
      (length names' ≡ length names) × ((n : ℕ) → get_or names' n "" ≡ f n (get_or names n ""))

  set-renames :
      (names : List String) (i n : ℕ) (name : String)
      → i < length names
      → get_or (set names i name) n "" ≡ (if i == n then name else get_or names n "")
  set-renames names i n name h = elim (Bool-cases (i == n)) [
    | inl e ↦ rw e (
        ap (λ k. get_or (set names i name) k "") (ground (arith, e))
        ∙ get_or-set_self names i name "" h)
    | inr e ↦ rw e (get_or-set_ne names name "" (ground (arith, e)))
  ]

  add_row-Renames :
      (row names : List String) → Holds (Renames (named_by row) names) (add_row atoi row names)
  unfolding add_row
  add_row-Renames [] names = (refl, λ n. refl)
  add_row-Renames (a ∷ []) names = (refl, λ n. refl)
  add_row-Renames (a ∷ b ∷ []) names = (refl, λ n. refl)
  add_row-Renames (number ∷ name ∷ description ∷ rest) names = parsed (atoi number)
    where
      title : String
      title = if str_eq name "" then description else name

      parsed :
          (result : Option ℤ)
          → Holds
              (Renames (λ n old. if is_number result n then title else old) names)
              (elim result [
                | none ↦ some names
                | some (negsuc n) ↦ none
                | some (pos i) ↦ if ltb i (length names) then some (set names i title) else none
              ])
      parsed none = (refl, λ n. refl)
      parsed (some (negsuc n)) = tt
      parsed (some (pos i)) = elim (Bool-cases (ltb i (length names))) [
        | inl e ↦
            rw e (length-set names i title, λ n. set-renames names i n title (ground (arith, e)))
        | inr e ↦ rw e tt
      ]

  add_rows-Renames :
      (rows : List (List String)) (names : List String)
      → Holds (Renames (last_name rows) names) (add_rows atoi rows names)
  unfolding add_rows
  add_rows-Renames [] names = (refl, λ n. refl)
  add_rows-Renames (row ∷ rows) names =
      more (add_row atoi row names) (add_row-Renames row names) (add_rows-Renames rows)
    where
      then_rows :
          (names' : List String) (result : Option (List String))
          → Renames (named_by row) names names'
          → Holds (Renames (last_name rows) names') result
          → Holds (Renames (last_name (row ∷ rows)) names) result
      then_rows names' none h k = tt
      then_rows names' (some names'') h k = (k.0 ∙ h.0, λ n. k.1 n ∙ ap (last_name rows n) (h.1 n))

      more :
          (result : Option (List String))
          → Holds (Renames (named_by row) names) result
          → ((names' : List String)
              → Holds (Renames (last_name rows) names') (add_rows atoi rows names'))
          → Holds
              (Renames (last_name (row ∷ rows)) names)
              (result >>= λ names'. add_rows atoi rows names')
      more none h later = tt
      more (some names') h later = then_rows names' (add_rows atoi rows names') h (later names')

  -- The table: 256 names, each by the last row about its number, or empty.
  abbrev IsTable : List (List String) → List String → Type 0
  IsTable rows names = (length names ≡ 256) × ((n : ℕ) → get_or names n "" ≡ last_name rows n "")

  init-IsTable : (rows : List (List String)) → Holds (IsTable rows) (init atoi rows)
  unfolding init
  init-IsTable rows =
      made (add_rows atoi rows (replicate 256 "")) (add_rows-Renames rows (replicate 256 ""))
    where
      made :
          (result : Option (List String))
          → Holds (Renames (last_name rows) (replicate 256 "")) result
          → Holds (IsTable rows) result
      made none h = tt
      made (some names) h = (
        h.0 ∙ length-replicate {A = String} 256 "",
        λ n. h.1 n ∙ ap (last_name rows n) (get_or-replicate 256 n ""),
      )

  -- The name that the rows give for a protocol, if it is below 256 and they name it.
  abbrev pub proto_name_of : List (List String) → ℕ → String
  proto_name_of rows proto =
      let name = if ltb proto 256 then last_name rows proto "" else "" in
      if str_eq name "" then "UNKNOWN" else name

  proto_name_of-below :
      (rows : List (List String)) (proto : ℕ)
      → ltb proto 256 ≡ true
      → (if str_eq (last_name rows proto "") "" then "UNKNOWN" else last_name rows proto "")
        ≡ proto_name_of rows proto
  proto_name_of-below rows proto h = rw h refl

  abbrev pub with_name : List (List String) → Flow → Flow
  with_name rows msg = record msg { proto_name = proto_name_of rows msg.proto }

  abbrev pub has_256 : List Flow → Bool
  has_256 [] = false
  has_256 (msg ∷ msgs) = (msg.proto == 256) || has_256 msgs

  abbrev pub IsNamed : List (List String) → List Flow → Option (List Flow) → Type 0
  IsNamed rows msgs none = has_256 msgs ≡ true
  IsNamed rows msgs (some sent) = (has_256 msgs ≡ false) × (sent ≡ map (with_name rows) msgs)

  -- A flow as protomap sends it, if it does.
  abbrev IsNamedAs : List (List String) → Flow → Option Flow → Type 0
  IsNamedAs rows msg none = (msg.proto == 256) ≡ true
  IsNamedAs rows msg (some m) = ((msg.proto == 256) ≡ false) × (m ≡ with_name rows msg)

  map_proto-IsNamedAs :
      (rows : List (List String)) (names : List String) (msg : Flow)
      → IsTable rows names
      → IsNamedAs rows msg (map_proto names msg)
  unfolding map_proto iana_protocol_number_to_name
  map_proto-IsNamedAs rows names msg h = elim (Bool-cases (ltb 256 msg.proto)) [
    | inl e ↦
        let out_of_range : ltb msg.proto 256 ≡ false = ground (arith, e) in
        rw (e, out_of_range) (ground arith, refl)
    | inr e ↦ elim (Bool-cases (ltb msg.proto 256)) [
      | inl f ↦
          rw (e, h.0, f, h.1 msg.proto)
            (
              ground (arith, f),
              ap (λ x. record msg { proto_name = x }) (proto_name_of-below rows msg.proto f),
            )
      | inr f ↦ rw (e, h.0, f) (ground arith)
    ]
  ]

  joined :
      (rows : List (List String)) (msg : Flow) (msgs : List Flow) (first : Option Flow)
      (rest : Option (List Flow))
      → IsNamedAs rows msg first
      → IsNamed rows msgs rest
      → IsNamed rows (msg ∷ msgs) (first >>= λ m. (rest >>= λ ms. some (m ∷ ms)))
  joined rows msg msgs none rest a b = ground (arith, a)
  joined rows msg msgs (some m) none a b = ground (arith, a, b)
  joined rows msg msgs (some m) (some ms) a b = (ground (arith, a.0, b.0), ap₂ ◌∷◌ a.1 b.1)

  all_named :
      (rows : List (List String)) (names : List String) (msgs : List Flow)
      → IsTable rows names
      → IsNamed rows msgs (run names msgs)
  unfolding run
  all_named rows names [] h = (refl, refl)
  all_named rows names (msg ∷ msgs) h =
      joined rows msg msgs (map_proto names msg) (run names msgs)
        (map_proto-IsNamedAs rows names msg h) (all_named rows names msgs h)

  -- With the table that the rows make: protomap panics exactly if one of the flows has the protocol
  -- 256; else it sends all flows, each with the name by the last row about its protocol, or
  -- `UNKNOWN` where no row names it or the protocol is above 256.
  pub run-IsNamed :
      (rows : List (List String)) (names : List String) (msgs : List Flow)
      → init atoi rows ≡ some names
      → IsNamed rows msgs (run names msgs)
  run-IsNamed rows names msgs made =
      all_named rows names msgs (subst (Holds (IsTable rows)) made (init-IsTable rows))
