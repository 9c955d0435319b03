-- ===== src/Modify/AddNetId.antt =====
-- segments/modify/addnetid/addnetid.go. The lookups in the two prefix tries (package
-- ip_prefix_trie) are parameters: for an address, the id that is stored for its prefix, if any. An
-- id is a 64-bit word or a text.
use flowpipeline.Base.{
  ℕ, ◌≡◌, Bool, true, false, ◌&&◌, not, List, Option, none, some, String, str_eq, u32, ◌==◌, ◌%◌,
  refl, arith, if◌then◌else◌,
}
use flowpipeline.Flow.{Bytes, Flow}
use flowpipeline.Flow.Ip.{to4, is_nil}
use flowpipeline.Segment
use flowpipeline.Segment.{Sent, nothing, forward}
use flowpipeline.Segment.Chooses.{at_most_one, chosen, run-chosen}

pub data NetId : Type 0 where
  number : ℕ → NetId
  text : String → NetId

pub record AddNetId : Type 0 where
  pub file_name : String
  pub drop_unmatched : Bool
  pub match_both : Bool
  pub use_int_ids : Bool

-- `New`, for the values of the options and the parser `strconv.ParseBool`.
unfoldable pub new : (String → Option Bool) → String → String → String → String → Option AddNetId
new parse_bool filename dropunmatched matchboth useintids =
    if str_eq filename ""
    then none
    else some (record {
      file_name = filename;
      drop_unmatched = or_false (parse_bool dropunmatched);
      match_both = or_false (parse_bool matchboth);
      use_int_ids = or_false (parse_bool useintids);
    })
  where
    or_false : Option Bool → Bool
    or_false none = false
    or_false (some b) = b

-- `retId, _ := ….(int64)` and `uint32(retId)`; `retId, _ := ….(string)`.
unfoldable pub as_number : Option NetId → ℕ
as_number none = 0
as_number (some (number n)) = u32 n
as_number (some (text s)) = 0

unfoldable pub as_text : Option NetId → String
as_text none = ""
as_text (some (number n)) = ""
as_text (some (text s)) = s

-- The text or the number, as a 32-bit word, in an entry, if it holds one.
abbrev pub text_in : Option NetId → String
text_in (some (text s)) = s
text_in (some (number n)) = ""
text_in none = ""

abbrev pub number_in : Option NetId → ℕ
number_in (some (number n)) = n % 4294967296
number_in (some (text s)) = 0
number_in none = 0

as_text_lem : (found : Option NetId) → as_text found ≡ text_in found
unfolding as_text
as_text_lem none = refl
as_text_lem (some (number n)) = refl
as_text_lem (some (text s)) = refl

as_number_lem : (found : Option NetId) → as_number found ≡ number_in found
unfolding as_number
as_number_lem none = refl
as_number_lem (some (number n)) = refl
as_number_lem (some (text s)) = refl

module _ (lookup_v4 lookup_v6 : Bytes → Option NetId) where
  unfoldable pub lookup : Bytes → Option NetId
  lookup addr = if is_nil (to4 addr) then lookup_v6 addr else lookup_v4 addr

  -- The part for a local address. The test for unmatched flows reads `Cid`.
  unfoldable pub match_local : AddNetId → Bytes → Flow → Sent
  match_local segment laddress msg =
      let msg' : Flow =
        if segment.use_int_ids
        then record msg { net_id = as_number (lookup laddress) }
        else record msg { net_id_string = as_text (lookup laddress) } in
      if segment.drop_unmatched && (msg'.cid == 0) then nothing else forward msg'

  -- The part for `matchboth` and numbers.
  unfoldable pub match_numbers : AddNetId → Flow → Sent
  match_numbers segment msg =
      let msg' : Flow = record msg {
        src_id = as_number (lookup msg.src_addr);
        dst_id = as_number (lookup msg.dst_addr);
      } in
      if (msg'.src_id == 0) && not (msg'.dst_id == 0)
      then forward (record msg' { net_id = msg'.dst_id })
      else if (msg'.dst_id == 0) && not (msg'.src_id == 0)
      then forward (record msg' { net_id = msg'.src_id })
      else if (msg'.dst_id == 0) && (msg'.src_id == 0)
      then (if segment.drop_unmatched then nothing else forward msg')
      else forward msg'

  -- The part for `matchboth` and texts, which drops unmatched flows with any options.
  unfoldable pub match_texts : Flow → Sent
  match_texts msg =
      let msg' : Flow = record msg {
        src_id_string = as_text (lookup msg.src_addr);
        dst_id_string = as_text (lookup msg.dst_addr);
      } in
      if str_eq msg'.src_id_string "" && not (str_eq msg'.dst_id_string "")
      then forward (record msg' { net_id_string = msg'.dst_id_string })
      else if str_eq msg'.dst_id_string "" && not (str_eq msg'.src_id_string "")
      then forward (record msg' { net_id_string = msg'.src_id_string })
      else if str_eq msg'.dst_id_string "" && str_eq msg'.src_id_string ""
      then nothing
      else forward msg'

  unfoldable pub step : AddNetId → Flow → AddNetId × Sent
  step segment msg =
      if not segment.match_both
      then (
        segment,
        if msg.remote_addr == 1
            then match_local segment msg.dst_addr msg
            else if msg.remote_addr == 2
            then match_local segment msg.src_addr msg
            else if not segment.drop_unmatched
            then forward msg
            else nothing,
      )
      else (segment, if segment.use_int_ids then match_numbers segment msg else match_texts msg)

  unfoldable pub run : AddNetId → List Flow → AddNetId × Sent
  run = Segment.run step

  -- What the trie for the kind of an address has for it.
  abbrev pub stored : Bytes → Option NetId
  stored address = if is_nil (to4 address) then lookup_v6 address else lookup_v4 address

  as_text-lookup : (address : Bytes) → as_text (lookup address) ≡ text_in (stored address)
  unfolding lookup
  as_text-lookup address = as_text_lem (stored address)

  as_number-lookup : (address : Bytes) → as_number (lookup address) ≡ number_in (stored address)
  unfolding lookup
  as_number-lookup address = as_number_lem (stored address)

  -- A flow with the texts of both sides, and the text of the only side that has one. It is dropped
  -- if neither has.
  abbrev pub with_texts : Flow → Option Flow
  with_texts msg =
      let s = text_in (stored msg.src_addr) in
      let d = text_in (stored msg.dst_addr) in
      if str_eq s ""
      then (if str_eq d ""
          then none
          else some (record msg { src_id_string = s; dst_id_string = d; net_id_string = d }))
      else some (record msg {
        src_id_string = s;
        dst_id_string = d;
        net_id_string = if str_eq d "" then s else msg.net_id_string;
      })

  step-with_texts :
      (segment : AddNetId) (m : Flow)
      → segment.match_both ≡ true
      → segment.use_int_ids ≡ false
      → ((step segment m).0 ≡ segment) × ((step segment m).1.out ≡ at_most_one (with_texts m))
  unfolding step match_texts
  step-with_texts segment m b i =
      rw (b, i, as_text-lookup m.src_addr, as_text-lookup m.dst_addr) (ground arith)

  -- If both sides are matched with texts, then exactly the flows with a text for one of their sides
  -- are sent, with the texts of both, and that of the only side that has one, if only one has.
  -- The others are dropped, even where unmatched flows are not to be dropped.
  pub run-HasTexts :
      (segment : AddNetId) (ms : List Flow)
      → segment.match_both ≡ true
      → segment.use_int_ids ≡ false
      → (run segment ms).1.out ≡ chosen with_texts ms
  unfolding run
  run-HasTexts segment ms b i =
      run-chosen step segment with_texts (λ m. step-with_texts segment m b i) ms

  -- A flow with the id of the address on the side that is not remote. Unmatched flows are told by
  -- the customer id that they arrive with.
  abbrev pub with_local : AddNetId → Flow → Bytes → Option Flow
  with_local segment msg address =
      if segment.drop_unmatched && (msg.cid == 0)
      then none
      else if segment.use_int_ids
      then some (record msg { net_id = number_in (stored address) })
      else some (record msg { net_id_string = text_in (stored address) })

  abbrev pub expected_local : AddNetId → Flow → Option Flow
  expected_local segment msg =
      if msg.remote_addr == 1
      then with_local segment msg msg.dst_addr
      else if msg.remote_addr == 2
      then with_local segment msg msg.src_addr
      else if segment.drop_unmatched
      then none
      else some msg

  step-expected_local :
      (segment : AddNetId) (m : Flow)
      → segment.match_both ≡ false
      → ((step segment m).0 ≡ segment)
        × ((step segment m).1.out ≡ at_most_one (expected_local segment m))
  unfolding step match_local
  step-expected_local segment m b = rw b (
      ground (
        arith,
        as_text-lookup m.src_addr,
        as_text-lookup m.dst_addr,
        as_number-lookup m.src_addr,
        as_number-lookup m.dst_addr,
      ))

  -- If one side is matched, then every flow is sent with the id of its local address, or as it is
  -- if its remote side is not known. If unmatched flows are to be dropped, those of an unknown
  -- remote side are, and those that arrive without a customer id, whether the segment has found an
  -- id for them or not: it does not write the customer id.
  pub run-cid :
      (segment : AddNetId) (ms : List Flow)
      → segment.match_both ≡ false
      → (run segment ms).1.out ≡ chosen (expected_local segment) ms
  unfolding run
  run-cid segment ms b =
      run-chosen step segment (expected_local segment) (λ m. step-expected_local segment m b) ms
