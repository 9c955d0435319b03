-- ===== src/Modify/AddCid.antt =====
-- segments/modify/addcid/addcid.go. The lookups in the two prefix tries (package ip_prefix_trie)
-- are parameters: for an address, the 64-bit word that is stored for its prefix, if any.
use flowpipeline.Base.{
  ℕ, ◌%◌, String, str_eq, Bool, false, ◌&&◌, List, Option, none, some, u32, ◌≡◌, arith, ◌==◌, not,
  if◌then◌else◌,
}
use flowpipeline.Flow.{Flow, Bytes}
use flowpipeline.Flow.Ip.{to4, is_nil}
use flowpipeline.Segment
use flowpipeline.Segment.{Sent, nothing, forward}
use flowpipeline.Segment.Chooses.{at_most_one, chosen, run-chosen}

pub record AddCid : Type 0 where
  pub file_name : String
  pub drop_unmatched : Bool
  pub match_both : Bool

-- `New`, for the values of the options and the parser `strconv.ParseBool` without its error.
unfoldable pub new : (String → Option Bool) → String → String → String → Option AddCid
new parse_bool filename dropunmatched matchboth =
    if str_eq filename ""
    then none
    else some (record {
      file_name = filename;
      drop_unmatched = or_false (parse_bool dropunmatched);
      match_both = or_false (parse_bool matchboth);
    })
  where
    or_false : Option Bool → Bool
    or_false none = false
    or_false (some b) = b

module _ (lookup_v4 lookup_v6 : Bytes → Option ℕ) where
  -- `retCid, _ := trie.Lookup(address).(int64)`, from the trie for the kind of the address.
  unfoldable pub lookup_cid : Bytes → ℕ
  lookup_cid address =
      u32 (or_zero (if is_nil (to4 address) then lookup_v6 address else lookup_v4 address))
    where
      or_zero : Option ℕ → ℕ
      or_zero none = 0
      or_zero (some n) = n

  -- The part for a local address.
  unfoldable pub match_local : AddCid → Bytes → Flow → Sent
  match_local segment laddress msg =
      let msg' : Flow = record msg { cid = lookup_cid laddress } in
      if segment.drop_unmatched && (msg'.cid == 0) then nothing else forward msg'

  -- The part for `matchboth`.
  unfoldable pub match_sides : Flow → Flow
  match_sides msg =
      let msg' : Flow = record msg {
        src_cid = lookup_cid msg.src_addr;
        dst_cid = lookup_cid msg.dst_addr;
      } in
      if (msg'.src_cid == 0) && not (msg'.dst_cid == 0)
      then record msg' { cid = msg'.dst_cid }
      else if (msg'.dst_cid == 0) && not (msg'.src_cid == 0)
      then record msg' { cid = msg'.src_cid }
      else msg'

  unfoldable pub step : AddCid → Flow → AddCid × Sent
  step segment msg =
      if not segment.match_both
      then (
        segment,
        if msg.remote_addr == 1
            then match_local segment msg.dst_addr msg
            else if msg.remote_addr == 2
            then match_local segment msg.src_addr msg
            else if not segment.drop_unmatched
            then forward msg
            else nothing,
      )
      else (segment, forward (match_sides msg))

  unfoldable pub run : AddCid → List Flow → AddCid × Sent
  run = Segment.run step

  -- The customer that a trie has for an address, as a 32-bit word, or 0.
  abbrev pub customer : Bytes → ℕ
  customer address = elim (if is_nil (to4 address) then lookup_v6 address else lookup_v4 address) [
    | none ↦ 0
    | some n ↦ n % 4294967296
  ]

  -- The address on the side that is not remote, if the remote side is known.
  abbrev pub local_address : Flow → Option Bytes
  local_address msg =
      if msg.remote_addr == 1
      then some msg.dst_addr
      else if msg.remote_addr == 2
      then some msg.src_addr
      else none

  -- A flow with the customers of both sides; its own is that of the only side with a customer.
  abbrev pub with_sides : Flow → Flow
  with_sides msg =
      let s = customer msg.src_addr in
      let d = customer msg.dst_addr in
      record msg {
        src_cid = s;
        dst_cid = d;
        cid = if s == 0 then (if d == 0 then msg.cid else d) else (if d == 0 then s else msg.cid);
      }

  abbrev pub with_local : AddCid → Flow → Option Flow
  with_local segment msg = elim (local_address msg) [
    | none ↦ if segment.drop_unmatched then none else some msg
    | some address ↦
        if segment.drop_unmatched && (customer address == 0)
        then none
        else some (record msg { cid = customer address })
  ]

  abbrev pub expected : AddCid → Flow → Option Flow
  expected segment msg =
      if segment.match_both then some (with_sides msg) else with_local segment msg

  lookup_cid-customer : (address : Bytes) → lookup_cid address ≡ customer address
  unfolding lookup_cid
  lookup_cid-customer address = ground arith

  match_sides-with_sides : (msg : Flow) → match_sides msg ≡ with_sides msg
  unfolding match_sides
  match_sides-with_sides msg =
      rw (lookup_cid-customer msg.src_addr, lookup_cid-customer msg.dst_addr)
        (sides msg (customer msg.src_addr) (customer msg.dst_addr))
    where
      sides :
          (msg : Flow) (s d : ℕ)
          → (let msg' : Flow = record msg { src_cid = s; dst_cid = d } in
              if (s == 0) && not (d == 0)
              then record msg' { cid = d }
              else if (d == 0) && not (s == 0)
              then record msg' { cid = s }
              else msg')
            ≡ record msg {
              src_cid = s;
              dst_cid = d;
              cid =
                  if s == 0
                  then (if d == 0 then msg.cid else d)
                  else (if d == 0 then s else msg.cid);
            }
      sides msg s d = ground arith

  step-expected :
      (segment : AddCid) (msg : Flow)
      → ((step segment msg).0 ≡ segment)
        × ((step segment msg).1.out ≡ at_most_one (expected segment msg))
  unfolding step match_local
  step-expected segment msg = ground (
    arith,
    lookup_cid-customer msg.src_addr,
    lookup_cid-customer msg.dst_addr,
    match_sides-with_sides msg,
  )

  -- With one side matched, the segment sends every flow with the customer of its local address, and
  -- flows of an unknown remote side as they are, but for those without a customer if unmatched
  -- flows are to be dropped. With both sides matched it sends every flow with the customers of both
  -- sides, and its own customer is that of the only side that has one, if only one has: no flow is
  -- dropped, whatever the option says.
  pub run_matched :
      (segment : AddCid) (ms : List Flow) → (run segment ms).1.out ≡ chosen (expected segment) ms
  unfolding run
  run_matched segment ms = run-chosen step segment (expected segment) (step-expected segment) ms

  -- The two sides of a flow exchanged.
  abbrev pub swap_sides : Flow → Flow
  swap_sides msg = record msg {
    src_addr = msg.dst_addr;
    dst_addr = msg.src_addr;
    src_cid = msg.dst_cid;
    dst_cid = msg.src_cid;
  }

  -- Matching both sides treats them alike: it commutes with the exchange of the two sides.
  pub match_sides-swap_sides :
      (msg : Flow) → match_sides (swap_sides msg) ≡ swap_sides (match_sides msg)
  unfolding match_sides
  match_sides-swap_sides msg = ground arith
