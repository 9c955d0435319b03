-- ===== src/Modify/RemoteAddress.antt =====
-- segments/modify/remoteaddress/remoteaddress.go. The lookups in the two prefix tries (package
-- ip_prefix_trie) are parameters: for an address, the text that is stored for its prefix, if any.
use flowpipeline.Base.{
  ℕ, ◌+◌, ◌≤◌, ◌≡◌, refl, ap₂, ap, Bool, true, false, ◌&&◌, ◌||◌, not, List, [], ◌∷◌, map, Option,
  none, some, String, str_eq, str_eq_iff, ◌==◌, arith, if◌then◌else◌,
}
use flowpipeline.Flow.{Bytes, Flow}
use flowpipeline.Flow.Ip.{to4, is_nil}
use flowpipeline.Segment.{run_map}

pub record RemoteAddress : Type 0 where
  pub policy : String
  pub file_name : String
  pub drop_unmatched : Bool

-- `New`, for the values of the options and the parser `strconv.ParseBool`.
unfoldable pub new : (String → Option Bool) → String → String → String → Option RemoteAddress
new parse_bool policy filename dropunmatched =
    if not (
      str_eq policy "cidr"
      || str_eq policy "border"
      || str_eq policy "user"
      || str_eq policy "clear")
    then none
    else if str_eq policy "cidr" && str_eq filename ""
    then none
    else some (record {
      policy = policy;
      file_name = filename;
      drop_unmatched = elim (parse_bool dropunmatched) [ none ↦ false | some b ↦ b ];
    })

unfoldable pub set_border : Flow → Flow
set_border msg =
    if msg.flow_direction == 0
    then record msg { remote_addr = 1 }
    else if msg.flow_direction == 1
    then record msg { remote_addr = 2 }
    else msg

unfoldable pub set_user : Flow → Flow
set_user msg =
    if msg.flow_direction == 0
    then record msg { remote_addr = 2 }
    else if msg.flow_direction == 1
    then record msg { remote_addr = 1 }
    else msg

unfoldable pub clear : Flow → Flow
clear msg = record msg { remote_addr = 0 }

module _ (lookup_v4 lookup_v6 : Bytes → Option String) where
  -- `ret, _ = trie.Lookup(addr).(string)`.
  unfoldable pub lookup : Bytes → String
  lookup addr = elim (if is_nil (to4 addr) then lookup_v6 addr else lookup_v4 addr) [
    | none ↦ ""
    | some s ↦ s
  ]

  -- The loop over the two addresses, from the index `i` on: `break` leaves it, and `continue`
  -- goes on with the next address, as the end of its body does.
  unfoldable pub match_addresses : Bool → ℕ → List Bytes → Flow → Flow
  match_addresses drop_unmatched i [] msg = msg
  match_addresses drop_unmatched i (addr ∷ addrs) msg =
      let rest = match_addresses drop_unmatched (i + 1) addrs msg in
      if not (str_eq (lookup addr) "")
      then record msg { remote_addr = i + 1 }
      else if drop_unmatched
      then rest
      else rest

  -- `Run`: each policy sends every flow on.
  unfoldable pub run : RemoteAddress → List Flow → List Flow
  run segment msgs =
      if str_eq segment.policy "cidr"
      then run_map
          (λ msg. match_addresses segment.drop_unmatched 0 (msg.src_addr ∷ msg.dst_addr ∷ []) msg)
          msgs
      else if str_eq segment.policy "border"
      then run_map set_border msgs
      else if str_eq segment.policy "user"
      then run_map set_user msgs
      else if str_eq segment.policy "clear"
      then run_map clear msgs
      else []

  match_addresses-drop_unmatched :
      (i : ℕ) (addrs : List Bytes) (msg : Flow)
      → match_addresses true i addrs msg ≡ match_addresses false i addrs msg
  unfolding match_addresses
  match_addresses-drop_unmatched i [] msg = refl
  match_addresses-drop_unmatched i (addr ∷ addrs) msg =
      ground (arith, match_addresses-drop_unmatched (i + 1) addrs msg)

  run_map-eq :
      (f g : Flow → Flow)
      → ((m : Flow) → f m ≡ g m)
      → (msgs : List Flow) → run_map f msgs ≡ run_map g msgs
  unfolding run_map
  run_map-eq f g h [] = refl
  run_map-eq f g h (m ∷ msgs) = ap₂ (λ x l. x ∷ l) (h m) (run_map-eq f g h msgs)

  -- The option `dropunmatched` has no effect: with any policy and over any flows the segment sends
  -- the same flows on with and without it.
  pub run-drop_unmatched :
      (segment : RemoteAddress) (msgs : List Flow)
      → run (record segment { drop_unmatched = true }) msgs
        ≡ run (record segment { drop_unmatched = false }) msgs
  unfolding run
  run-drop_unmatched segment msgs =
      ap
        (λ matched.
          if str_eq segment.policy "cidr"
          then matched
          else if str_eq segment.policy "border"
          then run_map set_border msgs
          else if str_eq segment.policy "user"
          then run_map set_user msgs
          else if str_eq segment.policy "clear"
          then run_map clear msgs
          else [])
        (run_map-eq _ _ (λ m. match_addresses-drop_unmatched 0 (m.src_addr ∷ m.dst_addr ∷ []) m)
          msgs)

  -- With the policy `cidr` the remote address is the source if its prefix is listed, else the
  -- destination if its prefix is listed, and else what it was before; no flow is lost.
  pub run_cidr :
      (segment : RemoteAddress) (msgs : List Flow)
      → segment.policy ≡ "cidr"
      → run segment msgs
        ≡ map {A = Flow}
            (λ msg. record msg {
              remote_addr =
                  if not (str_eq (lookup msg.src_addr) "")
                  then 1
                  else if not (str_eq (lookup msg.dst_addr) "")
                  then 2
                  else msg.remote_addr;
            })
            msgs
  unfolding run run_map match_addresses
  run_cidr segment msgs c = ground (arith, str_eq_iff segment.policy "cidr", each msgs)
    where
      each :
          (ms : List Flow)
          → run_map
              (λ msg.
                match_addresses segment.drop_unmatched 0 (msg.src_addr ∷ msg.dst_addr ∷ []) msg)
              ms
            ≡ map {A = Flow}
                (λ msg. record msg {
                  remote_addr =
                      if not (str_eq (lookup msg.src_addr) "")
                      then 1
                      else if not (str_eq (lookup msg.dst_addr) "")
                      then 2
                      else msg.remote_addr;
                })
                ms
      each [] = refl
      each (m ∷ ms) = ap₂ (λ x l. x ∷ l) (ground arith) (each ms)

-- The policies `border` and `user` are opposite: for an incoming or outgoing flow one sets the
-- source as the remote address and the other the destination, and all other flows both leave as
-- they are.
pub border_user :
    (msg : Flow)
    → (msg.flow_direction ≤ 1 → (set_border msg).remote_addr + (set_user msg).remote_addr ≡ 3)
      × (2 ≤ msg.flow_direction → (set_border msg ≡ msg) × (set_user msg ≡ msg))
unfolding set_border set_user
border_user msg = ground arith
