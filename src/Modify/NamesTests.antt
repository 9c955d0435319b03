-- ===== src/Modify/NamesTests.antt =====
-- anonymize and protomap at concrete inputs.
use flowpipeline.Base.{
  ℕ, List, [], ◌∷◌, ◌++◌, Option, none, some, String, str_eq, ℤ, pos, ◌≡◌, refl, arith, drop,
  replicate, if◌then◌else◌,
}
use flowpipeline.Flow.{Flow, empty_flow}
use flowpipeline.Flow.Ip.{octets, to4}
use flowpipeline.Modify.Anonymize.{SubnetAnonymizer, reduce_ip_to_subnet}
use flowpipeline.Modify.Anonymize.Reduces.{reduce_ip_to_subnet-v6}
use flowpipeline.Modify.ProtoMap.{init, run}
use flowpipeline.Modify.ProtoMap.Names.{IsNamed, run-IsNamed}

abbrev anonymizer : SubnetAnonymizer
anonymizer = record { mask_v4 = 16; mask_v6 = 52 }

abbrev v6 : List ℕ
v6 = 32 ∷ 1 ∷ 13 ∷ 184 ∷ 17 ∷ 34 ∷ replicate 10 1

not_v4 : to4 (some v6) ≡ none
unfolding to4
not_v4 = refl

reduce_ip_to_subnet-v6_example :
    let (reduced, len) = reduce_ip_to_subnet anonymizer (some v6) 0 in
    (drop 4 (octets reduced) ≡ replicate 12 0) × (len ≡ anonymizer.mask_v6)
reduce_ip_to_subnet-v6_example = reduce_ip_to_subnet-v6 anonymizer v6 refl not_v4 (omega arith)

abbrev atoi : String → Option ℤ
atoi s = if str_eq s "6" then some (pos 6) else none

abbrev rows : List (List String)
rows = ("Decimal" ∷ "Keyword" ∷ "Protocol" ∷ []) ∷ ("6" ∷ "TCP" ∷ "Transmission Control" ∷ []) ∷ []

abbrev names : List String
names = replicate 6 "" ++ ("TCP" ∷ []) ++ replicate 249 ""

names_made : init atoi rows ≡ some names
unfolding init
names_made = refl

abbrev flows : List Flow
flows = record empty_flow { proto = 6 } ∷ record empty_flow { proto = 17 } ∷ []

run-IsNamed_example : IsNamed atoi rows flows (run names flows)
run-IsNamed_example = run-IsNamed atoi rows names flows names_made
