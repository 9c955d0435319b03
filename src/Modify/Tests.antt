-- ===== src/Modify/Tests.antt =====
-- The modifying segments at concrete inputs.
use flowpipeline.Base.{ℕ, true, false, [], ◌∷◌, Option, none, some, String, ◌≡◌, refl}
use flowpipeline.Modify.RemoteAddress
use flowpipeline.Modify.RemoteAddress.{
  RemoteAddress, set_border, set_user, run_cidr, run-drop_unmatched, border_user,
}
use flowpipeline.Modify.AddNetId
use flowpipeline.Modify.AddNetId.{
  AddNetId, NetId, number, text, with_texts, expected_local, run-HasTexts, run-cid,
}
use flowpipeline.Segment.Chooses.{chosen}
use flowpipeline.Flow.{Flow, Bytes, empty_flow}
use flowpipeline.Modify.AddCid
use flowpipeline.Modify.AddCid.{AddCid, run_matched}

abbrev sampled : Flow
sampled = record empty_flow { bytes = 100; packets = 2; sampling_rate = 32 }

abbrev unsampled : Flow
unsampled = record empty_flow { bytes = 100; packets = 2 }

abbrev customer_net : Bytes
customer_net = some (10 ∷ 0 ∷ 0 ∷ 1 ∷ [])

-- A trie that knows the customer 7 for every address of four bytes that is set.
abbrev lookup : Bytes → Option ℕ
lookup none = none
lookup (some l) = some 7

abbrev outgoing : Flow
outgoing = record empty_flow { src_addr = customer_net; remote_addr = 2 }

abbrev incoming : Flow
incoming = record empty_flow { src_addr = customer_net; remote_addr = 1 }

abbrev add_cid : AddCid
add_cid = record { file_name = "cids.csv"; drop_unmatched = true; match_both = false }

run_matched_example :
    (AddCid.run lookup lookup add_cid (outgoing ∷ incoming ∷ [])).1.out
    ≡ chosen (AddCid.expected lookup lookup add_cid) (outgoing ∷ incoming ∷ [])
run_matched_example = run_matched lookup lookup add_cid (outgoing ∷ incoming ∷ [])

-- Tries with an entry for every address that is set.
abbrev lookup_text : Bytes → Option String
lookup_text none = none
lookup_text (some l) = some "inside"

abbrev lookup_number : Bytes → Option NetId
lookup_number none = none
lookup_number (some l) = some (number 7)

abbrev lookup_name : Bytes → Option NetId
lookup_name none = none
lookup_name (some l) = some (text "seven")

abbrev cidr : RemoteAddress
cidr = record { policy = "cidr"; file_name = "prefixes.csv"; drop_unmatched = true }

run-drop_unmatched_example :
    RemoteAddress.run lookup_text lookup_text
      (record cidr { drop_unmatched = true })
      (unsampled ∷ [])
    ≡ RemoteAddress.run lookup_text lookup_text
        (record cidr { drop_unmatched = false })
        (unsampled ∷ [])
run-drop_unmatched_example = run-drop_unmatched lookup_text lookup_text cidr (unsampled ∷ [])

abbrev add_net_id : AddNetId
add_net_id = record {
  file_name = "prefixes.csv";
  drop_unmatched = true;
  match_both = true;
  use_int_ids = true;
}

run-HasTexts_example :
    (AddNetId.run lookup_name lookup_name
      (record add_net_id { use_int_ids = false; drop_unmatched = false })
      (outgoing ∷ unsampled ∷ [])).1.out
    ≡ chosen (with_texts lookup_name lookup_name) (outgoing ∷ unsampled ∷ [])
run-HasTexts_example =
    run-HasTexts lookup_name lookup_name
      (record add_net_id { use_int_ids = false; drop_unmatched = false })
      (outgoing ∷ unsampled ∷ []) refl refl

run-cid_example :
    (AddNetId.run lookup_number lookup_number
      (record add_net_id { match_both = false })
      (outgoing ∷ record outgoing { cid = 3 } ∷ [])).1.out
    ≡ chosen
        (expected_local lookup_number lookup_number (record add_net_id { match_both = false }))
        (outgoing ∷ record outgoing { cid = 3 } ∷ [])
run-cid_example =
    run-cid lookup_number lookup_number (record add_net_id { match_both = false })
      (outgoing ∷ record outgoing { cid = 3 } ∷ []) refl
