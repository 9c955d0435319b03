-- ===== src/FlowExporter/Counts.antt =====
-- What `BuildFlow` counts.
use Prim.Native.Nat.{bit_or}
use flowpipeline.Base.{
  ℕ, ◌+◌, ◌%◌, ◌<◌, List, [], ◌∷◌, ◌≡◌, arith, u64_mod, if◌then◌else◌, ◌==◌, add64, ◌∙◌,
}
use flowpipeline.Flow.{Flow}
use flowpipeline.FlowExporter.{Packet, FlowRecord, set_key_fields, add_packets, build_flow}
use flowpipeline.FlowExporter.Cache.{total}

abbrev pub one : Packet → ℕ
one p = 1

abbrev pub size : Packet → ℕ
size p = p.bytes

add_packets-packets :
    (i : ℕ) (msg : Flow) (ps : List Packet)
    → msg.packets < u64_mod
    → (add_packets i msg ps).packets ≡ (msg.packets + total one ps) % u64_mod
unfolding add_packets
add_packets-packets i msg [] h = omega arith
add_packets-packets i msg (p ∷ ps) h =
    let msg' : Flow = if i == 0 then set_key_fields p msg else msg in
    grind (
      arith,
      add_packets-packets (i + 1)
          (record msg' {
            tcp_flags = bit_or msg'.tcp_flags p.tcp_flags;
            bytes = add64 msg'.bytes p.bytes;
            packets = add64 msg'.packets 1;
          })
          ps,
    )

add_packets-bytes :
    (i : ℕ) (msg : Flow) (ps : List Packet)
    → msg.bytes < u64_mod
    → (add_packets i msg ps).bytes ≡ (msg.bytes + total size ps) % u64_mod
unfolding add_packets
add_packets-bytes i msg [] h = omega arith
add_packets-bytes i msg (p ∷ ps) h =
    let msg' : Flow = if i == 0 then set_key_fields p msg else msg in
    grind (
      arith,
      add_packets-bytes (i + 1)
          (record msg' {
            tcp_flags = bit_or msg'.tcp_flags p.tcp_flags;
            bytes = add64 msg'.bytes p.bytes;
            packets = add64 msg'.packets 1;
          })
          ps,
    )

-- A flow counts the packets of its record and adds up their sizes, both modulo 2^64.
pub build_flow_counts :
    (r : FlowRecord)
    → ((build_flow r).packets ≡ total one r.packets % u64_mod)
      × ((build_flow r).bytes ≡ total size r.packets % u64_mod)
unfolding build_flow
build_flow_counts r = (
  add_packets-packets 0 _ r.packets (omega arith) ∙ omega arith,
  add_packets-bytes 0 _ r.packets (omega arith) ∙ omega arith,
)
