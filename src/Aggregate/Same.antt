-- ===== src/Aggregate/Same.antt =====
-- The keys of the map are compared by an equality.
use flowpipeline.Base.{◌≡◌, arith}
use flowpipeline.FlowExporter.Cache.{bytes_equal_refl, bytes_equal-eq}
use flowpipeline.Dictionary.Laws.{IsEquality}
use flowpipeline.Aggregate.{same_key}

pub same_key-IsEquality : IsEquality same_key
unfolding same_key
same_key-IsEquality = (
  λ k. ground (arith, bytes_equal_refl k.src_addr, bytes_equal_refl k.dst_addr),
  λ k j h.
      let src : k.src_addr ≡ j.src_addr = bytes_equal-eq k.src_addr j.src_addr (ground arith) in
      let dst : k.dst_addr ≡ j.dst_addr = bytes_equal-eq k.dst_addr j.dst_addr (ground arith) in
      let sp : k.src_port ≡ j.src_port = ground arith in
      let dp : k.dst_port ≡ j.dst_port = ground arith in
      let proto : k.proto ≡ j.proto = ground arith in
      let tos : k.ip_tos ≡ j.ip_tos = ground arith in
      let iface : k.in_iface ≡ j.in_iface = ground arith in
      λ i. record {
        src_addr = src i;
        dst_addr = dst i;
        src_port = sp i;
        dst_port = dp i;
        proto = proto i;
        ip_tos = tos i;
        in_iface = iface i;
      },
)
