-- ===== src/Modify/AddrStrings.antt =====
-- segments/modify/addrstrings/addrstrings.go. `ip_string` is `IP.String`, `sprintf` the format of a
-- MAC address, and `contains` is `strings.Contains`.
use flowpipeline.Base.{ℕ, Bool, List, String, ◌==◌, if◌then◌else◌}
use flowpipeline.Flow.{Bytes, Flow}
use flowpipeline.Flow.Ip.{is_nil}
use flowpipeline.Flow.Mac.{
  MacSeparator, mac_separator_dash, mac_separator_colon, src_mac_string, dst_mac_string,
}
use flowpipeline.Segment.{run_map}

-- `New`: the separator.
unfoldable pub new : (String → String → Bool) → String → MacSeparator
new contains macseparator =
    if contains macseparator "dash" then mac_separator_dash else mac_separator_colon

module _ (ip_string : Bytes → String) (sprintf : MacSeparator → List ℕ → String) where
  abbrev ip_or : Bytes → String → String
  ip_or ip old = if is_nil ip then old else ip_string ip

  unfoldable pub add_strings : MacSeparator → Flow → Flow
  unfolding src_mac_string dst_mac_string
  add_strings sep msg = record msg {
    source_ip = ip_or msg.src_addr msg.source_ip;
    destination_ip = ip_or msg.dst_addr msg.destination_ip;
    next_hop_ip = ip_or msg.next_hop msg.next_hop_ip;
    sampler_ip = ip_or msg.sampler_address msg.sampler_ip;
    source_mac = if msg.src_mac == 0 then msg.source_mac else src_mac_string sprintf msg sep;
    destination_mac =
        if msg.dst_mac == 0 then msg.destination_mac else dst_mac_string sprintf msg sep;
  }

  unfoldable pub run : MacSeparator → List Flow → List Flow
  unfolding add_strings
  run sep = run_map (add_strings sep)
