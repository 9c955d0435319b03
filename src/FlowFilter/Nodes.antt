-- ===== src/FlowFilter/Nodes.antt =====
-- The nodes that visitor.go reads and writes. The types are those of the flowfilter parser, of
-- which the visitor's own uses show the fields; a pointer is an option. The fields named `eval…`
-- are written by the visitor and survive from one flow to the next.
use flowpipeline.Base.{ℕ, Bool, List, Option, String}
use flowpipeline.Flow.{Bytes}

pub record NumericRange : Type 0 where
  pub lower : Option ℕ
  pub upper : Option ℕ
  pub unary : Option String
  pub number : Option ℕ

pub record RangeMatch : Type 0 where
  pub range : NumericRange
  pub eval_result : Bool

pub record SidedRangeMatch : Type 0 where
  pub range : NumericRange
  pub eval_result_src : Bool
  pub eval_result_dst : Bool

pub record CidRangeMatch : Type 0 where
  pub range : NumericRange
  pub eval_result : Bool
  pub eval_result_src : Bool
  pub eval_result_dst : Bool

pub record AddressMatch : Type 0 where
  pub address : Bytes
  pub mask : Option ℕ
  pub eval_result_src : Bool
  pub eval_result_dst : Bool

-- `RouterMatch` and `NextHopMatch`.
pub record HopMatch : Type 0 where
  pub address : Bytes
  pub eval_result : Bool

pub record AsnMatch : Type 0 where
  pub asn : ℕ
  pub eval_result : Bool

-- A value or the key that stands for it: `DscpMatch`, `EcnMatch`, `EtypeMatch`, `ProtoMatch`,
-- `StatusMatch`, `TcpFlagsMatch`.
pub record ValueMatch : Type 0 where
  pub value : Option ℕ
  pub key : Option ℕ
  pub eval_result : Bool

pub record IcmpMatch : Type 0 where
  pub type : Option ℕ
  pub code : Option ℕ
  pub eval_result : Bool

-- `FlowDirectionMatch` and `RemoteCountryMatch`.
pub record TextMatch : Type 0 where
  pub text : String
  pub eval_result : Bool

pub record InterfaceMatch : Type 0 where
  pub snmp_id : Option ℕ
  pub name : Option String
  pub description : Option String
  pub speed : Option SidedRangeMatch
  pub eval_result_src : Bool
  pub eval_result_dst : Bool

pub record NumbersMatch : Type 0 where
  pub numbers : List ℕ
  pub eval_result : Bool

pub record KeyMatch : Type 0 where
  pub key : Option ℕ
  pub eval_result : Bool

pub record FlagMatch : Type 0 where
  pub eval_result : Bool

-- The pointer of a `RegularMatchGroup` that is set.
pub data RegularMatch : Type 0 where
  router : HopMatch → RegularMatch
  next_hop : HopMatch → RegularMatch
  next_hop_asn : AsnMatch → RegularMatch
  bytes : RangeMatch → RegularMatch
  packets : RangeMatch → RegularMatch
  remote_country : TextMatch → RegularMatch
  flow_direction : TextMatch → RegularMatch
  normalized : FlagMatch → RegularMatch
  duration : RangeMatch → RegularMatch
  etype : ValueMatch → RegularMatch
  proto : ValueMatch → RegularMatch
  status : ValueMatch → RegularMatch
  tcp_flags : ValueMatch → RegularMatch
  ip_tos : RangeMatch → RegularMatch
  local_pref : RangeMatch → RegularMatch
  med : RangeMatch → RegularMatch
  dscp : ValueMatch → RegularMatch
  ecn : ValueMatch → RegularMatch
  sampling_rate : RangeMatch → RegularMatch
  icmp : IcmpMatch → RegularMatch
  bps : RangeMatch → RegularMatch
  pps : RangeMatch → RegularMatch
  passes_through : NumbersMatch → RegularMatch
  rpki : KeyMatch → RegularMatch

-- The pointer of a `DirectionalMatchGroup` that is set.
pub data DirectionalMatch : Type 0 where
  address : AddressMatch → DirectionalMatch
  interface : InterfaceMatch → DirectionalMatch
  port : SidedRangeMatch → DirectionalMatch
  asn : SidedRangeMatch → DirectionalMatch
  netsize : SidedRangeMatch → DirectionalMatch
  cid : CidRangeMatch → DirectionalMatch
  vrf : SidedRangeMatch → DirectionalMatch

pub record RegularMatchGroup : Type 0 where
  pub match : RegularMatch
  pub eval_result : Bool

pub record DirectionalMatchGroup : Type 0 where
  pub direction : Option String
  pub match : DirectionalMatch
  pub eval_result : Bool

-- A statement is one of three alternatives with the flag `Negated`; an expression is empty, a
-- statement, or a statement joined with an expression. The last field is `EvalResult`.
mutual
  pub data Expression : Type 0 where
    empty : Bool → Expression
    single : Statement → Bool → Expression
    joined : Statement → String → Expression → Bool → Expression

  pub data Statement : Type 0 where
    directional : Option Bool → DirectionalMatchGroup → Bool → Statement
    regular : Option Bool → RegularMatchGroup → Bool → Statement
    sub : Option Bool → Expression → Bool → Statement

-- How a visit ends: with nil, with an error, or by a panic on a nil pointer.
pub data Status : Type 0 where
  fine bad_range nil_pointer : Status
