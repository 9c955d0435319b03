-- ===== src/Lib.antt =====
-- flowpipeline: pipelines of segments that filter, count and change network flows.
--
-- A pipeline (pipeline/pipeline.go) is a chain of segments (segments/segments.go). Each is a
-- goroutine that receives flows on one channel and sends flows on the next; a filter can also send
-- the flows that it drops on a second channel (segments/filter_segment.go). A segment is modelled
-- as a function from its state and one received flow to its new state and what it sends on the two
-- channels, and its `Run` as a loop over the list of received flows (Segment). Where goroutines
-- share a state under a mutex, each critical section is one step, and a run is a list of steps in
-- any order (Toptalkers/Database/Reaches, FlowExporter, DiskBuffer/Process). A select loop is a
-- function of the events in the order in which it receives them (Branch).
--
-- Base           shared names, Boolean tests, lists and fixed-width arithmetic
-- Flow           pb/enrichedflow.pb.go: the message `EnrichedFlow` as a record of all its fields;
--                Flow/Status and Flow/Mac: pb/enrichedflow.go, its methods; Flow/Timestamps:
--                `SyncMissingTimeStamps` of pb/legacyconverter.go; Flow/Ip: the operations of Go's
--                package net on addresses
-- Segment        the receive loop and what a segment sends
-- Legacy         pb/legacyconverter.go: the conversions from and to the older message
-- FlowFilter     segments/filter/flowfilter: Nodes, the nodes of an expression with the results
--                that the visitor stores in them; Leaves and Groups, the cases of `Visit` in
--                visitor.go; Walk, the order of the visit and `CheckFlow`; Run, flowfilter.go;
--                Meaning, what an expression means
-- Toptalkers     segments/analysis/toptalkers_metrics: Record and Database,
--                toptalker_database.go; Metrics, the loop of toptalkers_metrics.go; Params, the
--                options of toptalker_prometheus.go
-- Thresholds     segments/analysis/traffic_specific_toptalkers: the tree of filters with databases;
--                Options: its definitions in the configuration
-- Pipeline       pipeline/pipeline.go, pipeline/pipeline_initialization.go and
--                segments/parallelized_segment.go: how segments are chained; Registry: the table of
--                segments/segments.go; Wiring, Drops: what the chain does
-- DiskBuffer     segments/input/diskbuffer: the options; State, Writing, Reading and Process: the
--                goroutines of `Run`; Marks: what the options ensure
-- Branch         segments/controlflow/branch/branch.go: the loops `forwardBasedOnCondition` and
--                `drainOutput`
-- Elephant       segments/filter/elephant/elephant.go: the loop with its ramp-up and window, and the
--                options
-- FlowExporter   segments/input/bpf/flow_exporter.go: the cache that builds flows from packets
-- Dictionary     Go's maps as association lists, with the loop that exports and deletes entries
-- Aggregate      segments/filter/aggregate: flowcache.go, the packets, records and BuildFlow; Cache:
--                the operations under its mutex, and aggregate.go
-- Modify         segments/modify/normalize, addcid, addnetid, remoteaddress (and the readers of
--                prefix lists of the three, PrefixLists), anonymize, protomap (with
--                utils/iana.go), addrstrings and sync_timestamps, and segments/filter/drop and
--                segments/pass
--
-- Names are those of the source in lower case with underscores: `isEmpty` is `is_empty`,
-- `processNumericRange` is `process_numeric_range`, a case of `Visit` for `ProtoMatch` is
-- `visit_proto`. Go's fixed-width numbers are natural numbers, with the wrap-around of each
-- operation written out (Base/Words). A nil pointer or slice is `none`. A map is an association
-- list, whose order is the order in which a loop over the map goes. No function needs fuel: the
-- loops run over lists or count down.
--
-- Parameters stand for code outside of this repository: the filter parser and its walk (PostOrder
-- states the order in which it calls the visitor), string functions that the filter uses, the
-- prefix tries of addcid, addnetid and remoteaddress, the anonymizer of cryptopan, `proto.Merge`,
-- the JSON of protojson in the disk buffer, the parsers of package strconv, the
-- rolling window of elephant, and float arithmetic (`scale` and `average`).
--
-- Not modelled: the start and the end of a pipeline's goroutines, input and output (Kafka, files,
-- databases, packet capture), the Prometheus exporter, lookups in external services, logging, and
-- the segments of segments/modify that are not named above.
pub mod Base
pub mod Flow
pub mod Segment
pub mod Aggregate
pub mod Branch
pub mod Dictionary
pub mod DiskBuffer
pub mod Elephant
pub mod FlowExporter
pub mod FlowFilter
pub mod Legacy
pub mod Modify
pub mod Pipeline
pub mod Thresholds
pub mod Toptalkers
