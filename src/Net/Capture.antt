-- ===== src/Net/Capture.antt =====
-- CaptureIPWithTcpDump of internal/netutil/ip_addr.go: the first packet that has a network layer. The
-- capture is a parameter.
use macos_exec_kubelet.Base.{
  String, ◌<>◌, Option, none, some, List, [], ◌∷◌, Error, wrap, Result, ok, err,
}

-- What the `select` of a round receives: a packet, with the source of its network layer if it has
-- one, or the end of the context.
pub data Received : Type 0 where
  packet : Option String → Received
  cancelled : Error → Received

-- The library: OpenLive of an interface, and SetBPFFilter.
pub record Pcap : Type 0 where
  pub open_reply : String → Option Error
  pub filter_reply : String → Option Error

abbrev pub filter_of : String → String
filter_of mac_addr = "ether src " <> (mac_addr <> " and ip and not src host 0.0.0.0")

-- What is returned within some rounds of the loop, if it is.
unfoldable pub first_source : List Received → Option (Result String)
first_source [] = none
first_source (cancelled e ∷ rounds) = some (err e)
first_source (packet none ∷ rounds) = first_source rounds
first_source (packet (some src) ∷ rounds) = some (ok src)

module _ (pcap : Pcap) where
  after_filter : Option Error → List Received → Option (Result String)
  unfolding first_source
  after_filter (some e) rounds = some (err (wrap "failed to set BPF filter" e))
  after_filter none rounds = first_source rounds

  after_open_live : String → Option Error → List Received → Option (Result String)
  unfolding after_filter
  after_open_live mac_addr (some e) rounds = some (err (wrap "failed to open device" e))
  after_open_live mac_addr none rounds =
      after_filter (pcap.filter_reply (filter_of mac_addr)) rounds

  unfoldable pub capture_ip_with_tcp_dump : String → String → List Received → Option (Result String)
  unfolding after_open_live
  capture_ip_with_tcp_dump interface mac_addr rounds =
      after_open_live mac_addr (pcap.open_reply interface) rounds
