-- ===== src/Loadgen/Dial.antt =====
-- The `Dial` of the resolver in `main` of docs/dns-demo/loadgen/main.go, and the calls that the
-- connections which it returns let through.
pub mod Counted
pub mod Split
use kubedns_shepherd.Base.{
  ℕ, Bool, true, false, ◌&&◌, List, [], ◌∷◌, Text, codes, Result, ok, err, ◌==◌, if◌then◌else◌,
}
use kubedns_shepherd.Loadgen.Tracker.{Call, write, read}

-- `strings.HasPrefix`
unfoldable pub has_prefix : Text → Text → Bool
has_prefix s [] = true
has_prefix [] (c ∷ prefix) = false
has_prefix (d ∷ s) (c ∷ prefix) = d == c && has_prefix s prefix

-- `trackingConn` and `trackingPacketConn`, with the field `tcpFramed`.
pub data Connection : Type 0 where
  tracking_conn : Bool → Connection
  tracking_packet_conn : Bool → Connection

-- The reply of the dialer is an error, or a connection, of which is known whether it is a
-- `net.PacketConn`.
unfoldable pub dial : Text → Result Text Bool → Result Text Connection
unfolding has_prefix
dial network (err e) = err e
dial network (ok is_packet_conn) = ok (
    if is_packet_conn
    then tracking_packet_conn (has_prefix network (codes "tcp"))
    else tracking_conn (has_prefix network (codes "tcp")))

abbrev pub tcp_framed : Connection → Bool
tcp_framed (tracking_conn framed) = framed
tcp_framed (tracking_packet_conn framed) = framed

-- `Write` and `Read`, which a `trackingPacketConn` takes from the `trackingConn` in it.
abbrev pub write_on : Connection → Text → Call
write_on c packet = write packet (tcp_framed c)

abbrev pub read_on : Connection → Text → ℕ → Call
read_on c packet n = read packet n (tcp_framed c)
