-- ===== src/Loadgen/Tracker.antt =====
-- `dnsTracker` of docs/dns-demo/loadgen/main.go with its connections: which messages are counted. The
-- mutex makes each call one step. A candidate is updated through the pointer that the map holds,
-- which is written out as an assignment to its key.
pub mod Counts
pub mod Balance
pub mod Calls
use kubedns_shepherd.Base.{
  ℕ, zero, suc, ◌+◌, ◌%◌, ◌^◌, Bool, true, false, not, ◌&&◌, ◌||◌, List, [], ◌∷◌, ◌++◌, Option,
  none, some, Text, codes, text_eq, lookup, assign, Run, done, panic, ◌>>=◌, ltb, ◌==◌,
  if◌then◌else◌,
}
use kubedns_shepherd.Loadgen.Wire.{DnsMessage, slice, parse_dns_message}

-- `dnsCandidateStats`
pub record Stats : Type 0 where
  pub requests : ℕ
  pub responses : ℕ
  pub rcodes : List (Text × ℕ)

-- `dnsTracker`
pub record Tracker : Type 0 where
  pub requests : ℕ
  pub responses : ℕ
  pub nxdomain : ℕ
  pub candidates : List (Text × Stats)

-- `newDNSTracker`
abbrev pub new_tracker : Tracker
new_tracker = record { requests = 0; responses = 0; nxdomain = 0; candidates = [] }

abbrev pub new_stats : Stats
new_stats = record { requests = 0; responses = 0; rcodes = [] }

-- `n++` on a `uint64`
abbrev pub increment : ℕ → ℕ
increment n = (n + 1) % 2 ^ 64

abbrev pub or_zero : Option ℕ → ℕ
or_zero none = 0
or_zero (some n) = n

abbrev pub or_new : Option Stats → Stats
or_new none = new_stats
or_new (some stats) = stats

abbrev pub key_of : DnsMessage → Text
key_of message = message.name ++ (0 ∷ message.qtype)

-- `candidate`
unfoldable pub candidate : Tracker → DnsMessage → Stats
unfolding lookup
candidate t message = or_new (lookup (key_of message) t.candidates)

abbrev pub store : Tracker → DnsMessage → Stats → Tracker
store t message stats = record t { candidates = assign (key_of message) stats t.candidates }

-- The end of `recordRequest`.
unfoldable pub add_request : Tracker → DnsMessage → Tracker
unfolding candidate assign
add_request t message =
    let stats = candidate t message in
    store (record t { requests = increment t.requests }) message
      (record stats { requests = increment stats.requests })

-- `recordRequest` behind the parser.
abbrev pub count_request : Tracker → Option DnsMessage → Tracker
count_request t none = t
count_request t (some message) = if message.response then t else add_request t message

unfoldable pub record_request : Tracker → Text → Bool → Run Tracker
unfolding add_request parse_dns_message
record_request t packet tcp_framed =
    parse_dns_message packet tcp_framed >>= λ message. done (count_request t message)

abbrev pub nxdomain_code : Text
nxdomain_code = codes "NXDOMAIN"

abbrev pub count_rcode : Text → List (Text × ℕ) → List (Text × ℕ)
count_rcode rcode rcodes = assign rcode (increment (or_zero (lookup rcode rcodes))) rcodes

-- The end of `recordResponse`.
unfoldable pub add_response : Tracker → DnsMessage → Tracker
unfolding candidate assign lookup text_eq
add_response t message =
    let stats = candidate t message in
    store
      (record t {
        responses = increment t.responses;
        nxdomain = if text_eq message.rcode nxdomain_code then increment t.nxdomain else t.nxdomain;
      })
      message
      (record stats {
        responses = increment stats.responses;
        rcodes = count_rcode message.rcode stats.rcodes;
      })

-- `recordResponse` behind the parser.
abbrev pub count_response : Tracker → Option DnsMessage → Tracker
count_response t none = t
count_response t (some message) = if not message.response then t else add_response t message

unfoldable pub record_response : Tracker → Text → Bool → Run Tracker
unfolding add_response parse_dns_message
record_response t packet tcp_framed =
    parse_dns_message packet tcp_framed >>= λ message. done (count_response t message)

-- A call of a tracked connection: `Write` and `WriteTo` with the packet, and `Read` and `ReadFrom`
-- with the buffer as the connection leaves it and the number of bytes that it returns. The packet
-- calls are never framed.
pub data Call : Type 0 where
  write : Text → Bool → Call
  write_to : Text → Call
  read : Text → ℕ → Bool → Call
  read_from : Text → ℕ → Call

abbrev pub record_read : Tracker → Text → ℕ → Bool → Run Tracker
record_read t packet n tcp_framed =
    if ltb 0 n then (slice packet 0 n >>= λ part. record_response t part tcp_framed) else done t

unfoldable pub record_call : Tracker → Call → Run Tracker
unfolding record_request record_response slice
record_call t (write packet tcp_framed) = record_request t packet tcp_framed
record_call t (write_to packet) = record_request t packet false
record_call t (read packet n tcp_framed) = record_read t packet n tcp_framed
record_call t (read_from packet n) = record_read t packet n false

-- The calls in the order in which the mutex lets them in.
unfoldable pub record_calls : Tracker → List Call → Run Tracker
unfolding record_call
record_calls t [] = done t
record_calls t (call ∷ calls) = record_call t call >>= λ t'. record_calls t' calls
