-- ===== src/Loadgen/Dial/Counted.antt =====
-- A message that goes over a dialed connection is counted, over TCP and over UDP.
use kubedns_shepherd.Base.{
  lt→ltb, ◌-◌, ◌/◌, ◌%◌, ◌^◌, ◌<◌, Bool, true, false, [], ◌∷◌, ◌++◌, some, Text, codes, Result, ok,
  err, done, All, length, length-append, take-append, append-nil, ltb, leb, ◌≡◌, ◌∙◌, refl, sym, ap,
  arith, Bool-cases, inl, inr, if◌then◌else◌, ok-injective,
}
use kubedns_shepherd.Loadgen.Wire.{DnsMessage, slice, parse_dns_message}
use kubedns_shepherd.Loadgen.Wire.Rounds.{IsByte}
use kubedns_shepherd.Loadgen.Wire.Messages.{parse_dns_message-framed}
use kubedns_shepherd.Loadgen.Wire.Parsed.{Parsed, parse_dns_message_iff}
use kubedns_shepherd.Loadgen.Tracker.{
  Tracker, add_request, add_response, record_request, record_response, record_call,
}
use kubedns_shepherd.Loadgen.Dial.{Connection, has_prefix, dial, tcp_framed, write_on, read_on}

-- The bytes by which a message goes over the network: over TCP its length comes first.
abbrev pub on_wire : Text → Text → Text
on_wire network message =
    if has_prefix network (codes "tcp")
    then (length message / 256) ∷ (length message % 256) ∷ message
    else message

dial_framed :
    (network : Text) (reply : Result Text Bool) (c : Connection)
    → dial network reply ≡ ok c
    → tcp_framed c ≡ has_prefix network (codes "tcp")
unfolding dial
dial_framed network (ok true) c h = ap tcp_framed (ok-injective h refl)
dial_framed network (ok false) c h = ap tcp_framed (ok-injective h refl)
dial_framed network (err e) c h = cc

parse-on_wire :
    (network message : Text) (m : DnsMessage)
    → All IsByte message
    → Parsed message m
    → parse_dns_message (on_wire network message) (has_prefix network (codes "tcp")) ≡ done (some m)
parse-on_wire network message m bytes parsed =
    let plain = (parse_dns_message_iff message m bytes).1 parsed in
    elim (Bool-cases (has_prefix network (codes "tcp"))) [
      | inl e ↦ rw e (
          ap (λ x. parse_dns_message ((length message / 256) ∷ (length message % 256) ∷ x) true)
            (sym (append-nil message))
          ∙ parse_dns_message-framed message [] (length message / 256) (length message % 256)
              (omega arith)
          ∙ plain)
      | inr e ↦ rw e plain
    ]

pub slice-append : (s more : Text) → slice (s ++ more) 0 (length s) ≡ done s
unfolding slice
slice-append s more =
    let low : leb 0 (length s) ≡ true = ground arith in
    let high : leb (length s) (length (s ++ more)) ≡ true = ground (arith, length-append s more) in
    rw (low, high) (ap done (take-append s more (length s - 0) (omega arith)))

on_wire-pos :
    (network message : Text) (m : DnsMessage)
    → Parsed message m
    → 0 < length (on_wire network message)
on_wire-pos network message m parsed =
    let some_bytes : 0 < length message = omega (arith, ap length parsed.question.shape) in
    elim (Bool-cases (has_prefix network (codes "tcp"))) [
      | inl e ↦ rw e (omega arith)
      | inr e ↦ rw e some_bytes
    ]

-- Let a connection be dialed to a network, and let a message of bytes, fewer than 2^16 of them, go
-- over it: as it is, or behind its length if the network's name begins with `tcp`. If it is a request,
-- the `Write` of it counts the request of its candidate; if it is a response, the `Read` that returns
-- it, whatever the buffer holds behind it, counts the response of its candidate and its code.
pub dialed_counts :
    (network : Text) (reply : Result Text Bool) (c : Connection) (message more : Text)
    (m : DnsMessage) (t : Tracker)
    → dial network reply ≡ ok c
    → All IsByte message
    → length message < 2 ^ 16
    → Parsed message m
    → (m.response ≡ false
        → record_call t (write_on c (on_wire network message)) ≡ done (add_request t m))
      × (m.response ≡ true
          → record_call t
              (read_on c (on_wire network message ++ more) (length (on_wire network message)))
            ≡ done (add_response t m))
unfolding record_call record_request record_response
dialed_counts network reply c message more m t dialed bytes short parsed =
    let framed = dial_framed network reply c dialed in
    let parses = parse-on_wire network message m bytes parsed in
    let some_bytes : ltb 0 (length (on_wire network message)) ≡ true =
      lt→ltb 0 (length (on_wire network message)) (on_wire-pos network message m parsed) in
    (
      λ request. rw (framed, parses, request) refl,
      λ response.
          rw (some_bytes, slice-append (on_wire network message) more, framed, parses, response)
            refl,
    )
