-- ===== src/Tests/LoadgenTests.antt =====
-- The load generator: tests on packets, and the theorems at concrete packets and calls.
use kubedns_shepherd.Loadgen.Dial.{dial, tracking_conn, write_on, read_on}
use kubedns_shepherd.Loadgen.Dial.Counted.{on_wire, dialed_counts}
use kubedns_shepherd.Loadgen.Dial.Split.{record_calls_split}
use kubedns_shepherd.Base.{
  join, ℕ, ◌<◌, ◌≤◌, true, false, List, [], ◌∷◌, ◌++◌, Option, none, some, Text, codes, done, ok,
  ◌>>=◌, length, drop, All, ◌≡◌, ◌↔◌, refl, arith,
}
use kubedns_shepherd.Loadgen.Wire.{
  DnsMessage, decode_dns_name, parse_dns_message, dns_type_name, dns_rcode_name, dotted,
}
use kubedns_shepherd.Loadgen.Wire.Safety.{parse_dns_message_returns, decode_dns_name-lt}
use kubedns_shepherd.Loadgen.Wire.Names.{NameAt, root, labelled, pointer}
use kubedns_shepherd.Loadgen.Wire.Rounds.{IsByte}
use kubedns_shepherd.Loadgen.Wire.Decoded.{decode_dns_name_iff}
use kubedns_shepherd.Loadgen.Wire.Messages.{Header, header_bytes, Question, message_of}
use kubedns_shepherd.Loadgen.Wire.Parsed.{Parsed}
use kubedns_shepherd.Loadgen.Wire.Framed.{Carried, parse_dns_message-Carried_iff}
use kubedns_shepherd.Loadgen.Tracker.{
  Tracker, record_call, add_request, add_response, new_tracker, Call, write, read, read_from,
  record_calls,
}
use kubedns_shepherd.Loadgen.Tracker.Counts.{Seen, Counts}
use kubedns_shepherd.Loadgen.Tracker.Calls.{seen_all, record_calls-Counts}
use kubedns_shepherd.Loadgen.Snapshot.{Snapshot, snapshot}
use kubedns_shepherd.Loadgen.Snapshot.Summary.{Summary, snapshot_of_calls}

abbrev header : Header
header = record {
  id0 = 0;
  id1 = 7;
  flags0 = 129;
  flags1 = 131;
  questions0 = 0;
  questions1 = 1;
  answers0 = 0;
  answers1 = 0;
  authorities0 = 0;
  authorities1 = 0;
  additionals0 = 0;
  additionals1 = 0;
}

-- The name is a label and a pointer to the byte behind the question.
abbrev body : Text
body = 1 ∷ b'a' ∷ 192 ∷ 20 ∷ 0 ∷ 28 ∷ 0 ∷ 1 ∷ 1 ∷ b'b' ∷ 0 ∷ []

abbrev packet : Text
packet = header_bytes header body

abbrev name : NameAt packet 12 (codes "a" ∷ codes "b" ∷ []) 16 4
name =
    labelled (header_bytes header []) (codes "a") (192 ∷ 20 ∷ 0 ∷ 28 ∷ 0 ∷ 1 ∷ 1 ∷ b'b' ∷ 0 ∷ [])
      refl refl (omega arith) (omega arith)
      (pointer (header_bytes header (1 ∷ b'a' ∷ [])) (0 ∷ 28 ∷ 0 ∷ 1 ∷ 1 ∷ b'b' ∷ 0 ∷ [])
        {target = 20} refl refl (omega arith)
        (labelled (header_bytes header (1 ∷ b'a' ∷ 192 ∷ 20 ∷ 0 ∷ 28 ∷ 0 ∷ 1 ∷ [])) (codes "b")
          (0 ∷ []) refl refl (omega arith) (omega arith)
          (root (header_bytes header (1 ∷ b'a' ∷ 192 ∷ 20 ∷ 0 ∷ 28 ∷ 0 ∷ 1 ∷ 1 ∷ b'b' ∷ [])) [] refl
            refl)))

abbrev question : Question packet header (codes "a" ∷ codes "b" ∷ []) 28
question = record {
  rest = body;
  shape = refl;
  next = 16;
  passed = 4;
  name = name;
  few = omega arith;
  front = header_bytes header (1 ∷ b'a' ∷ 192 ∷ 20 ∷ []);
  back = 1 ∷ b'b' ∷ 0 ∷ [];
  type0 = 0;
  type1 = 28;
  class0 = 0;
  class1 = 1;
  behind = refl;
  next_front = refl;
  typed = refl;
}

abbrev answer : DnsMessage
answer = record {
  name = codes "a.b.";
  qtype = codes "AAAA";
  response = true;
  rcode = codes "NXDOMAIN";
}

parse_test : parse_dns_message packet false ≡ done (some answer)
unfolding parse_dns_message
parse_test = refl

-- A pointer to itself ends with the rounds.
loop_test : decode_dns_name (192 ∷ 0 ∷ []) 0 ≡ done none
unfolding decode_dns_name
loop_test = refl

decode_test : decode_dns_name packet 12 ≡ done (some (codes "a.b.", 16))
unfolding decode_dns_name
decode_test = refl

rcode_tests :
    (dns_rcode_name 3 ≡ codes "NXDOMAIN")
    × (dns_rcode_name 10 ≡ codes "10")
    × (dns_type_name 65 ≡ codes "65")
unfolding dns_rcode_name dns_type_name
rcode_tests = (refl, refl, refl)

parse_dns_message_returns_example :
    (m : Option DnsMessage) × (parse_dns_message packet true ≡ done m)
parse_dns_message_returns_example = parse_dns_message_returns packet true

decode_dns_name-lt_example : (12 < 16) × (16 ≤ length packet)
decode_dns_name-lt_example = decode_dns_name-lt packet 12 decode_test

packet_bytes : All IsByte packet
packet_bytes = ground arith

decode_dns_name_iff_example : (decode_dns_name packet 12 ≡ done (some (codes "a.b.", 16))) ↔ (
    (labels : List Text) × (n : ℕ) × NameAt packet 12 labels 16 n
    × (n ≤ 128)
    × (codes "a.b." ≡ dotted labels))
decode_dns_name_iff_example = decode_dns_name_iff packet 12 (codes "a.b.") 16 packet_bytes

answer_test : answer ≡ message_of header (codes "a" ∷ codes "b" ∷ []) 28
unfolding dns_type_name dns_rcode_name join
answer_test = refl

abbrev parsed : Parsed packet answer
parsed = record {
  header = header;
  labels = codes "a" ∷ codes "b" ∷ [];
  qtype = 28;
  question = question;
  asked = omega arith;
  is = answer_test;
}

-- Over TCP, with a byte that does not belong to the message.
abbrev framed_packet : Text
framed_packet = 0 ∷ length packet ∷ (packet ++ (9 ∷ []))

framed_bytes : All IsByte framed_packet
framed_bytes = ground arith

parse_dns_message-Carried_iff_example :
    (parse_dns_message framed_packet true ≡ done (some answer)) ↔ Carried framed_packet true answer
parse_dns_message-Carried_iff_example =
    parse_dns_message-Carried_iff framed_packet true answer framed_bytes

carried : Carried framed_packet true answer
carried = record {
  message = packet;
  frames = (0, length packet, 9 ∷ [], refl, refl);
  parsed = parsed;
}

dialed_test : dial (codes "tcp") (ok false) ≡ ok (tracking_conn true)
unfolding dial
dialed_test = refl

dialed_counts_example :
    (answer.response ≡ false
      → record_call new_tracker (write_on (tracking_conn true) (on_wire (codes "tcp") packet))
        ≡ done (add_request new_tracker answer))
    × (answer.response ≡ true
        → record_call new_tracker (
            read_on
              (tracking_conn true)
              (on_wire (codes "tcp") packet ++ (9 ∷ []))
              (length (on_wire (codes "tcp") packet)))
          ≡ done (add_response new_tracker answer))
dialed_counts_example =
    dialed_counts (codes "tcp") (ok false) (tracking_conn true) packet (9 ∷ []) answer new_tracker
      dialed_test packet_bytes (omega arith) parsed

-- The packet with an id of 32,775.
abbrev split_rest : Text
split_rest = drop 2 packet

record_calls_split_example :
    record_calls new_tracker (read (0 ∷ 23 ∷ []) 2 true ∷ read (128 ∷ 7 ∷ split_rest) 23 true ∷ [])
    ≡ done new_tracker
record_calls_split_example = record_calls_split new_tracker 0 23 128 7 split_rest refl (omega arith)

abbrev calls : List Call
calls = write (0 ∷ 23 ∷ packet) true ∷ read packet 23 false ∷ read_from packet 0 ∷ []

record_calls-Counts_example :
    (ss : List Seen) × (t : Tracker) × (seen_all calls ≡ done ss)
    × (record_calls new_tracker calls ≡ done t)
    × Counts ss t
record_calls-Counts_example = record_calls-Counts calls (tt, (omega arith, (omega arith, tt)))

-- What is written is marked as a response here, so that only what is read is counted.
snapshot_test :
    (record_calls new_tracker calls >>= snapshot)
    ≡ done (record {
      requests = 0;
      responses = 1;
      nxdomain = 1;
      candidates =
          record {
            name = codes "a.b.";
            type = codes "AAAA";
            requests = 0;
            responses = 1;
            rcodes = (codes "NXDOMAIN", 1) ∷ [];
          }
          ∷ [];
    })
unfolding record_calls snapshot
snapshot_test = refl

snapshot_of_calls_example :
    (t : Tracker) × (out : Snapshot) × (record_calls new_tracker calls ≡ done t)
    × (snapshot t ≡ done out)
    × Summary t out
snapshot_of_calls_example = snapshot_of_calls calls (tt, (omega arith, (omega arith, tt)))
