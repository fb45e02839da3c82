-- ===== src/Loadgen/Wire.antt =====
-- `parseDNSMessage`, `decodeDNSName`, `dnsTypeName` and `dnsRCodeName` of
-- docs/dns-demo/loadgen/main.go. A packet is the list of its bytes. A read or a slice beyond the
-- length of a packet is `panic`; where Go lets a slice reach up to the capacity, this is stricter.
pub mod Safety
pub mod Names
pub mod Rounds
pub mod Decoded
pub mod Messages
pub mod Parsed
pub mod Framed
use kubedns_shepherd.Base.{
  ℕ, zero, suc, ◌+◌, ◌-◌, ◌*◌, ◌/◌, ◌%◌, Bool, true, false, not, ◌&&◌, ◌||◌, List, [], ◌∷◌, ◌++◌,
  Option, none, some, Text, codes, Run, done, panic, ◌>>=◌, length, get_elem?, take, drop, ltb, leb,
  ◌==◌, join, decimal, if◌then◌else◌,
}

abbrev pub of_option : Option ℕ → Run ℕ
of_option none = panic
of_option (some c) = done c

-- `packet[i]`
unfoldable pub byte_at : Text → ℕ → Run ℕ
byte_at packet i = of_option (get_elem? packet i)

-- `packet[from:to]`
unfoldable pub slice : Text → ℕ → ℕ → Run Text
slice packet from to =
    if leb from to && leb to (length packet)
    then done (take (to - from) (drop from packet))
    else panic

-- `binary.BigEndian.Uint16(packet[i : i+2])`
unfoldable pub uint16 : Text → ℕ → Run ℕ
unfolding byte_at
uint16 packet i = do hi ← byte_at packet i; lo ← byte_at packet (i + 1); done (hi * 256 + lo)

-- `dnsTypeName`
unfoldable pub dns_type_name : ℕ → Text
unfolding decimal
dns_type_name qtype =
    if qtype == 1 then codes "A" else if qtype == 28 then codes "AAAA" else decimal qtype

-- `dnsRCodeName`
unfoldable pub dns_rcode_name : ℕ → Text
unfolding decimal
dns_rcode_name rcode =
    if rcode == 0
    then codes "NOERROR"
    else if rcode == 1
    then codes "FORMERR"
    else if rcode == 2
    then codes "SERVFAIL"
    else if rcode == 3
    then codes "NXDOMAIN"
    else if rcode == 5
    then codes "REFUSED"
    else decimal rcode

-- The variables of the loop of `decodeDNSName`.
pub record Cursor : Type 0 where
  pub labels : List Text
  pub offset : ℕ
  pub next : ℕ
  pub jumped : Bool

-- How a round ends: the function returns, `none` for its `false`, or the loop goes on.
pub data Round : Type 0 where
  answered : Option (Text × ℕ) → Round
  onwards : Cursor → Round

-- `length & 0xc0`, shifted down.
abbrev pub top_bits : ℕ → ℕ
top_bits length = length / 64 % 4

-- `next`, which keeps its value behind a pointer.
abbrev pub advance : Cursor → ℕ → ℕ
advance c to = if c.jumped then c.next else to

-- The case of a pointer.
unfoldable pub follow_pointer : Text → ℕ → Cursor → Run Round
unfolding byte_at
follow_pointer packet len c =
    if leb (length packet) (c.offset + 1) then done (answered none) else do
      low ← byte_at packet (c.offset + 1)
      done (
          onwards (record c {
            next = advance c (c.offset + 2);
            offset = len % 64 * 256 + low;
            jumped = true;
          }))

-- The case of a label.
unfoldable pub read_label : Text → ℕ → Cursor → Run Round
unfolding slice
read_label packet len c = do
  label ← slice packet (c.offset + 1) (c.offset + 1 + len)
  done (
      onwards (record c {
        labels = c.labels ++ (label ∷ []);
        offset = c.offset + (1 + len);
        next = advance c (c.offset + (1 + len));
      }))

abbrev pub dotted : List Text → Text
dotted labels = join (codes ".") labels ++ codes "."

-- The `switch` on the byte at the offset.
unfoldable pub decode_case : Text → ℕ → Cursor → Run Round
unfolding follow_pointer read_label join
decode_case packet len c =
    if len == 0
    then done (answered (some (dotted c.labels, advance c (c.offset + 1))))
    else if top_bits len == 3
    then follow_pointer packet len c
    else if not (top_bits len == 0) || ltb (length packet) (c.offset + 1 + len)
    then done (answered none)
    else read_label packet len c

unfoldable pub decode_round : Text → Cursor → Run Round
unfolding decode_case byte_at
decode_round packet c =
    if leb (length packet) c.offset
    then done (answered none)
    else do len ← byte_at packet c.offset; decode_case packet len c

abbrev pub next_round : (Cursor → Run (Option (Text × ℕ))) → Round → Run (Option (Text × ℕ))
next_round go_on (answered a) = done a
next_round go_on (onwards c) = go_on c

-- The loop, with the rounds that are left.
unfoldable pub decode_rounds : ℕ → Text → Cursor → Run (Option (Text × ℕ))
unfolding decode_round
decode_rounds zero packet c = done none
decode_rounds (suc rounds) packet c =
    decode_round packet c >>= next_round (decode_rounds rounds packet)

abbrev pub at_start : ℕ → Cursor
at_start start = record { labels = []; offset = start; next = start; jumped = false }

-- `decodeDNSName`
unfoldable pub decode_dns_name : Text → ℕ → Run (Option (Text × ℕ))
unfolding decode_rounds
decode_dns_name packet start = decode_rounds 128 packet (at_start start)

-- `dnsMessage`
pub record DnsMessage : Type 0 where
  pub name : Text
  pub qtype : Text
  pub response : Bool
  pub rcode : Text

-- The length in front of a message that is sent by TCP is checked and dropped.
unfoldable pub unframe : Text → Bool → Run (Option Text)
unfolding uint16 slice
unframe packet false = done (some packet)
unframe packet true = if ltb (length packet) 2 then done none else do
  message_length ← uint16 packet 0
  if ltb (length packet - 2) message_length
      then done none
      else do body ← slice packet 2 (2 + message_length); done (some body)

-- Behind the name of the first question.
unfoldable pub parse_question : Text → Option (Text × ℕ) → Run (Option DnsMessage)
unfolding uint16 dns_type_name dns_rcode_name
parse_question packet none = done none
parse_question packet (some (name, offset)) =
    if ltb (length packet) (offset + 4) then done none else do
      flags ← uint16 packet 2
      qtype ← uint16 packet offset
      done (
          some (record {
            name = name;
            qtype = dns_type_name qtype;
            response = not (flags / 32768 % 2 == 0);
            rcode = dns_rcode_name (flags % 16);
          }))

unfoldable pub parse_body : Option Text → Run (Option DnsMessage)
unfolding uint16 decode_dns_name parse_question
parse_body none = done none
parse_body (some packet) = if ltb (length packet) 12 then done none else do
  questions ← uint16 packet 4
  if questions == 0 then done none else (decode_dns_name packet 12 >>= parse_question packet)

-- `parseDNSMessage`; `none` is its `false`.
unfoldable pub parse_dns_message : Text → Bool → Run (Option DnsMessage)
unfolding unframe parse_body
parse_dns_message packet tcp_framed = unframe packet tcp_framed >>= parse_body
