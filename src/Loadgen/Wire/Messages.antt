-- ===== src/Loadgen/Wire/Messages.antt =====
-- `parseDNSMessage` on the messages of RFC 1035, sent by UDP or TCP.
use kubedns_shepherd.Base.{
  ℕ, ◌+◌, ◌-◌, ◌*◌, ◌/◌, ◌%◌, ◌≤◌, ◌<◌, true, false, not, List, [], ◌∷◌, ◌++◌, none, some, Text,
  done, length, take-append, ltb, leb, ◌==◌, ◌≡◌, refl, ap, arith, length-append,
}
use kubedns_shepherd.Loadgen.Wire.{
  DnsMessage, slice, uint16, dns_type_name, dns_rcode_name, dotted, unframe, parse_question,
  parse_body, parse_dns_message,
}
use kubedns_shepherd.Loadgen.Wire.Names.{NameAt, byte_at-append, decode_dns_name_of_NameAt}

-- The twelve bytes in front of a message: the identifier, the flags, the number of questions, and
-- the counts of the other sections.
pub record Header : Type 0 where
  pub id0 : ℕ
  pub id1 : ℕ
  pub flags0 : ℕ
  pub flags1 : ℕ
  pub questions0 : ℕ
  pub questions1 : ℕ
  pub answers0 : ℕ
  pub answers1 : ℕ
  pub authorities0 : ℕ
  pub authorities1 : ℕ
  pub additionals0 : ℕ
  pub additionals1 : ℕ

abbrev pub header_bytes : Header → Text → Text
header_bytes h rest =
    h.id0 ∷ h.id1 ∷ h.flags0 ∷ h.flags1 ∷ h.questions0 ∷ h.questions1 ∷ h.answers0 ∷ h.answers1
    ∷ h.authorities0 ∷ h.authorities1 ∷ h.additionals0 ∷ h.additionals1 ∷ rest

abbrev pub word : ℕ → ℕ → ℕ
word hi lo = hi * 256 + lo

-- A message with a question: a name behind the header, with the type and the class of the question
-- behind it.
pub record Question (packet : Text) (h : Header) (labels : List Text) (qtype : ℕ) : Type 0 where
  pub rest : Text
  pub shape : packet ≡ header_bytes h rest
  pub next : ℕ
  pub passed : ℕ
  pub name : NameAt packet 12 labels next passed
  pub few : passed ≤ 128
  pub front : Text
  pub back : Text
  pub type0 : ℕ
  pub type1 : ℕ
  pub class0 : ℕ
  pub class1 : ℕ
  pub behind : packet ≡ front ++ (type0 ∷ type1 ∷ class0 ∷ class1 ∷ back)
  pub next_front : next ≡ length front
  pub typed : word type0 type1 ≡ qtype

pub uint16-append :
    (packet front back : Text) (hi lo offset : ℕ)
    → packet ≡ front ++ (hi ∷ lo ∷ back)
    → offset ≡ length front
    → uint16 packet offset ≡ done (word hi lo)
unfolding uint16
uint16-append packet front back hi lo offset h k =
    rw
      (
        byte_at-append packet front (hi ∷ lo ∷ back) 0 offset h (omega (arith, k)),
        byte_at-append packet front (hi ∷ lo ∷ back) 1 (offset + 1) h (omega (arith, k)),
      )
      refl

-- What is reported of a message: the name of the question, with a dot behind each label, the name of
-- its type, the highest bit of the flags, and the name of the code in their lowest four.
abbrev pub message_of : Header → List Text → ℕ → DnsMessage
message_of h labels qtype = record {
  name = dotted labels;
  qtype = dns_type_name qtype;
  response = not (word h.flags0 h.flags1 / 32768 % 2 == 0);
  rcode = dns_rcode_name (word h.flags0 h.flags1 % 16);
}

-- A message with a question is parsed.
pub parse_dns_message-Question :
    (packet : Text) (h : Header) (labels : List Text) (qtype : ℕ)
    → Question packet h labels qtype
    → 0 < word h.questions0 h.questions1
    → parse_dns_message packet false ≡ done (some (message_of h labels qtype))
unfolding parse_dns_message unframe parse_body parse_question
parse_dns_message-Question packet h labels qtype q asked =
    let long : ltb (length packet) 12 ≡ false = ground (arith, ap length q.shape) in
    let some_question : (word h.questions0 h.questions1 == 0) ≡ false = ground arith in
    let whole : ltb (length packet) (q.next + 4) ≡ false = ground (
      arith,
      ap length q.behind,
      q.next_front,
      length-append q.front (q.type0 ∷ q.type1 ∷ q.class0 ∷ q.class1 ∷ q.back),
    ) in
    rw
      (
        long,
        uint16-append packet (h.id0 ∷ h.id1 ∷ h.flags0 ∷ h.flags1 ∷ []) _ h.questions0 h.questions1
            4 q.shape refl,
        some_question,
        decode_dns_name_of_NameAt packet q.name q.few,
        whole,
        uint16-append packet (h.id0 ∷ h.id1 ∷ []) _ h.flags0 h.flags1 2 q.shape refl,
        uint16-append packet q.front (q.class0 ∷ q.class1 ∷ q.back) q.type0 q.type1 q.next q.behind
            q.next_front,
        q.typed,
      )
      refl

-- A packet of a TCP connection that starts with the length of a message and the whole message is
-- parsed as that message, whatever follows it.
pub parse_dns_message-framed :
    (message more : Text) (hi lo : ℕ)
    → word hi lo ≡ length message
    → parse_dns_message (hi ∷ lo ∷ (message ++ more)) true ≡ parse_dns_message message false
unfolding parse_dns_message unframe slice
parse_dns_message-framed message more hi lo h =
    let packet : Text = hi ∷ lo ∷ (message ++ more) in
    let long : ltb (length packet) 2 ≡ false = ground arith in
    let inside : ltb (length packet - 2) (word hi lo) ≡ false =
      ground (arith, h, length-append message more) in
    let ordered : leb 2 (2 + word hi lo) ≡ true = ground arith in
    let fits : leb (2 + word hi lo) (length packet) ≡ true =
      ground (arith, h, length-append message more) in
    rw
      (
        long,
        inside,
        ordered,
        fits,
        take-append message more (2 + word hi lo - 2) (omega (arith, h)),
      )
      refl

-- A packet of a TCP connection that is shorter than the length at its start says is not parsed.
pub parse_dns_message_short :
    (hi lo : ℕ) (part : Text)
    → length part < word hi lo
    → parse_dns_message (hi ∷ lo ∷ part) true ≡ done none
unfolding parse_dns_message unframe parse_body
parse_dns_message_short hi lo part h =
    let long : ltb (length (hi ∷ lo ∷ part)) 2 ≡ false = ground arith in
    let outside : ltb (length (hi ∷ lo ∷ part) - 2) (word hi lo) ≡ true = ground arith in
    rw (long, outside) refl
