-- ===== src/Loadgen/Wire/Parsed.antt =====
-- `parseDNSMessage` the other way round: what it returns stands in the packet.
use kubedns_shepherd.Base.{
  ℕ, ◌+◌, ◌≤◌, ◌<◌, false, List, [], ◌∷◌, ◌++◌, Option, none, some, Text, done, Ends, Ends-done,
  length, take, drop, take-drop, length-append, All, ltb, ◌==◌, ◌≡◌, ◌↔◌, refl, sym, ap, ◌∙◌, subst,
  arith, Bool-cases, inl, inr,
}
use kubedns_shepherd.Loadgen.Wire.{
  DnsMessage, unframe, parse_question, parse_body, parse_dns_message, decode_dns_name, dotted,
}
use kubedns_shepherd.Loadgen.Wire.Safety.{Bounded, decode_dns_name-Bounded}
use kubedns_shepherd.Loadgen.Wire.Rounds.{IsByte}
use kubedns_shepherd.Loadgen.Wire.Names.{NameAt}
use kubedns_shepherd.Loadgen.Wire.Decoded.{decode_dns_name_iff}
use kubedns_shepherd.Loadgen.Wire.Messages.{
  Header, header_bytes, word, Question, message_of, uint16-append, parse_dns_message-Question,
}

-- The message that a packet holds.
pub record Parsed (packet : Text) (m : DnsMessage) : Type 0 where
  pub header : Header
  pub labels : List Text
  pub qtype : ℕ
  pub question : Question packet header labels qtype
  pub asked : 0 < word header.questions0 header.questions1
  pub is : m ≡ message_of header labels qtype

header_splits :
    (packet : Text)
    → 12 ≤ length packet
    → (h : Header) × (rest : Text) × (packet ≡ header_bytes h rest)
header_splits (a ∷ b ∷ c ∷ d ∷ e ∷ f ∷ g ∷ h ∷ i ∷ j ∷ k ∷ l ∷ rest) long = (
  record {
    id0 = a;
    id1 = b;
    flags0 = c;
    flags1 = d;
    questions0 = e;
    questions1 = f;
    answers0 = g;
    answers1 = h;
    authorities0 = i;
    authorities1 = j;
    additionals0 = k;
    additionals1 = l;
  },
  rest,
  refl,
)
header_splits _ long = absurd (omega arith)

four_splits : (s : Text) → 4 ≤ length s → (a b c d : ℕ) × (rest : Text) × (s ≡ a ∷ b ∷ c ∷ d ∷ rest)
four_splits (a ∷ b ∷ c ∷ d ∷ rest) h = (a, b, c, d, rest, refl)
four_splits _ h = absurd (omega arith)

-- A result is what the packet holds.
abbrev Holds : Text → Option DnsMessage → Type 0
Holds packet none = Unit
Holds packet (some m) = Parsed packet m

-- Behind a name that is encoded at the first byte after the header.
parse_question-Holds :
    (packet : Text) (h : Header) (rest : Text) (name : Text) (next : ℕ)
    → packet ≡ header_bytes h rest
    → 0 < word h.questions0 h.questions1
    → (labels : List Text) × (n : ℕ) × NameAt packet 12 labels next n
      × (n ≤ 128)
      × (name ≡ dotted labels)
    → Ends (Holds packet) (parse_question packet (some (name, next)))
unfolding parse_question
parse_question-Holds packet h rest name next shape asked (labels, n, at, few, spelt) =
    elim (Bool-cases (ltb (length packet) (next + 4))) [
      | inl e ↦ rw e tt
      | inr e ↦
          let (cut, same) = take-drop packet next (ground (arith, e)) in
          let (a, b, c, d, back, four) = four_splits (drop next packet) (
            ground (
              arith,
              e,
              ap length cut,
              length-append (take next packet) (drop next packet),
              same,
            )) in
          let behind = cut ∙ ap (λ s. take next packet ++ s) four in
          rw
            (
              e,
              uint16-append packet (h.id0 ∷ h.id1 ∷ []) _ h.flags0 h.flags1 2 shape refl,
              uint16-append packet (take next packet) (c ∷ d ∷ back) a b next behind (sym same),
            )
            (record {
              header = h;
              labels = labels;
              qtype = word a b;
              question = record {
                rest = rest;
                shape = shape;
                next = next;
                passed = n;
                name = at;
                few = few;
                front = take next packet;
                back = back;
                type0 = a;
                type1 = b;
                class0 = c;
                class1 = d;
                behind = behind;
                next_front = sym same;
                typed = refl;
              };
              asked = asked;
              is = cc spelt;
            })
    ]

parse_decoded-Holds :
    (packet : Text) (h : Header) (rest : Text) (decoded : Option (Text × ℕ))
    → All IsByte packet
    → packet ≡ header_bytes h rest
    → 0 < word h.questions0 h.questions1
    → decode_dns_name packet 12 ≡ done decoded
    → Ends (Holds packet) (parse_question packet decoded)
parse_decoded-Holds packet h rest none bytes shape asked e = unfold parse_question in tt
parse_decoded-Holds packet h rest (some (name, next)) bytes shape asked e =
    parse_question-Holds packet h rest name next shape asked
      ((decode_dns_name_iff packet 12 name next bytes).0 e)

parse_body-Holds :
    (packet : Text) → All IsByte packet → Ends (Holds packet) (parse_body (some packet))
unfolding parse_body
parse_body-Holds packet bytes = elim (Bool-cases (ltb (length packet) 12)) [
  | inl e ↦ rw e tt
  | inr e ↦
      let (h, rest, shape) = header_splits packet (ground (arith, e)) in
      rw
        (
          e,
          uint16-append packet (h.id0 ∷ h.id1 ∷ h.flags0 ∷ h.flags1 ∷ []) _ h.questions0
              h.questions1 4 shape refl,
        )
        (elim (Bool-cases (word h.questions0 h.questions1 == 0)) [
          | inl f ↦ rw f tt
          | inr f ↦
              let (decoded, known, _) =
                Ends-done (Bounded packet 12) (decode_dns_name packet 12)
                  (decode_dns_name-Bounded packet 12) in
              rw (f, known)
                (parse_decoded-Holds packet h rest decoded bytes shape (ground (arith, f)) known)
        ])
]

-- An unframed packet of bytes is parsed to a message exactly if it holds that message: a header of
-- twelve bytes with at least one question, the encoding of a name behind it, with at most 128 labels,
-- pointers and root bytes, and four bytes for the type and the class behind the name. The message's
-- name is the labels with a dot behind each, its type is the name of the first two of the four bytes,
-- and its direction and its code are those of the flags.
pub parse_dns_message_iff :
    (packet : Text) (m : DnsMessage)
    → All IsByte packet
    → (parse_dns_message packet false ≡ done (some m)) ↔ Parsed packet m
unfolding parse_dns_message unframe
parse_dns_message_iff packet m bytes = (
  λ e. subst (Ends (Holds packet)) e (parse_body-Holds packet bytes),
  λ p.
      parse_dns_message-Question packet p.header p.labels p.qtype p.question p.asked
      ∙ ap (λ x. done (some x)) (sym p.is),
)
