-- ===== src/Loadgen/Wire/Framed.antt =====
-- `parseDNSMessage` on what goes over a connection: over UDP a message as it is, over TCP its length
-- in front of it.
use kubedns_shepherd.Base.{
  ltb→lt, ltb→ge, ℕ, Bool, true, false, [], ◌∷◌, ◌++◌, some, Text, done, length, take, drop,
  take-drop, All, All-append_left, ltb, ◌≡◌, ◌↔◌, refl, sym, ap, ◌∙◌, subst, Bool-cases, inl, inr,
}
use kubedns_shepherd.Loadgen.Wire.{DnsMessage, unframe, parse_dns_message}
use kubedns_shepherd.Loadgen.Wire.Rounds.{IsByte}
use kubedns_shepherd.Loadgen.Wire.Messages.{word, parse_dns_message-framed, parse_dns_message_short}
use kubedns_shepherd.Loadgen.Wire.Parsed.{Parsed, parse_dns_message_iff}

-- How a packet carries a message.
abbrev pub Frames : Text → Bool → Text → Type 0
Frames packet false message = packet ≡ message
Frames packet true message =
    (hi lo : ℕ) × (more : Text) × (packet ≡ hi ∷ lo ∷ (message ++ more))
    × (word hi lo ≡ length message)

pub record Carried (packet : Text) (tcp_framed : Bool) (m : DnsMessage) : Type 0 where
  pub message : Text
  pub frames : Frames packet tcp_framed message
  pub parsed : Parsed message m

parse-Carried :
    (packet : Text) (m : DnsMessage)
    → All IsByte packet
    → parse_dns_message packet true ≡ done (some m)
    → Carried packet true m
unfolding parse_dns_message unframe
parse-Carried [] m bytes h = cc
parse-Carried (hi ∷ []) m bytes h = cc
parse-Carried (hi ∷ lo ∷ part) m bytes h = elim (Bool-cases (ltb (length part) (word hi lo))) [
  | inl e ↦ cc (parse_dns_message_short hi lo part (ltb→lt (length part) (word hi lo) e))
  | inr e ↦
      let (cut, same) = take-drop part (word hi lo) (ltb→ge (length part) (word hi lo) e) in
      let message = take (word hi lo) part in
      let more = drop (word hi lo) part in
      let shape : hi ∷ lo ∷ part ≡ hi ∷ lo ∷ (message ++ more) = ap (λ s. hi ∷ lo ∷ s) cut in
      record {
        message = message;
        frames = (hi, lo, more, shape, sym same);
        parsed =
            (parse_dns_message_iff message m
                (All-append_left IsByte message more (subst (All IsByte) cut (bytes.1.1)))).0
              (sym (parse_dns_message-framed message more hi lo (sym same))
                ∙ ap (λ s. parse_dns_message s true) (sym shape)
                ∙ h);
      }
]

-- A packet of bytes is parsed to a message exactly if it carries it: as it is, or, if it is framed,
-- behind the two bytes of its length and with anything after it. What carries the message is a header
-- of twelve bytes with at least one question, the encoding of a name behind it, with at most 128
-- labels, pointers and root bytes, and four bytes for the type and the class behind the name. The
-- message's name is the labels with a dot behind each, its type is the name of the first two of the
-- four bytes, and its direction and its code are those of the flags.
pub parse_dns_message-Carried_iff :
    (packet : Text) (tcp_framed : Bool) (m : DnsMessage)
    → All IsByte packet
    → (parse_dns_message packet tcp_framed ≡ done (some m)) ↔ Carried packet tcp_framed m
parse_dns_message-Carried_iff packet false m bytes = (
  λ e. record {
    message = packet;
    frames = refl;
    parsed = (parse_dns_message_iff packet m bytes).0 e;
  },
  λ c. (parse_dns_message_iff packet m bytes).1 (subst (λ s. Parsed s m) (sym c.frames) c.parsed),
)
parse_dns_message-Carried_iff packet true m bytes = (
  parse-Carried packet m bytes,
  λ c.
      let (hi, lo, more, shape, same) = c.frames in
      let inner : All IsByte c.message =
        All-append_left IsByte c.message more (subst (All IsByte) shape bytes).1.1 in
      ap (λ s. parse_dns_message s true) shape
      ∙ parse_dns_message-framed c.message more hi lo same
      ∙ (parse_dns_message_iff c.message m inner).1 c.parsed,
)
