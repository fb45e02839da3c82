-- ===== src/Loadgen/Wire/Safety.antt =====
-- `parseDNSMessage` on arbitrary bytes: no read is out of range.
use kubedns_shepherd.Base.{
  ℕ, zero, suc, ◌+◌, ◌≤◌, ◌<◌, Bool, true, false, Option, none, some, Text, Run, done, Ends,
  Ends-bind, Ends-done, length, subst, ◌-◌, ltb, leb, le→leb, ◌==◌, ◌≡◌, refl, arith, ◌∷◌, [],
  Bool-cases, inl, inr, ◌||◌, not,
}
use kubedns_shepherd.Loadgen.Wire.{
  byte_at, slice, uint16, Cursor, Round, answered, onwards, follow_pointer, read_label, decode_case,
  decode_round, next_round, decode_rounds, decode_dns_name, at_start, unframe, parse_question,
  parse_body, parse_dns_message, top_bits, DnsMessage,
}

pub byte_at-Ends :
    (packet : Text) (i : ℕ) → i < length packet → Ends (λ c. Unit {0}) (byte_at packet i)
unfolding byte_at
byte_at-Ends [] i h = absurd (omega arith)
byte_at-Ends (c ∷ packet) zero h = tt
byte_at-Ends (c ∷ packet) (suc i) h = byte_at-Ends packet i (omega arith)

uint16-Ends :
    (packet : Text) (i : ℕ) → i + 1 < length packet → Ends (λ n. Unit {0}) (uint16 packet i)
unfolding uint16
uint16-Ends packet i h =
    Ends-bind _ _ (byte_at packet i) _ (byte_at-Ends packet i (omega arith)) (λ hi _.
      Ends-bind _ _ (byte_at packet (i + 1)) _ (byte_at-Ends packet (i + 1) h) (λ lo _. tt))

pub slice-Ends :
    (packet : Text) (from to : ℕ)
    → from ≤ to
    → to ≤ length packet
    → Ends (λ s. Unit {0}) (slice packet from to)
unfolding slice
slice-Ends packet from to h k = rw (le→leb from to h, le→leb to (length packet) k) tt

-- `next` is the offset up to a pointer, and behind a byte of the packet from the first pointer on.
record Valid (packet : Text) (start : ℕ) (c : Cursor) : Type 0 where
  before : c.jumped ≡ false → (c.next ≡ c.offset) × (start ≤ c.offset)
  behind : c.jumped ≡ true → (start < c.next) × (c.next ≤ length packet)

abbrev pub Bounded : Text → ℕ → Option (Text × ℕ) → Type 0
Bounded packet start none = Unit
Bounded packet start (some (name, next)) = (start < next) × (next ≤ length packet)

RoundValid : Text → ℕ → Round → Type 0
RoundValid packet start (answered a) = Bounded packet start a
RoundValid packet start (onwards c) = Valid packet start c

follow_pointer-Valid :
    (packet : Text) (start len : ℕ) (c : Cursor)
    → Valid packet start c
    → Ends (RoundValid packet start) (follow_pointer packet len c)
unfolding follow_pointer RoundValid
follow_pointer-Valid packet start len c v = elim (Bool-cases (leb (length packet) (c.offset + 1))) [
  | inl e ↦ rw e tt
  | inr e ↦ rw e (
      Ends-bind _ _ (byte_at packet (c.offset + 1)) _
        (byte_at-Ends packet (c.offset + 1) (ground (arith, e)))
        (λ low _. record {
          before = λ h. absurd (ground (arith, h));
          behind = λ h. ground (arith, e, v.before, v.behind);
        }))
]

read_label-Valid :
    (packet : Text) (start len : ℕ) (c : Cursor)
    → Valid packet start c
    → c.offset + 1 + len ≤ length packet
    → Ends (RoundValid packet start) (read_label packet len c)
unfolding read_label RoundValid
read_label-Valid packet start len c v h =
    Ends-bind _ _ (slice packet (c.offset + 1) (c.offset + 1 + len)) _
      (slice-Ends packet (c.offset + 1) (c.offset + 1 + len) (omega arith) h)
      (λ label _. record {
        before = λ j. ground (arith, j, v.before j);
        behind = λ j. ground (arith, j, v.behind j);
      })

decode_case-Valid :
    (packet : Text) (start len : ℕ) (c : Cursor)
    → Valid packet start c
    → c.offset < length packet
    → Ends (RoundValid packet start) (decode_case packet len c)
unfolding decode_case RoundValid
decode_case-Valid packet start len c v h = elim (Bool-cases (len == 0)) [
  | inl e ↦ rw e (ground (arith, v.before, v.behind))
  | inr e ↦ rw e (elim (Bool-cases (top_bits len == 3)) [
    | inl e' ↦ rw e' (follow_pointer-Valid packet start len c v)
    | inr e' ↦
        rw e'
          (elim (Bool-cases (not (top_bits len == 0) || ltb (length packet) (c.offset + 1 + len))) [
            | inl e'' ↦ rw e'' tt
            | inr e'' ↦ rw e'' (read_label-Valid packet start len c v (ground (arith, e'')))
          ])
  ])
]

decode_round-Valid :
    (packet : Text) (start : ℕ) (c : Cursor)
    → Valid packet start c
    → Ends (RoundValid packet start) (decode_round packet c)
unfolding decode_round RoundValid
decode_round-Valid packet start c v = elim (Bool-cases (leb (length packet) c.offset)) [
  | inl e ↦ rw e tt
  | inr e ↦ rw e (
      Ends-bind _ _ (byte_at packet c.offset) _ (byte_at-Ends packet c.offset (ground (arith, e)))
        (λ len _. decode_case-Valid packet start len c v (ground (arith, e))))
]

next_round-Bounded :
    (packet : Text) (start : ℕ) (go_on : Cursor → Run (Option (Text × ℕ)))
    → ((c : Cursor) → Valid packet start c → Ends (Bounded packet start) (go_on c))
    → (r : Round) → RoundValid packet start r
    → Ends (Bounded packet start) (next_round go_on r)
unfolding RoundValid
next_round-Bounded packet start go_on h (answered a) v = v
next_round-Bounded packet start go_on h (onwards c) v = h c v

decode_rounds-Bounded :
    (rounds : ℕ) (packet : Text) (start : ℕ) (c : Cursor)
    → Valid packet start c
    → Ends (Bounded packet start) (decode_rounds rounds packet c)
unfolding decode_rounds RoundValid
decode_rounds-Bounded zero packet start c v = tt
decode_rounds-Bounded (suc rounds) packet start c v =
    Ends-bind (RoundValid packet start) (Bounded packet start) (decode_round packet c) _
      (decode_round-Valid packet start c v)
      (next_round-Bounded packet start (decode_rounds rounds packet)
        (decode_rounds-Bounded rounds packet start))

pub decode_dns_name-Bounded :
    (packet : Text) (start : ℕ) → Ends (Bounded packet start) (decode_dns_name packet start)
unfolding decode_dns_name
decode_dns_name-Bounded packet start =
    decode_rounds-Bounded 128 packet start (at_start start)
      (record { before = λ h. (refl, omega arith); behind = λ h. absurd (ground (arith, h)) })

unframe-Ends :
    (packet : Text) (tcp_framed : Bool) → Ends (λ body. Unit {0}) (unframe packet tcp_framed)
unfolding unframe
unframe-Ends packet false = tt
unframe-Ends packet true = elim (Bool-cases (ltb (length packet) 2)) [
  | inl e ↦ rw e tt
  | inr e ↦ rw e (
      Ends-bind _ _ (uint16 packet 0) _ (uint16-Ends packet 0 (ground (arith, e))) (λ n _.
        elim (Bool-cases (ltb (length packet - 2) n)) [
          | inl f ↦ rw f tt
          | inr f ↦ rw f (
              Ends-bind _ _ (slice packet 2 (2 + n)) _
                (slice-Ends packet 2 (2 + n) (omega arith) (ground (arith, e, f))) (λ body _. tt))
        ]))
]

parse_question-Ends :
    (packet : Text) (decoded : Option (Text × ℕ))
    → 12 ≤ length packet
    → Ends (λ m. Unit {0}) (parse_question packet decoded)
unfolding parse_question
parse_question-Ends packet none h = tt
parse_question-Ends packet (some (name, offset)) h =
    elim (Bool-cases (ltb (length packet) (offset + 4))) [
      | inl e ↦ rw e tt
      | inr e ↦ rw e (
          Ends-bind _ _ (uint16 packet 2) _ (uint16-Ends packet 2 (omega arith)) (λ flags _.
            Ends-bind _ _ (uint16 packet offset) _ (uint16-Ends packet offset (ground (arith, e)))
              (λ qtype _. tt)))
    ]

parse_body-Ends : (body : Option Text) → Ends (λ m. Unit {0}) (parse_body body)
unfolding parse_body
parse_body-Ends none = tt
parse_body-Ends (some packet) = elim (Bool-cases (ltb (length packet) 12)) [
  | inl e ↦ rw e tt
  | inr e ↦ rw e (
      Ends-bind _ _ (uint16 packet 4) _ (uint16-Ends packet 4 (ground (arith, e))) (λ questions _.
        elim (Bool-cases (questions == 0)) [
          | inl f ↦ rw f tt
          | inr f ↦ rw f (
              Ends-bind (Bounded packet 12) _ (decode_dns_name packet 12) _
                (decode_dns_name-Bounded packet 12)
                (λ decoded _. parse_question-Ends packet decoded (ground (arith, e))))
        ]))
]

parse_dns_message-Ends :
    (packet : Text) (tcp_framed : Bool) → Ends (λ m. Unit {0}) (parse_dns_message packet tcp_framed)
unfolding parse_dns_message
parse_dns_message-Ends packet tcp_framed =
    Ends-bind _ _ (unframe packet tcp_framed) _ (unframe-Ends packet tcp_framed)
      (λ body _. parse_body-Ends body)

-- `parseDNSMessage` returns on any packet, framed or not: no read and no slice is out of range, and
-- 128 rounds end the loop.
pub parse_dns_message_returns :
    (packet : Text) (tcp_framed : Bool)
    → (m : Option DnsMessage) × (parse_dns_message packet tcp_framed ≡ done m)
parse_dns_message_returns packet tcp_framed =
    let (m, e, _) =
      Ends-done _ (parse_dns_message packet tcp_framed)
        (parse_dns_message-Ends packet tcp_framed) in
    (m, e)

-- A name that `decodeDNSName` returns ends behind its start and inside of the packet, whatever
-- pointers it follows.
pub decode_dns_name-lt :
    (packet : Text) (start : ℕ) {name : Text} {next : ℕ}
    → decode_dns_name packet start ≡ done (some (name, next))
    → (start < next) × (next ≤ length packet)
decode_dns_name-lt packet start h =
    subst (Ends (Bounded packet start)) h (decode_dns_name-Bounded packet start)
