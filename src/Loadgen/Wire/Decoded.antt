-- ===== src/Loadgen/Wire/Decoded.antt =====
-- `decodeDNSName` the other way round: what it returns is a name that the packet encodes.
use kubedns_shepherd.Base.{
  ℕ, zero, suc, ◌+◌, ◌≤◌, List, [], ◌∷◌, ◌++◌, Option, none, some, Text, done, Ends, Ends-bind,
  Ends-map, length, All, ◌≡◌, ◌↔◌, refl, sym, ap, subst, ◌∙◌, arith, append-nil, append_assoc,
}
use kubedns_shepherd.Loadgen.Wire.{
  Cursor, Round, next_round, decode_round, decode_rounds, decode_dns_name, at_start, advance,
  dotted,
}
use kubedns_shepherd.Loadgen.Wire.Names.{
  NameAt, root, labelled, pointer, advance-advance, decode_dns_name_of_NameAt,
}
use kubedns_shepherd.Loadgen.Wire.Rounds.{
  IsByte, Steps, refused, ended, passed, pointed, decode_round-Steps,
}

-- A name that the rounds that are left return.
record Reading (packet : Text) (rounds : ℕ) (c : Cursor) (name : Text) (next : ℕ) : Type 0 where
  labels : List Text
  end : ℕ
  n : ℕ
  encoded : NameAt packet c.offset labels end n
  few : n ≤ rounds
  spelt : name ≡ dotted (c.labels ++ labels)
  behind : next ≡ advance c end

Read : Text → ℕ → Cursor → Option (Text × ℕ) → Type 0
Read packet rounds c none = Unit
Read packet rounds c (some (name, next)) = Reading packet rounds c name next

Read-suc :
    (packet : Text) (rounds : ℕ) (c c' : Cursor) (labels : List Text)
    → ((end m : ℕ) (more : List Text)
        → NameAt packet c'.offset more end m
        → (end' : ℕ) × NameAt packet c.offset (labels ++ more) end' (suc m)
          × (advance c' end ≡ advance c end'))
    → c'.labels ≡ c.labels ++ labels
    → (r : Option (Text × ℕ)) → Read packet rounds c' r
    → Read packet (suc rounds) c r
unfolding Read
Read-suc packet rounds c c' labels step same none v = tt
Read-suc packet rounds c c' labels step same (some (name, next)) v =
    let (end', encoded, behind) = step v.end v.n v.labels v.encoded in
    record {
      labels = labels ++ v.labels;
      end = end';
      n = suc v.n;
      encoded = encoded;
      few = omega (arith, v.few);
      spelt =
          v.spelt
          ∙ ap dotted (ap (λ ls. ls ++ v.labels) same ∙ append_assoc c.labels labels v.labels);
      behind = v.behind ∙ behind;
    }

next_round-Read :
    (packet : Text) (rounds : ℕ) (c : Cursor)
    → ((c' : Cursor) → Ends (Read packet rounds c') (decode_rounds rounds packet c'))
    → (r : Round) → Steps packet c r
    → Ends (Read packet (suc rounds) c) (next_round (decode_rounds rounds packet) r)
unfolding Read
next_round-Read packet rounds c go_on _ refused = tt
next_round-Read packet rounds c go_on _ (ended front back h k) = record {
  labels = [];
  end = c.offset + 1;
  n = 1;
  encoded = root front back h k;
  few = omega arith;
  spelt = ap dotted (sym (append-nil c.labels));
  behind = refl;
}
next_round-Read packet rounds c go_on _ (passed front label back h k p s) =
    Ends-map _ _ (decode_rounds rounds packet _) (go_on _) (
      Read-suc packet rounds c _ (label ∷ [])
        (λ end m more at. (
          end,
          labelled front label back h k p s at,
          advance-advance c (c.labels ++ (label ∷ [])) (c.offset + (1 + length label))
              (c.offset + (1 + length label)) end,
        ))
        refl)
next_round-Read packet rounds c go_on _ (pointed front back target h k s) =
    Ends-map _ _ (decode_rounds rounds packet _) (go_on _) (
      Read-suc packet rounds c _ []
        (λ end m more at. (c.offset + 2, pointer front back h k s at, refl))
        (sym (append-nil c.labels)))

decode_rounds-Read :
    (rounds : ℕ) (packet : Text) (c : Cursor)
    → All IsByte packet
    → Ends (Read packet rounds c) (decode_rounds rounds packet c)
unfolding decode_rounds
decode_rounds-Read zero packet c bytes = unfold Read in tt
decode_rounds-Read (suc rounds) packet c bytes =
    Ends-bind (Steps packet c) (Read packet (suc rounds) c) (decode_round packet c) _
      (decode_round-Steps packet c bytes)
      (next_round-Read packet rounds c (λ c'. decode_rounds-Read rounds packet c' bytes))

Reading-of_done :
    (packet : Text) (start : ℕ) {name : Text} {next : ℕ}
    → decode_dns_name packet start ≡ done (some (name, next))
    → All IsByte packet
    → Reading packet 128 (at_start start) name next
unfolding decode_dns_name Read
Reading-of_done packet start h bytes =
    subst (Ends (Read packet 128 (at_start start))) h
      (decode_rounds-Read 128 packet (at_start start) bytes)

-- On a packet of bytes `decodeDNSName` returns a name and an offset exactly if the packet encodes
-- the name's labels at the start, by labels, a root byte and pointers, 128 of these at most, and the
-- offset is the one behind the encoding there. The name is the labels, each followed by a dot; the
-- root's own name is a single dot.
pub decode_dns_name_iff :
    (packet : Text) (start : ℕ) (name : Text) (next : ℕ)
    → All IsByte packet
    → (decode_dns_name packet start ≡ done (some (name, next))) ↔ (
        (labels : List Text) × (n : ℕ) × NameAt packet start labels next n
        × (n ≤ 128)
        × (name ≡ dotted labels))
decode_dns_name_iff packet start name next bytes = (
  λ h.
      let v = Reading-of_done packet start h bytes in
      (
        v.labels,
        v.n,
        subst (λ k. NameAt packet start v.labels k v.n) (sym v.behind) v.encoded,
        v.few,
        v.spelt,
      ),
  λ (labels, n, at, few, spelt). rw spelt (decode_dns_name_of_NameAt packet at few),
)
