-- ===== src/Loadgen/Wire/Names.antt =====
-- `decodeDNSName` against the encoding of names of RFC 1035, with the pointers of section 4.1.4.
use kubedns_shepherd.Base.{
  ℕ, zero, suc, ◌+◌, ◌-◌, ◌*◌, ◌/◌, ◌%◌, ◌≤◌, ◌<◌, true, false, not, ◌||◌, List, [], ◌∷◌, ◌++◌,
  some, Text, done, length, get_elem?, drop, ltb, leb, ◌==◌, ◌≡◌, refl, ap, ◌∙◌, arith,
  length-append, get_elem?-append, drop-append, take-append, append-nil, append_assoc, Bool-cases,
  inl, inr,
}
use kubedns_shepherd.Loadgen.Wire.{
  byte_at, slice, Cursor, answered, onwards, follow_pointer, read_label, decode_case, decode_round,
  decode_rounds, decode_dns_name, at_start, advance, dotted, top_bits, of_option,
}

-- The labels that are encoded at an offset, the offset behind the encoding there, and the number of
-- labels, pointers and root bytes that are passed.
pub data NameAt (packet : Text) : ℕ → List Text → ℕ → ℕ → Type 0 where
  root :
      (front back : Text) {offset : ℕ}
      → packet ≡ front ++ (0 ∷ back)
      → offset ≡ length front
      → NameAt packet offset [] (offset + 1) 1
  labelled :
      (front label back : Text) {offset next n : ℕ} {labels : List Text}
      → packet ≡ front ++ (length label ∷ (label ++ back))
      → offset ≡ length front
      → 0 < length label
      → length label < 64
      → NameAt packet (offset + (1 + length label)) labels next n
      → NameAt packet offset (label ∷ labels) next (suc n)
  pointer :
      (front back : Text) {offset target next n : ℕ} {labels : List Text}
      → packet ≡ front ++ ((192 + target / 256) ∷ (target % 256) ∷ back)
      → offset ≡ length front
      → target < 16384
      → NameAt packet target labels next n
      → NameAt packet offset labels (offset + 2) (suc n)

pub byte_at-append :
    (packet front back : Text) (i offset : ℕ)
    → packet ≡ front ++ back
    → offset ≡ length front + i
    → byte_at packet offset ≡ of_option (get_elem? back i)
unfolding byte_at
byte_at-append packet front back i offset h k =
    rw h (ap of_option (get_elem?-append front back i offset k))

-- A round at an offset that holds the byte `len`.
pub decode_round-case :
    (packet front back : Text) (len : ℕ) (c : Cursor)
    → packet ≡ front ++ (len ∷ back)
    → c.offset ≡ length front
    → decode_round packet c ≡ decode_case packet len c
unfolding decode_round
decode_round-case packet front back len c h k =
    let inside : leb (length packet) c.offset ≡ false =
      ground (arith, ap length h, k, length-append front (len ∷ back)) in
    rw (inside, byte_at-append packet front (len ∷ back) 0 c.offset h (omega (arith, k))) refl

decode_round-root :
    (packet front back : Text) (c : Cursor)
    → packet ≡ front ++ (0 ∷ back)
    → c.offset ≡ length front
    → decode_round packet c ≡ done (answered (some (dotted c.labels, advance c (c.offset + 1))))
decode_round-root packet front back c h k =
    decode_round-case packet front back 0 c h k ∙ (unfold decode_case in refl)

pub read_label-append :
    (packet front label back : Text) (c : Cursor)
    → packet ≡ front ++ (length label ∷ (label ++ back))
    → c.offset ≡ length front
    → read_label packet (length label) c
      ≡ done (
          onwards (record c {
            labels = c.labels ++ (label ∷ []);
            offset = c.offset + (1 + length label);
            next = advance c (c.offset + (1 + length label));
          }))
unfolding read_label slice
read_label-append packet front label back c h k =
    let ordered : leb (c.offset + 1) (c.offset + 1 + length label) ≡ true = ground arith in
    let inside : leb (c.offset + 1 + length label) (length packet) ≡ true = ground (
      arith,
      ap length h,
      k,
      length-append front (length label ∷ (label ++ back)),
      length-append label back,
    ) in
    let cut : drop (c.offset + 1) packet ≡ label ++ back =
      rw h
        (drop-append front (length label ∷ (label ++ back)) 1 (c.offset + 1) (omega (arith, k))) in
    rw
      (
        ordered,
        inside,
        cut,
        take-append label back (c.offset + 1 + length label - (c.offset + 1)) (omega arith),
      )
      refl

decode_round-label :
    (packet front label back : Text) (c : Cursor)
    → packet ≡ front ++ (length label ∷ (label ++ back))
    → c.offset ≡ length front
    → 0 < length label
    → length label < 64
    → decode_round packet c
      ≡ done (
          onwards (record c {
            labels = c.labels ++ (label ∷ []);
            offset = c.offset + (1 + length label);
            next = advance c (c.offset + (1 + length label));
          }))
decode_round-label packet front label back c h k positive short =
    let not_root : (length label == 0) ≡ false = ground arith in
    let not_pointer : (top_bits (length label) == 3) ≡ false = ground arith in
    let fits : not (top_bits (length label) == 0)
          || ltb (length packet) (c.offset + 1 + length label)
        ≡ false =
      ground (
        arith,
        ap length h,
        k,
        length-append front (length label ∷ (label ++ back)),
        length-append label back,
      ) in
    decode_round-case packet front (label ++ back) (length label) c h k
    ∙ (unfold decode_case in
        rw (not_root, not_pointer, fits) (read_label-append packet front label back c h k))

decode_round-pointer :
    (packet front back : Text) (target : ℕ) (c : Cursor)
    → packet ≡ front ++ ((192 + target / 256) ∷ (target % 256) ∷ back)
    → c.offset ≡ length front
    → target < 16384
    → decode_round packet c
      ≡ done
          (onwards (record c { next = advance c (c.offset + 2); offset = target; jumped = true }))
decode_round-pointer packet front back target c h k small =
    let not_root : (192 + target / 256 == 0) ≡ false = ground arith in
    let marked : (top_bits (192 + target / 256) == 3) ≡ true = ground arith in
    let inside : leb (length packet) (c.offset + 1) ≡ false =
      ground (
        arith,
        ap length h,
        k,
        length-append front ((192 + target / 256) ∷ (target % 256) ∷ back),
      ) in
    let low : byte_at packet (c.offset + 1) ≡ done (target % 256) =
      byte_at-append packet front ((192 + target / 256) ∷ (target % 256) ∷ back) 1 (c.offset + 1) h
        (omega (arith, k)) in
    let whole : (192 + target / 256) % 64 * 256 + target % 256 ≡ target = omega arith in
    decode_round-case packet front ((target % 256) ∷ back) (192 + target / 256) c h k
    ∙ (unfold decode_case in
        unfold follow_pointer in rw (not_root, marked, inside, low, whole) refl)

pub advance-advance :
    (c : Cursor) (labels : List Text) (offset to e : ℕ)
    → advance (record c { labels = labels; offset = offset; next = advance c to }) e ≡ advance c e
advance-advance c labels offset to e = elim (Bool-cases c.jumped) [
  | inl j ↦ rw j refl
  | inr j ↦ rw j refl
]

-- The rounds that are left read the name at the offset.
decode_rounds_of_NameAt :
    (packet : Text) (rounds : ℕ) (c : Cursor) {offset next n : ℕ} {labels : List Text}
    → NameAt packet offset labels next n
    → c.offset ≡ offset
    → n ≤ rounds
    → decode_rounds rounds packet c ≡ done (some (dotted (c.labels ++ labels), advance c next))
unfolding decode_rounds
decode_rounds_of_NameAt packet zero c (root front back h k) o l = absurd (omega arith)
decode_rounds_of_NameAt packet zero c (labelled front label back h k p s rest) o l =
    absurd (omega arith)
decode_rounds_of_NameAt packet zero c (pointer front back h k s rest) o l = absurd (omega arith)
decode_rounds_of_NameAt packet (suc rounds) c (root front back h k) o l =
    rw (decode_round-root packet front back c h (o ∙ k)) (rw (append-nil c.labels, o) refl)
decode_rounds_of_NameAt packet (suc rounds) c (labelled front label back h k p s rest) o l =
    rw (decode_round-label packet front label back c h (o ∙ k) p s) (
      decode_rounds_of_NameAt packet rounds _ rest (omega (arith, o)) (omega arith)
      ∙ rw (append_assoc c.labels (label ∷ []) _, advance-advance c) refl)
decode_rounds_of_NameAt packet (suc rounds) c (pointer front back {target} h k s rest) o l =
    rw (decode_round-pointer packet front back target c h (o ∙ k) s)
      (decode_rounds_of_NameAt packet rounds _ rest refl (omega arith) ∙ rw o refl)

pub decode_dns_name_of_NameAt :
    (packet : Text) {start next n : ℕ} {labels : List Text}
    → NameAt packet start labels next n
    → n ≤ 128
    → decode_dns_name packet start ≡ done (some (dotted labels, next))
unfolding decode_dns_name
decode_dns_name_of_NameAt packet {start} at h =
    decode_rounds_of_NameAt packet 128 (at_start start) at refl h
