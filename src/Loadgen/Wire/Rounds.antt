-- ===== src/Loadgen/Wire/Rounds.antt =====
-- The rounds of `decodeDNSName`: what stands at the offset, by what a round does.
use kubedns_shepherd.Base.{
  ℕ, zero, suc, ◌+◌, ◌*◌, ◌/◌, ◌%◌, ◌≤◌, ◌<◌, true, false, not, ◌||◌, [], ◌∷◌, ◌++◌, none, some,
  Option-cases, Text, Ends, length, get_elem?, take, drop, splits_at, take-drop, All,
  All-append_right, ◌≢◌, ltb, leb, ◌==◌, ==_iff, ◌≡◌, sym, ap, subst, ◌∙◌, arith, length-append,
  Bool-cases, inl, inr,
}
use kubedns_shepherd.Loadgen.Wire.{
  Cursor, Round, answered, onwards, follow_pointer, read_label, decode_case, decode_round, advance,
  dotted, top_bits,
}
use kubedns_shepherd.Loadgen.Wire.Names.{byte_at-append, decode_round-case, read_label-append}

abbrev pub IsByte : ℕ → Type 0
IsByte c = c < 256

get_elem?-none : (xs : Text) (i : ℕ) → i < length xs → get_elem? xs i ≢ none
get_elem?-none [] i h e = omega arith
get_elem?-none (x ∷ xs) zero h e = ground (arith, e)
get_elem?-none (x ∷ xs) (suc i) h e = get_elem?-none xs i (omega arith) e

-- A byte of the packet stands between what is before it and what is behind it.
byte_splits :
    (packet : Text) (i : ℕ)
    → i < length packet
    → (c : ℕ) × (packet ≡ take i packet ++ (c ∷ drop (suc i) packet)) × (length (take i packet) ≡ i)
byte_splits packet i h = elim (Option-cases (get_elem? packet i)) [
  | inl e ↦ absurd (get_elem?-none packet i h e)
  | inr (c, e) ↦ let (shape, at) = splits_at packet i e in (c, shape, at)
]

-- What a round may do, by what stands at the offset.
pub data Steps (packet : Text) (c : Cursor) : Round → Type 0 where
  refused : Steps packet c (answered none)
  ended :
      (front back : Text)
      → packet ≡ front ++ (0 ∷ back)
      → c.offset ≡ length front
      → Steps packet c (answered (some (dotted c.labels, advance c (c.offset + 1))))
  passed :
      (front label back : Text)
      → packet ≡ front ++ (length label ∷ (label ++ back))
      → c.offset ≡ length front
      → 0 < length label
      → length label < 64
      → Steps packet c (
          onwards (record c {
            labels = c.labels ++ (label ∷ []);
            offset = c.offset + (1 + length label);
            next = advance c (c.offset + (1 + length label));
          }))
  pointed :
      (front back : Text) (target : ℕ)
      → packet ≡ front ++ ((192 + target / 256) ∷ (target % 256) ∷ back)
      → c.offset ≡ length front
      → target < 16384
      → Steps packet c
          (onwards (record c { next = advance c (c.offset + 2); offset = target; jumped = true }))

read_label-Steps :
    (packet front rest : Text) (len : ℕ) (c : Cursor)
    → packet ≡ front ++ (len ∷ rest)
    → c.offset ≡ length front
    → 0 < len
    → len < 64
    → len ≤ length rest
    → Ends (Steps packet c) (read_label packet len c)
read_label-Steps packet front rest len c h k positive short fits =
    let (cut, same) = take-drop rest len fits in
    let shape : packet ≡ front ++ (length (take len rest) ∷ (take len rest ++ drop len rest)) =
      h
      ∙ ap (λ r. front ++ (len ∷ r)) cut
      ∙ ap (λ n. front ++ (n ∷ (take len rest ++ drop len rest))) (sym same) in
    subst (Ends (Steps packet c))
      (sym (
        ap (λ n. read_label packet n c) (sym same)
        ∙ read_label-append packet front (take len rest) (drop len rest) c shape k))
      (passed front (take len rest) (drop len rest) shape k (omega (arith, same))
        (omega (arith, same)))

follow_pointer-Steps :
    (packet front rest : Text) (len : ℕ) (c : Cursor)
    → packet ≡ front ++ (len ∷ rest)
    → c.offset ≡ length front
    → All IsByte (len ∷ rest)
    → top_bits len ≡ 3
    → Ends (Steps packet c) (follow_pointer packet len c)
unfolding follow_pointer
follow_pointer-Steps packet front [] len c h k bytes marked =
    let outside : leb (length packet) (c.offset + 1) ≡ true =
      ground (arith, ap length h, k, length-append front (len ∷ [])) in
    rw outside refused
follow_pointer-Steps packet front (low ∷ back) len c h k bytes marked =
    let inside : leb (length packet) (c.offset + 1) ≡ false =
      ground (arith, ap length h, k, length-append front (len ∷ low ∷ back)) in
    let target : ℕ = len % 64 * 256 + low in
    let high : len ≡ 192 + target / 256 = omega (arith, marked, bytes.0, bytes.1.0) in
    let low' : low ≡ target % 256 = omega (arith, bytes.1.0) in
    rw
      (inside, byte_at-append packet front (len ∷ low ∷ back) 1 (c.offset + 1) h (omega (arith, k)))
      (pointed front back target
        (h
          ∙ ap (λ b. front ++ (b ∷ low ∷ back)) high
          ∙ ap (λ b. front ++ ((192 + target / 256) ∷ b ∷ back)) low')
        k (omega (arith, bytes.1.0)))

decode_case-Steps :
    (packet front rest : Text) (len : ℕ) (c : Cursor)
    → packet ≡ front ++ (len ∷ rest)
    → c.offset ≡ length front
    → All IsByte (len ∷ rest)
    → Ends (Steps packet c) (decode_case packet len c)
unfolding decode_case
decode_case-Steps packet front rest len c h k bytes = elim (Bool-cases (len == 0)) [
  | inl e ↦ rw e (ended front rest (h ∙ ap (λ b. front ++ (b ∷ rest)) ((==_iff len 0).0 e)) k)
  | inr e ↦ rw e (elim (Bool-cases (top_bits len == 3)) [
    | inl e' ↦ rw e' (follow_pointer-Steps packet front rest len c h k bytes (ground (arith, e')))
    | inr e' ↦
        rw e'
          (elim (Bool-cases (not (top_bits len == 0) || ltb (length packet) (c.offset + 1 + len))) [
            | inl f ↦ rw f refused
            | inr f ↦ rw f (
                read_label-Steps packet front rest len c h k (ground (arith, e))
                  (ground (arith, f, bytes.0))
                  (ground (arith, f, ap length h, k, length-append front (len ∷ rest))))
          ])
  ])
]

pub decode_round-Steps :
    (packet : Text) (c : Cursor) → All IsByte packet → Ends (Steps packet c) (decode_round packet c)
decode_round-Steps packet c bytes = elim (Bool-cases (leb (length packet) c.offset)) [
  | inl e ↦ unfold decode_round in rw e refused
  | inr e ↦
      let (len, shape, at) = byte_splits packet c.offset (ground (arith, e)) in
      rw
        (decode_round-case packet (take c.offset packet) (drop (suc c.offset) packet) len c shape
          (sym at))
        (decode_case-Steps packet (take c.offset packet) (drop (suc c.offset) packet) len c shape
          (sym at)
          (All-append_right IsByte (take c.offset packet) _ (subst (All IsByte) shape bytes)))
]
