-- ===== src/Loadgen/Dial/Split.antt =====
-- A response over TCP as the resolver of Go reads it: the two bytes of the length, and then as many
-- bytes as they say.
use kubedns_shepherd.Base.{
  lt→ltb, ℕ, ◌<◌, true, [], ◌∷◌, Text, done, length, append-nil, ◌≡◌, refl, sym, ap, ◌∙◌, arith,
}
use kubedns_shepherd.Loadgen.Wire.{slice}
use kubedns_shepherd.Loadgen.Wire.Messages.{word, parse_dns_message_short}
use kubedns_shepherd.Loadgen.Dial.Counted.{slice-append}
use kubedns_shepherd.Loadgen.Tracker.{Tracker, read, record_response, record_call, record_calls}

slice_whole : (s : Text) → slice s 0 (length s) ≡ done s
slice_whole s = ap (λ x. slice x 0 (length s)) (sym (append-nil s)) ∙ slice-append s []

-- What is too short to be a framed message is not counted.
record_call_short :
    (t : Tracker) (hi lo : ℕ) (part : Text)
    → length part < word hi lo
    → record_call t (read (hi ∷ lo ∷ part) (length (hi ∷ lo ∷ part)) true) ≡ done t
unfolding record_call record_response
record_call_short t hi lo part h =
    rw
      (
        lt→ltb 0 (length (hi ∷ lo ∷ part)) (omega arith),
        slice_whole (hi ∷ lo ∷ part),
        parse_dns_message_short hi lo part h,
      )
      refl

-- Let a message of at least two bytes come over TCP, and let it be read in two parts, the two bytes
-- of its length and then the message, whose first two bytes, its id, are more than the length of what
-- is behind them. Then no part is counted: the tracker is what it was.
pub record_calls_split :
    (t : Tracker) (hi lo id0 id1 : ℕ) (rest : Text)
    → word hi lo ≡ length (id0 ∷ id1 ∷ rest)
    → length rest < word id0 id1
    → record_calls t
        (read (hi ∷ lo ∷ []) 2 true ∷ read (id0 ∷ id1 ∷ rest) (length (id0 ∷ id1 ∷ rest)) true ∷ [])
      ≡ done t
unfolding record_calls
record_calls_split t hi lo id0 id1 rest framed long =
    rw (record_call_short t hi lo [] (omega (arith, framed)), record_call_short t id0 id1 rest long)
      refl
