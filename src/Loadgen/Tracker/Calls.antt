-- ===== src/Loadgen/Tracker/Calls.antt =====
-- A tracker through any sequence of calls of the tracked connections.
use kubedns_shepherd.Base.{
  ℕ, ◌≤◌, Bool, true, false, List, [], ◌∷◌, ◌++◌, Text, Run, done, ◌>>=◌, Ends-done, length, All,
  ltb, ◌≡◌, refl, arith, append-nil, append_assoc, if◌then◌else◌,
}
use kubedns_shepherd.Loadgen.Wire.{slice, parse_dns_message}
use kubedns_shepherd.Loadgen.Wire.Safety.{slice-Ends, parse_dns_message_returns}
use kubedns_shepherd.Loadgen.Tracker.{
  Tracker, new_tracker, Call, write, write_to, read, read_from, count_request, count_response,
  record_request, record_response, record_read, record_call, record_calls,
}
use kubedns_shepherd.Loadgen.Tracker.Balance.{
  Balanced, Balanced-new_tracker, Balanced-count_request, Balanced-count_response,
}
use kubedns_shepherd.Loadgen.Tracker.Counts.{
  Seen, sent, got, Counts, Counts-new_tracker, Counts-count_request, Counts-count_response,
}

seen_request : Text → Bool → Run (List Seen)
seen_request packet tcp_framed =
    parse_dns_message packet tcp_framed >>= λ message. done (sent message)

seen_response : Text → Bool → Run (List Seen)
seen_response packet tcp_framed =
    parse_dns_message packet tcp_framed >>= λ message. done (got message)

seen_read : Text → ℕ → Bool → Run (List Seen)
seen_read packet n tcp_framed =
    if ltb 0 n then (slice packet 0 n >>= λ part. seen_response part tcp_framed) else done []

-- The messages that one call shows, and those of all.
pub seen : Call → Run (List Seen)
seen (write packet tcp_framed) = seen_request packet tcp_framed
seen (write_to packet) = seen_request packet false
seen (read packet n tcp_framed) = seen_read packet n tcp_framed
seen (read_from packet n) = seen_read packet n false

pub seen_all : List Call → Run (List Seen)
seen_all [] = done []
seen_all (call ∷ calls) = do ss ← seen call; rest ← seen_all calls; done (ss ++ rest)

-- A read returns at most the length of its buffer, as `io.Reader` has it.
abbrev pub IsRead : Call → Type 0
IsRead (write packet tcp_framed) = Unit
IsRead (write_to packet) = Unit
IsRead (read packet n tcp_framed) = n ≤ length packet
IsRead (read_from packet n) = n ≤ length packet

-- What a step shows, and that it counts this.
record Counted (shown : Run (List Seen)) (step : Tracker → Run Tracker) : Type 0 where
  ss : List Seen
  after : Tracker → Tracker
  shows : shown ≡ done ss
  steps : (t : Tracker) → step t ≡ done (after t)
  counts : (before : List Seen) (t : Tracker) → Counts before t → Counts (before ++ ss) (after t)
  keeps : (t : Tracker) → Balanced t → Balanced (after t)

Counted-request :
    (packet : Text) (tcp_framed : Bool)
    → Counted (seen_request packet tcp_framed) (λ t. record_request t packet tcp_framed)
unfolding record_request seen_request
Counted-request packet tcp_framed =
    let (message, e) = parse_dns_message_returns packet tcp_framed in
    record {
      ss = sent message;
      after = λ t. count_request t message;
      shows = rw e refl;
      steps = λ t. rw e refl;
      counts = λ before t c. Counts-count_request before t message c;
      keeps = λ t b. Balanced-count_request t message b;
    }

Counted-response :
    (packet : Text) (tcp_framed : Bool)
    → Counted (seen_response packet tcp_framed) (λ t. record_response t packet tcp_framed)
unfolding record_response seen_response
Counted-response packet tcp_framed =
    let (message, e) = parse_dns_message_returns packet tcp_framed in
    record {
      ss = got message;
      after = λ t. count_response t message;
      shows = rw e refl;
      steps = λ t. rw e refl;
      counts = λ before t c. Counts-count_response before t message c;
      keeps = λ t b. Balanced-count_response t message b;
    }

Counted-read :
    (packet : Text) (n : ℕ) (tcp_framed : Bool)
    → n ≤ length packet
    → Counted (seen_read packet n tcp_framed) (λ t. record_read t packet n tcp_framed)
unfolding seen_read
Counted-read packet n tcp_framed h =
    elim (ltb 0 n)
      as (λ b.
        Counted
          (if b then (slice packet 0 n >>= λ part. seen_response part tcp_framed) else done [])
          (λ t.
            if b
            then (slice packet 0 n >>= λ part. record_response t part tcp_framed)
            else done t)) [
              | true ↦
                  let (part, e, _) =
                    Ends-done _ (slice packet 0 n) (slice-Ends packet 0 n (omega arith) h) in
                  rw e (Counted-response part tcp_framed)
              | false ↦ record {
                ss = [];
                after = λ t. t;
                shows = refl;
                steps = λ t. refl;
                counts = λ before t c. rw (append-nil before) c;
                keeps = λ t b. b;
              }
            ]

Counted-call : (call : Call) → IsRead call → Counted (seen call) (λ t. record_call t call)
unfolding record_call seen
Counted-call (write packet tcp_framed) h = Counted-request packet tcp_framed
Counted-call (write_to packet) h = Counted-request packet false
Counted-call (read packet n tcp_framed) h = Counted-read packet n tcp_framed h
Counted-call (read_from packet n) h = Counted-read packet n false h

Counted-calls :
    (calls : List Call) → All IsRead calls → Counted (seen_all calls) (λ t. record_calls t calls)
unfolding record_calls seen_all
Counted-calls [] h = record {
  ss = [];
  after = λ t. t;
  shows = refl;
  steps = λ t. refl;
  counts = λ before t c. rw (append-nil before) c;
  keeps = λ t b. b;
}
Counted-calls (call ∷ calls) (h, hs) =
    let first = Counted-call call h in
    let rest = Counted-calls calls hs in
    record {
      ss = first.ss ++ rest.ss;
      after = λ t. rest.after (first.after t);
      shows = rw (first.shows, rest.shows) refl;
      steps = λ t. rw (first.steps t) (rest.steps (first.after t));
      counts = λ before t c.
          rw⁻¹ (append_assoc before first.ss rest.ss)
            (rest.counts (before ++ first.ss) (first.after t) (first.counts before t c));
      keeps = λ t b. rest.keeps (first.after t) (first.keeps t b);
    }

-- A new tracker goes through any sequence of calls without a panic, if no read returns more than
-- its buffer holds. Each of its counters is then the number of its messages among those that the
-- calls show, as a `uint64`: the requests, the responses, those with the code NXDOMAIN, and for each
-- name and type the requests, the responses, and the responses with each code.
pub record_calls-Counts :
    (calls : List Call)
    → All IsRead calls
    → (ss : List Seen) × (t : Tracker) × (seen_all calls ≡ done ss)
      × (record_calls new_tracker calls ≡ done t)
      × Counts ss t
record_calls-Counts calls h =
    let all = Counted-calls calls h in
    (
      all.ss,
      all.after new_tracker,
      all.shows,
      all.steps new_tracker,
      all.counts [] new_tracker Counts-new_tracker,
    )

-- The tracker behind the calls is balanced, too.
pub record_calls-Balanced :
    (calls : List Call)
    → All IsRead calls
    → (t : Tracker) × (record_calls new_tracker calls ≡ done t) × Balanced t
record_calls-Balanced calls h =
    let all = Counted-calls calls h in
    (all.after new_tracker, all.steps new_tracker, all.keeps new_tracker Balanced-new_tracker)
