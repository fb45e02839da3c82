-- ===== src/Loadgen/Tracker/Counts.antt =====
-- The counters of the tracker against the messages that pass the connections.
use kubedns_shepherd.Base.{
  ℕ, suc, ◌+◌, ◌%◌, ◌^◌, Bool, true, false, not, ◌&&◌, List, [], ◌∷◌, ◌++◌, Option, none, some,
  Text, text_eq, text_eq_iff, lookup, lookup-assign, if◌then◌else◌, ◌≡◌, refl, arith, Bool-cases,
  inl, inr, append-nil,
}
use kubedns_shepherd.Loadgen.Wire.{DnsMessage}
use kubedns_shepherd.Loadgen.Tracker.{
  Stats, Tracker, new_tracker, or_zero, or_new, key_of, nxdomain_code, count_request,
  count_response, candidate, add_request, add_response,
}

-- A message that is counted: a request that is sent, or a response that is read.
pub data Seen : Type 0 where
  request : DnsMessage → Seen
  response : DnsMessage → Seen

-- A message that is sent is a request unless it is marked as a response, and the other way round.
abbrev pub sent : Option DnsMessage → List Seen
sent none = []
sent (some message) = if message.response then [] else request message ∷ []

abbrev pub got : Option DnsMessage → List Seen
got none = []
got (some message) = if message.response then response message ∷ [] else []

unfoldable pub count : (Seen → Bool) → List Seen → ℕ
count P [] = 0
count P (s ∷ ss) = if P s then suc (count P ss) else count P ss

count-append :
    (P : Seen → Bool) (ss : List Seen) (s : Seen)
    → count P (ss ++ (s ∷ [])) ≡ (count P ss + (if P s then 1 else 0))
unfolding count
count-append P [] s = ground arith
count-append P (r ∷ ss) s = ground (arith, count-append P ss s)

abbrev pub is_request : Seen → Bool
is_request (request m) = true
is_request (response m) = false

abbrev pub is_response : Seen → Bool
is_response (request m) = false
is_response (response m) = true

abbrev pub is_nxdomain : Seen → Bool
is_nxdomain (request m) = false
is_nxdomain (response m) = text_eq m.rcode nxdomain_code

-- Requests for a name and a type, by the key that is made of them.
abbrev pub requests_key : Text → Seen → Bool
requests_key key (request m) = text_eq (key_of m) key
requests_key key (response m) = false

abbrev pub responds_key : Text → Seen → Bool
responds_key key (request m) = false
responds_key key (response m) = text_eq (key_of m) key

abbrev pub responds_with : Text → Text → Seen → Bool
responds_with key rcode (request m) = false
responds_with key rcode (response m) = text_eq (key_of m) key && text_eq m.rcode rcode

abbrev pub stats_of : Tracker → Text → Stats
stats_of t key = or_new (lookup key t.candidates)

-- Each counter is the number of its messages, as a `uint64`.
pub record Counts (ss : List Seen) (t : Tracker) : Type 0 where
  pub requests : t.requests ≡ count is_request ss % 2 ^ 64
  pub responses : t.responses ≡ count is_response ss % 2 ^ 64
  pub nxdomain : t.nxdomain ≡ count is_nxdomain ss % 2 ^ 64
  pub candidate_requests :
      (key : Text) → (stats_of t key).requests ≡ count (requests_key key) ss % 2 ^ 64
  pub candidate_responses :
      (key : Text) → (stats_of t key).responses ≡ count (responds_key key) ss % 2 ^ 64
  pub candidate_rcodes :
      (key rcode : Text)
      → or_zero (lookup rcode (stats_of t key).rcodes) ≡ count (responds_with key rcode) ss % 2 ^ 64

pub Counts-new_tracker : Counts [] new_tracker
unfolding lookup count
Counts-new_tracker = record {
  requests = refl;
  responses = refl;
  nxdomain = refl;
  candidate_requests = λ key. refl;
  candidate_responses = λ key. refl;
  candidate_rcodes = λ key rcode. refl;
}

Counts-add_request :
    (ss : List Seen) (t : Tracker) (m : DnsMessage)
    → Counts ss t
    → Counts (ss ++ (request m ∷ [])) (add_request t m)
unfolding add_request candidate
Counts-add_request ss t m c = record {
  requests = omega (arith, c.requests, count-append is_request ss (request m));
  responses = omega (arith, c.responses, count-append is_response ss (request m));
  nxdomain = omega (arith, c.nxdomain, count-append is_nxdomain ss (request m));
  candidate_requests = λ key. rw lookup-assign (
      ground (
        arith,
        text_eq_iff (key_of m) key,
        c.candidate_requests key,
        c.candidate_requests (key_of m),
        count-append (requests_key key) ss (request m),
      ));
  candidate_responses = λ key. rw lookup-assign (
      ground (
        arith,
        text_eq_iff (key_of m) key,
        c.candidate_responses key,
        count-append (responds_key key) ss (request m),
      ));
  candidate_rcodes = λ key rcode. rw lookup-assign (
      ground (
        arith,
        text_eq_iff (key_of m) key,
        c.candidate_rcodes key rcode,
        count-append (responds_with key rcode) ss (request m),
      ));
}

Counts-add_response :
    (ss : List Seen) (t : Tracker) (m : DnsMessage)
    → Counts ss t
    → Counts (ss ++ (response m ∷ [])) (add_response t m)
unfolding add_response candidate
Counts-add_response ss t m c = record {
  requests = omega (arith, c.requests, count-append is_request ss (response m));
  responses = omega (arith, c.responses, count-append is_response ss (response m));
  nxdomain = ground (arith, c.nxdomain, count-append is_nxdomain ss (response m));
  candidate_requests = λ key. rw lookup-assign (
      ground (
        arith,
        text_eq_iff (key_of m) key,
        c.candidate_requests key,
        count-append (requests_key key) ss (response m),
      ));
  candidate_responses = λ key. rw lookup-assign (
      ground (
        arith,
        text_eq_iff (key_of m) key,
        c.candidate_responses key,
        count-append (responds_key key) ss (response m),
      ));
  candidate_rcodes = λ key rcode. rw lookup-assign (elim (Bool-cases (text_eq (key_of m) key)) [
    | inl e ↦ rw e (
        rw lookup-assign (
          ground (
            arith,
            text_eq_iff (key_of m) key,
            text_eq_iff m.rcode rcode,
            c.candidate_rcodes key rcode,
            count-append (responds_with key rcode) ss (response m),
          )))
    | inr e ↦ rw e (
        ground (
          arith,
          c.candidate_rcodes key rcode,
          count-append (responds_with key rcode) ss (response m),
        ))
  ]);
}

pub Counts-count_request :
    (ss : List Seen) (t : Tracker) (message : Option DnsMessage)
    → Counts ss t
    → Counts (ss ++ sent message) (count_request t message)
Counts-count_request ss t none c = rw (append-nil ss) c
Counts-count_request ss t (some m) c =
    elim m.response
      as (λ b.
        Counts (ss ++ (if b then [] else request m ∷ [])) (if b then t else add_request t m)) [
          | true ↦ rw (append-nil ss) c
          | false ↦ Counts-add_request ss t m c
        ]

pub Counts-count_response :
    (ss : List Seen) (t : Tracker) (message : Option DnsMessage)
    → Counts ss t
    → Counts (ss ++ got message) (count_response t message)
Counts-count_response ss t none c = rw (append-nil ss) c
Counts-count_response ss t (some m) c =
    elim m.response
      as (λ b.
        Counts (ss ++ (if b then response m ∷ [] else []))
          (if not b then t else add_response t m)) [
            | true ↦ Counts-add_response ss t m c
            | false ↦ rw (append-nil ss) c
          ]
