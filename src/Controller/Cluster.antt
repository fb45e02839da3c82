-- ===== src/Controller/Cluster.antt =====
-- The interface of the controller to the API server, to the kubelet's `/configz` and to the
-- libraries that it calls.
use kubedns_shepherd.Base.{
  ℕ, Bool, true, List, [], ◌∷◌, Option, none, some, Text, Result, text_eq, if◌then◌else◌, ◌≡◌, ◌≢◌,
}
use kubedns_shepherd.Api.{Condition, DnsClass}

-- Decoded JSON, the `any` of `map[string]any`.
mutual
  pub data Value : Type 0 where
    null : Value
    boolean : Bool → Value
    number : Text → Value
    string : Text → Value
    array : Values → Value
    object : Members → Value

  pub data Values : Type 0 where
    nil : Values
    cons : Value → Values → Values

  pub data Members : Type 0 where
    end : Members
    member : Text → Value → Members → Members

abbrev pub elements : Values → List Value
elements nil = []
elements (cons v vs) = v ∷ elements vs

abbrev pub entries : Members → List (Text × Value)
entries end = []
entries (member key v rest) = (key, v) ∷ entries rest

-- The fields of `rest.Config` that the code looks at.
pub record RestConfig : Type 0 where
  pub group_version : Option (Text × Text)
  pub negotiated_serializer : Option Text

pub record Cluster : Type 1 where
  pub World : Type 0
  pub Error : Type 0
  pub RestClient : Type 0
  -- `err.Error()`, `errors.New` and `errors.Wrap` on an error that is not nil.
  pub error_text : Error → Text
  pub new_error : Text → Error
  pub wrap : Error → Text → Error
  -- `apierrors.IsNotFound` and `apierrors.IsConflict`.
  pub is_not_found : Error → Bool
  pub is_conflict : Error → Bool
  -- `r.Get` of a DNSClass by name and namespace, and `r.Status().Update`.
  pub get : Text → Text → World → Result Error DnsClass × World
  pub update : DnsClass → World → Option Error × World
  -- `retry.RetryOnConflict(retry.DefaultRetry, …)`.
  pub retry_on_conflict : (World → Option Error × World) → World → Option Error × World
  -- `r.Eventf(dnsclass, nil, type, reason, action, note)`.
  pub eventf : DnsClass → (type reason action note : Text) → World → World
  pub now : World → ℕ × World
  -- `meta.SetStatusCondition`.
  pub set_status_condition : List Condition → Condition → List Condition
  -- `r.List` of the nodes, by their names; errors that only `%w` reads are texts.
  pub list_nodes : World → Result Text (List Text) × World
  pub rest_client_for : RestConfig → Result Text RestClient
  -- `restClient.Get().AbsPath(url).Do(ctx).Raw()`.
  pub raw : RestClient → Text → World → Result Text Text × World
  -- `json.Unmarshal` into a `map[string]any`.
  pub unmarshal : Text → Result Text Members

-- The runs that `RetryOnConflict` may make of a function: it is called again only after a conflict,
-- and the last call's error is returned.
pub data Retried (cluster : Cluster) (f : cluster.World → Option cluster.Error × cluster.World)
    : cluster.World → Option cluster.Error × cluster.World → Type 0 where
  last :
      {w : cluster.World} {r : Option cluster.Error × cluster.World}
      → f w ≡ r
      → Retried cluster f w r
  again :
      {w w' : cluster.World} {e : cluster.Error} {r : Option cluster.Error × cluster.World}
      → f w ≡ (some e, w')
      → cluster.is_conflict e ≡ true
      → Retried cluster f w' r
      → Retried cluster f w r

-- The first condition of a type.
unfoldable pub find_condition : Text → List Condition → Option Condition
find_condition type [] = none
find_condition type (c ∷ cs) = if text_eq c.type type then some c else find_condition type cs

-- The same condition, but for the time.
pub record SameCondition (c d : Condition) : Type 0 where
  pub type : c.type ≡ d.type
  pub status : c.status ≡ d.status
  pub message : c.message ≡ d.message
  pub reason : c.reason ≡ d.reason

-- What is relied on of these calls, as their documentation has it.
pub record Documented (cluster : Cluster) : Type 0 where
  -- The text of a new error is the one that it is made from.
  pub error_text-new_error : (m : Text) → cluster.error_text (cluster.new_error m) ≡ m
  pub retried :
      (f : cluster.World → Option cluster.Error × cluster.World) (w : cluster.World)
      → Retried cluster f w (cluster.retry_on_conflict f w)
  -- The condition of the type is replaced or added, and those of the other types stay.
  pub set_self :
      (cs : List Condition) (c : Condition)
      → (d : Condition) × (find_condition c.type (cluster.set_status_condition cs c) ≡ some d)
        × SameCondition d c
  pub set_other :
      (cs : List Condition) (c : Condition) (type : Text)
      → type ≢ c.type
      → find_condition type (cluster.set_status_condition cs c) ≡ find_condition type cs
