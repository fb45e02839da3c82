-- ===== src/Pods/Select.antt =====
-- `getDNSClass` against a description of the class that it selects.
use kubedns_shepherd.Base.{
  true, ◌||◌, contains, List, [], ◌∷◌, Text, contains_iff, contains-false, items, ok, err, In, All,
  ◌≡◌, ◌↔◌, ◌⊎◌, refl, arith, inl, inr, ap, sym, Bool-cases, ◌∙◌,
}
use kubedns_shepherd.Api.{DnsClass}
use kubedns_shepherd.Pods.{Pod, is_empty, select_class, get_dns_class, err_no_dns_class}

-- The class may be applied to the pod: its namespace is not disabled, its policy is allowed, and
-- its namespace is allowed unless no namespaces are named.
pub record IsEligible (pod : Pod) (c : DnsClass) : Type 0 where
  pub enabled : ¬ In pod.namespace (items c.spec.disabled_namespaces)
  pub policy : In pod.dns_policy (items c.spec.allowed_dns_policies)
  pub namespace :
      (items c.spec.allowed_namespaces ≡ []) ⊎ In pod.namespace (items c.spec.allowed_namespaces)

-- `c` is the first eligible class of the list.
pub data First (pod : Pod) (c : DnsClass) : List DnsClass → Type 0 where
  here : {d : DnsClass} {rest : List DnsClass} → d ≡ c → IsEligible pod d → First pod c (d ∷ rest)
  there :
      {d : DnsClass} {rest : List DnsClass}
      → (¬ IsEligible pod d)
      → First pod c rest
      → First pod c (d ∷ rest)

is_empty_iff : (xs : List Text) → (is_empty xs ≡ true) ↔ (xs ≡ [])
is_empty_iff [] = ground arith
is_empty_iff (x ∷ xs) = ground arith

-- One round of the loop.
select_class-cases :
    (pod : Pod) (d : DnsClass) (rest : List DnsClass)
    → (IsEligible pod d × (select_class (d ∷ rest) pod ≡ ok d))
      ⊎ ((¬ IsEligible pod d) × (select_class (d ∷ rest) pod ≡ select_class rest pod))
unfolding select_class
select_class-cases pod d rest =
    let disabled = items d.spec.disabled_namespaces in
    let policies = items d.spec.allowed_dns_policies in
    let namespaces = items d.spec.allowed_namespaces in
    elim (Bool-cases (contains disabled pod.namespace)) [
      | inl off ↦ inr (λ h. h.enabled ((contains_iff disabled pod.namespace).0 off), rw off)
      | inr on ↦ elim (Bool-cases (contains policies pod.dns_policy)) [
        | inr other ↦
            inr (λ h. (contains-false policies pod.dns_policy).0 other h.policy, rw (on, other))
        | inl policy ↦
            elim (Bool-cases (is_empty namespaces || contains namespaces pod.namespace)) [
              | inl open_to ↦ inl (
                record {
                  enabled = (contains-false disabled pod.namespace).0 on;
                  policy = (contains_iff policies pod.dns_policy).0 policy;
                  namespace =
                      ground
                        (arith, is_empty_iff namespaces, contains_iff namespaces pod.namespace);
                },
                rw (on, policy, open_to),
              )
              | inr closed ↦ inr (
                λ h. ground (
                  arith,
                  h.namespace,
                  is_empty_iff namespaces,
                  contains_iff namespaces pod.namespace,
                ),
                rw (on, policy, closed),
              )
            ]
      ]
    ]

select_class_sound :
    (pod : Pod) {c : DnsClass} (classes : List DnsClass)
    → select_class classes pod ≡ ok c
    → First pod c classes
select_class_sound pod [] h = unfold select_class in cc
select_class_sound pod (d ∷ rest) h = elim (select_class-cases pod d rest) [
  | inl (eligible, e) ↦ here (cc) eligible
  | inr (not_eligible, e) ↦ there not_eligible (select_class_sound pod rest (sym e ∙ h))
]

select_class_complete :
    (pod : Pod) {c : DnsClass} {classes : List DnsClass}
    → First pod c classes
    → select_class classes pod ≡ ok c
select_class_complete pod (here {d} {rest} same eligible) = elim (select_class-cases pod d rest) [
  | inl (h, e) ↦ e ∙ ap ok same
  | inr (h, e) ↦ absurd (h eligible)
]
select_class_complete pod (there {d} {rest} h first) = elim (select_class-cases pod d rest) [
  | inl (eligible, e) ↦ absurd (h eligible)
  | inr (n, e) ↦ e ∙ select_class_complete pod first
]

-- Where the classes can be listed, a class is returned exactly if it is the first eligible one in
-- the order of the list.
pub get_dns_class-ok_iff :
    (pod : Pod) (classes : List DnsClass) (c : DnsClass)
    → (get_dns_class (ok classes) pod ≡ ok c) ↔ First pod c classes
unfolding get_dns_class
get_dns_class-ok_iff pod classes c = (select_class_sound pod classes, select_class_complete pod)

select_class-err :
    (pod : Pod) {e : Text} (classes : List DnsClass)
    → select_class classes pod ≡ err e
    → All (λ c. ¬ IsEligible pod c) classes × (e ≡ err_no_dns_class)
select_class-err pod [] h = (tt, unfold select_class in cc)
select_class-err pod (d ∷ rest) h = elim (select_class-cases pod d rest) [
  | inl (eligible, e) ↦ cc
  | inr (not_eligible, e) ↦
      let (more, same) = select_class-err pod rest (sym e ∙ h) in ((not_eligible, more), same)
]

select_class-none :
    (pod : Pod) (classes : List DnsClass)
    → All (λ c. ¬ IsEligible pod c) classes
    → select_class classes pod ≡ err err_no_dns_class
select_class-none pod [] h = unfold select_class in refl
select_class-none pod (d ∷ rest) (n, h) = elim (select_class-cases pod d rest) [
  | inl (eligible, e) ↦ absurd (n eligible)
  | inr (not_eligible, e) ↦ e ∙ select_class-none pod rest h
]

-- The search fails exactly if no listed class is eligible, and then with `ErrNoDNSClass`.
pub get_dns_class-err_iff :
    (pod : Pod) (classes : List DnsClass) (e : Text)
    → (get_dns_class (ok classes) pod ≡ err e)
      ↔ (All (λ c. ¬ IsEligible pod c) classes × (e ≡ err_no_dns_class))
unfolding get_dns_class
get_dns_class-err_iff pod classes e =
    (select_class-err pod classes, λ h. select_class-none pod classes h.0 ∙ ap err (sym h.1))
