-- ===== src/Manager/Start.antt =====
-- The start of the manager: which calls are made, in which order, and the exit code.
use kubedns_shepherd.Base.{
  In-append_cases, ℕ, Bool, true, false, List, [], ◌∷◌, ◌++◌, Text, In, All, In-All, In-append_left,
  In-append_right, ◌≡◌, ◌≢◌, ◌↔◌, ◌⊎◌, refl, sym, ap, subst, arith, inl, inr, Bool-cases,
  if◌then◌else◌,
}
use kubedns_shepherd.Manager.{Flags, Call, start, setup_calls, calls, ends, make, main}
use kubedns_shepherd.Manager.Needed.{
  Prepared, Needed, Prepared-In, In-setup_calls_iff, In-calls_iff,
}

-- The calls are made in their order until one ends the process, with the exit code.
data Made (fails : Call → Bool) (xs : List Call) : List Call × ℕ → Type 0 where
  all : All (λ c. ends fails c ≡ false) xs → Made fails xs (xs, 0)
  stopped :
      (front back : List Call) (c : Call)
      → xs ≡ front ++ (c ∷ back)
      → All (λ d. ends fails d ≡ false) front
      → ends fails c ≡ true
      → Made fails xs (front ++ (c ∷ []), 1)

Made-cons :
    (fails : Call → Bool) (x : Call) (xs made : List Call) (code : ℕ)
    → ends fails x ≡ false
    → Made fails xs (made, code)
    → Made fails (x ∷ xs) (x ∷ made, code)
Made-cons fails x xs _ _ h (all hs) = all (h, hs)
Made-cons fails x xs _ _ h (stopped front back c shape hs bad) =
    stopped (x ∷ front) back c (ap (◌∷◌ x) shape) (h, hs) bad

make-Made : (fails : Call → Bool) (xs : List Call) → Made fails xs (make fails xs)
unfolding make
make-Made fails [] = all tt
make-Made fails (x ∷ xs) = elim (Bool-cases (ends fails x)) [
  | inl e ↦ rw (e, make) (stopped [] xs x refl tt e)
  | inr e ↦
      rw (e, make) (Made-cons fails x xs (make fails xs).0 (make fails xs).1 e (make-Made fails xs))
]

-- The last of a list of calls is made only behind all the others.
make_last :
    (fails : Call → Bool) (xs : List Call) (last : Call)
    → ((c : Call) → In c (make fails (xs ++ (last ∷ []))).0 → In c xs)
      ⊎ ((make fails (xs ++ (last ∷ []))).0 ≡ xs ++ (last ∷ []))
unfolding make
make_last fails [] last = elim (Bool-cases (ends fails last)) [
  | inl e ↦ inr (rw e refl)
  | inr e ↦ inr (rw e refl)
]
make_last fails (x ∷ xs) last = elim (Bool-cases (ends fails x)) [
  | inl e ↦ rw e (inl (λ c i. elim i [ inl same ↦ inl same | inr k ↦ absurd k ]))
  | inr e ↦ rw e elim (make_last fails xs last) [
    | inl h ↦ inl (λ c i. elim i [ inl same ↦ inl same | inr k ↦ inr (h c k) ])
    | inr h ↦ inr (ap (◌∷◌ x) h)
  ]
]

module _ (join_path : Text → Text → Text) (flags : Flags) (enable_webhooks : Text) where
  -- What `main` does: the calls that it makes, and the exit code.
  pub record Starts (fails : Call → Bool) (made : List Call) (code : ℕ) : Type 0 where
    pub zero_iff :
        (code ≡ 0) ↔ ((c : Call) → Needed join_path flags enable_webhooks c → ends fails c ≡ false)
    pub needed : (c : Call) → In c made → Needed join_path flags enable_webhooks c
    pub whole : code ≡ 0 → (c : Call) → Needed join_path flags enable_webhooks c → In c made
    pub broken :
        code ≢ 0
        → (code ≡ 1)
          × (front : List Call) × (c : Call) × (made ≡ front ++ (c ∷ []))
          × (ends fails c ≡ true)
          × All (λ d. ends fails d ≡ false) front
    pub started :
        In start made
        → (front : List Call) × (made ≡ front ++ (start ∷ []))
          × ((c : Call) → Prepared join_path flags enable_webhooks c → In c front)

  start_last :
      (fails : Call → Bool)
      → In start (make fails (calls join_path flags enable_webhooks)).0
      → (make fails (calls join_path flags enable_webhooks)).0
        ≡ setup_calls join_path flags enable_webhooks ++ (start ∷ [])
  unfolding calls
  start_last fails h = elim (make_last fails (setup_calls join_path flags enable_webhooks) start) [
    | inl k ↦ absurd ((In-setup_calls_iff join_path flags enable_webhooks start).0 (k start h))
    | inr k ↦ k
  ]

  Made-Starts :
      (fails : Call → Bool) (r : List Call × ℕ)
      → Made fails (calls join_path flags enable_webhooks) r
      → (In start r.0 → r.0 ≡ setup_calls join_path flags enable_webhooks ++ (start ∷ []))
      → Starts fails r.0 r.1
  Made-Starts fails _ (all hs) last = record {
    zero_iff = (
      λ e c n. In-All _ _ c hs ((In-calls_iff join_path flags enable_webhooks c).1 n),
      λ h. refl,
    );
    needed = λ c. (In-calls_iff join_path flags enable_webhooks c).0;
    whole = λ e c. (In-calls_iff join_path flags enable_webhooks c).1;
    broken = λ h. absurd (h refl);
    started = λ h. (_, last h, Prepared-In join_path flags enable_webhooks);
  }
  Made-Starts fails _ (stopped front back c shape hs bad) last =
      let here : (d : Call)
          → In d (front ++ (c ∷ []))
          → In d (calls join_path flags enable_webhooks) =
        λ d i. subst (In d) (sym shape) (elim (In-append_cases d front _ i) [
          | inl k ↦ In-append_left d front _ k
          | inr k ↦ In-append_right d front _ (elim k [ inl e ↦ inl e | inr k ↦ absurd k ])
        ]) in
      let bad_needed : Needed join_path flags enable_webhooks c =
        (In-calls_iff join_path flags enable_webhooks c).0
          (here c (In-append_right c front _ (inl refl))) in
      record {
        zero_iff = (λ e. absurd (omega (arith, e)), λ h. ground (arith, h c bad_needed, bad));
        needed = λ d i. (In-calls_iff join_path flags enable_webhooks d).0 (here d i);
        whole = λ e. absurd (omega (arith, e));
        broken = λ h. (refl, front, c, refl, bad, hs);
        started = λ h. (_, last h, Prepared-In join_path flags enable_webhooks);
      }

  -- Without the flag for the version, `main` ends with the code 0 exactly if none of the calls that
  -- are needed ends the process, and then it has made all of them: those that prepare the start of
  -- the manager, and the start. It makes no others. Otherwise it ends with the code 1 behind the
  -- first call that ends the process. It starts the manager as the last call, and only behind every
  -- call that prepares it: a watcher for each path that is set is created and added, the manager is
  -- created from the flags, the reconciler is set up with the flag's number of workers and the
  -- DNSClass webhook unless `ENABLE_WEBHOOKS` is `false`, the pod webhook is registered at its path,
  -- and the two checks are added.
  pub main-Starts :
      (fails : Call → Bool)
      → flags.print_version ≡ false
      → let (made, code) = main join_path flags enable_webhooks fails in Starts fails made code
  unfolding main
  main-Starts fails h =
      subst
        (λ b.
          let r = if b then ([], 0) else make fails (calls join_path flags enable_webhooks) in
          Starts fails r.0 r.1)
        (sym h)
        (Made-Starts fails _ (make-Made fails (calls join_path flags enable_webhooks))
          (start_last fails))
