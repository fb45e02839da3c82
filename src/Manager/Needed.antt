-- ===== src/Manager/Needed.antt =====
-- Which calls the start of the manager needs, and that `main` has these and no others.
use kubedns_shepherd.Base.{
  some-injective, In-append_cases, true, not, List, [], ◌∷◌, ◌++◌, Option, none, some, Text, codes,
  text_eq, text_eq_iff, length, ltb, In, All, In-All, All-append, In-append_left, In-append_right,
  ◌≡◌, ◌≢◌, ◌↔◌, ◌⊎◌, refl, sym, ap, arith, inl, inr, Bool-cases, if◌then◌else◌,
}
use kubedns_shepherd.Manager.{
  Flags, CertWatcher, ManagerOptions, Call, new_watcher, get_config, new_manager, setup_reconciler,
  setup_dns_class_webhook, register_pod_mutator, add_watcher, add_healthz_check, add_readyz_check,
  start, webhook_cert_watcher, metrics_cert_watcher, create, add, webhook_tls_opts,
  metrics_server_options, manager_options, setup_calls, calls,
}

is_set_iff : (s : Text) → (ltb 0 (length s) ≡ true) ↔ (s ≢ codes "")
is_set_iff [] = (λ h e. ground (arith, h), λ h. absurd (h refl))
is_set_iff (c ∷ s) = (λ h e. cc, λ h. ground arith)

-- A watcher that is there only if a path is set.
watcher_iff :
    (path : Text) (v w : CertWatcher)
    → ((if ltb 0 (length path) then some v else none) ≡ some w) ↔ ((path ≢ codes "") × (w ≡ v))
watcher_iff path v w = elim (Bool-cases (ltb 0 (length path))) [
  | inl e ↦ rw e (λ h. ((is_set_iff path).0 e, sym (some-injective h)), λ h. ap some (sym h.1))
  | inr e ↦ rw e (λ h. cc, λ h. absurd (ground (arith, e, (is_set_iff path).1 h.0)))
]

In-create : (o : Option CertWatcher) (w : CertWatcher) → o ≡ some w → In (new_watcher w) (create o)
In-create o w h = rw h (inl refl)

In-add : (o : Option CertWatcher) (w : CertWatcher) → o ≡ some w → In (add_watcher w) (add o)
In-add o w h = rw h (inl refl)

module _ (P : Call → Type 0) where
  All-create :
      (o : Option CertWatcher)
      → ((w : CertWatcher) → o ≡ some w → P (new_watcher w))
      → All P (create o)
  All-create none h = tt
  All-create (some w) h = (h w refl, tt)

  All-add :
      (o : Option CertWatcher)
      → ((w : CertWatcher) → o ≡ some w → P (add_watcher w))
      → All P (add o)
  All-add none h = tt
  All-add (some w) h = (h w refl, tt)

module _ (join_path : Text → Text → Text) (flags : Flags) (enable_webhooks : Text) where
  -- The two files of a watcher stand in the directory of a flag that is set.
  abbrev pub Watches : (path name key : Text) → CertWatcher → Type 0
  Watches path name key w =
      (path ≢ codes "")
      × (w ≡ record { cert_file = join_path path name; key_file = join_path path key })

  abbrev pub WatchesWebhook : CertWatcher → Type 0
  WatchesWebhook = Watches flags.webhook_cert_path flags.webhook_cert_name flags.webhook_cert_key

  abbrev pub WatchesMetrics : CertWatcher → Type 0
  WatchesMetrics = Watches flags.metrics_cert_path flags.metrics_cert_name flags.metrics_cert_key

  -- What the manager is created with; Manager/Servers says more of the two `TLSOpts`.
  abbrev pub described : ManagerOptions
  described = record {
    metrics = record {
      bind_address = flags.metrics_addr;
      secure_serving = flags.secure_metrics;
      tls_opts = (metrics_server_options join_path flags).tls_opts;
      authenticates = flags.secure_metrics;
    };
    webhook_tls_opts = webhook_tls_opts join_path flags;
    health_probe_bind_address = flags.probe_addr;
    leader_election = flags.leader_election;
  }

  -- What has to be done before the manager starts: a watcher for each path that is set is created
  -- and added, the manager is created from the flags, the reconciler is set up with the flag's number
  -- of workers, the DNSClass webhook unless `ENABLE_WEBHOOKS` is `false`, the pod webhook is
  -- registered at its path, and the two checks are added.
  abbrev pub Prepared : Call → Type 0
  Prepared (new_watcher w) = WatchesWebhook w ⊎ WatchesMetrics w
  Prepared get_config = Unit
  Prepared (new_manager options) = options ≡ described
  Prepared (setup_reconciler workers) = workers ≡ flags.max_concurrent_reconciles
  Prepared setup_dns_class_webhook = enable_webhooks ≢ codes "false"
  Prepared (register_pod_mutator path) = path ≡ codes "/mutate-v1-pod"
  Prepared (add_watcher w) = WatchesWebhook w ⊎ WatchesMetrics w
  Prepared add_healthz_check = Unit
  Prepared add_readyz_check = Unit
  Prepared start = ⊥

  abbrev pub Needed : Call → Type 0
  Needed c = Prepared c ⊎ (c ≡ start)

  pub webhook_watcher_iff :
      (w : CertWatcher) → (webhook_cert_watcher join_path flags ≡ some w) ↔ WatchesWebhook w
  webhook_watcher_iff w = watcher_iff flags.webhook_cert_path _ w

  pub metrics_watcher_iff :
      (w : CertWatcher) → (metrics_cert_watcher join_path flags ≡ some w) ↔ WatchesMetrics w
  metrics_watcher_iff w = watcher_iff flags.metrics_cert_path _ w

  -- `SetupDNSClassWebhookWithManager` under its test.
  abbrev webhook_setup : List Call
  webhook_setup =
      if not (text_eq enable_webhooks (codes "false")) then setup_dns_class_webhook ∷ [] else []

  webhook_setup-Prepared : All Prepared webhook_setup
  webhook_setup-Prepared = elim (Bool-cases (text_eq enable_webhooks (codes "false"))) [
    | inl e ↦ rw e tt
    | inr e ↦ rw e (λ h. ground (arith, e, (text_eq_iff enable_webhooks (codes "false")).1 h), tt)
  ]

  In-webhook_setup : enable_webhooks ≢ codes "false" → In setup_dns_class_webhook webhook_setup
  In-webhook_setup h = elim (Bool-cases (text_eq enable_webhooks (codes "false"))) [
    | inl e ↦ absurd (h ((text_eq_iff enable_webhooks (codes "false")).0 e))
    | inr e ↦ rw e (inl refl)
  ]

  setup_calls-Prepared : All Prepared (setup_calls join_path flags enable_webhooks)
  unfolding setup_calls manager_options metrics_server_options
  setup_calls-Prepared =
      All-append Prepared (create (webhook_cert_watcher join_path flags)) _
        (All-create Prepared _ (λ w e. inl ((webhook_watcher_iff w).0 e)))
        (All-append Prepared (create (metrics_cert_watcher join_path flags)) _
          (All-create Prepared _ (λ w e. inr ((metrics_watcher_iff w).0 e)))
          (
            tt,
            (
              refl,
              (
                refl,
                All-append Prepared webhook_setup _ webhook_setup-Prepared (
                  refl,
                  All-append Prepared (add (metrics_cert_watcher join_path flags)) _
                      (All-add Prepared _ (λ w e. inr ((metrics_watcher_iff w).0 e)))
                      (All-append Prepared (add (webhook_cert_watcher join_path flags)) _
                        (All-add Prepared _ (λ w e. inl ((webhook_watcher_iff w).0 e)))
                        (tt, (tt, tt))),
                ),
              ),
            ),
          ))

  -- The calls behind the two watchers, and those behind the pod webhook.
  abbrev closing : List Call
  closing =
      add (metrics_cert_watcher join_path flags)
      ++ (add (webhook_cert_watcher join_path flags) ++ (add_healthz_check ∷ add_readyz_check ∷ []))

  abbrev middle : List Call
  middle =
      get_config
      ∷ new_manager (manager_options join_path flags)
      ∷ setup_reconciler flags.max_concurrent_reconciles
      ∷ (webhook_setup ++ (register_pod_mutator (codes "/mutate-v1-pod") ∷ closing))

  In-middle : (c : Call) → In c middle → In c (setup_calls join_path flags enable_webhooks)
  unfolding setup_calls
  In-middle c h =
      In-append_right c (create (webhook_cert_watcher join_path flags)) _
        (In-append_right c (create (metrics_cert_watcher join_path flags)) _ h)

  In-closing : (c : Call) → In c closing → In c (setup_calls join_path flags enable_webhooks)
  In-closing c h = In-middle c (inr (inr (inr (In-append_right c webhook_setup _ (inr h)))))

  pub Prepared-In : (c : Call) → Prepared c → In c (setup_calls join_path flags enable_webhooks)
  unfolding setup_calls manager_options metrics_server_options
  Prepared-In (new_watcher w) (inl h) =
      In-append_left _ (create (webhook_cert_watcher join_path flags)) _
        (In-create _ w ((webhook_watcher_iff w).1 h))
  Prepared-In (new_watcher w) (inr h) =
      In-append_right _ (create (webhook_cert_watcher join_path flags)) _ (
        In-append_left _ (create (metrics_cert_watcher join_path flags)) _
          (In-create _ w ((metrics_watcher_iff w).1 h)))
  Prepared-In get_config h = In-middle get_config (inl refl)
  Prepared-In (new_manager options) h = In-middle _ (inr (inl (ap new_manager h)))
  Prepared-In (setup_reconciler workers) h = In-middle _ (inr (inr (inl (ap setup_reconciler h))))
  Prepared-In setup_dns_class_webhook h =
      In-middle _ (inr (inr (inr (In-append_left _ webhook_setup _ (In-webhook_setup h)))))
  Prepared-In (register_pod_mutator path) h =
      In-middle _
        (inr (inr (inr (In-append_right _ webhook_setup _ (inl (ap register_pod_mutator h))))))
  Prepared-In (add_watcher w) (inr h) = In-closing _ (
      In-append_left _ (add (metrics_cert_watcher join_path flags)) _
        (In-add _ w ((metrics_watcher_iff w).1 h)))
  Prepared-In (add_watcher w) (inl h) = In-closing _ (
      In-append_right _ (add (metrics_cert_watcher join_path flags)) _ (
        In-append_left _ (add (webhook_cert_watcher join_path flags)) _
          (In-add _ w ((webhook_watcher_iff w).1 h))))
  Prepared-In add_healthz_check h = In-closing _ (
      In-append_right _ (add (metrics_cert_watcher join_path flags)) _
        (In-append_right _ (add (webhook_cert_watcher join_path flags)) _ (inl refl)))
  Prepared-In add_readyz_check h = In-closing _ (
      In-append_right _ (add (metrics_cert_watcher join_path flags)) _
        (In-append_right _ (add (webhook_cert_watcher join_path flags)) _ (inr (inl refl))))
  Prepared-In start h = absurd h

  pub In-setup_calls_iff :
      (c : Call) → In c (setup_calls join_path flags enable_webhooks) ↔ Prepared c
  In-setup_calls_iff c = (
    In-All Prepared (setup_calls join_path flags enable_webhooks) c setup_calls-Prepared,
    Prepared-In c,
  )

  pub In-calls_iff : (c : Call) → In c (calls join_path flags enable_webhooks) ↔ Needed c
  unfolding calls
  In-calls_iff c = (
    λ h. elim (In-append_cases c (setup_calls join_path flags enable_webhooks) _ h) [
      | inl k ↦ inl ((In-setup_calls_iff c).0 k)
      | inr k ↦ elim k [ inl e ↦ inr e | inr k ↦ absurd k ]
    ],
    λ h. elim h [
      | inl k ↦
          In-append_left c (setup_calls join_path flags enable_webhooks) _
            ((In-setup_calls_iff c).1 k)
      | inr e ↦ In-append_right c (setup_calls join_path flags enable_webhooks) _ (inl e)
    ],
  )
