-- ===== src/Manager/Servers.antt =====
-- What the webhook server and the metrics server are given, and that their watchers run.
use kubedns_shepherd.Base.{
  some-injective, Bool, true, false, not, [], ◌∷◌, ◌++◌, Option, none, some, Text, codes, In, ◌≡◌,
  ◌≢◌, ◌↔◌, ◌⊎◌, refl, sym, ap, arith, inl, inr, if◌then◌else◌,
}
use kubedns_shepherd.Manager.{
  Flags, CertWatcher, disable_http2, get_certificate, new_watcher, add_watcher,
  webhook_cert_watcher, metrics_cert_watcher, certificate, webhook_tls_opts, metrics_server_options,
  calls,
}
use kubedns_shepherd.Manager.Needed.{
  WatchesWebhook, WatchesMetrics, webhook_watcher_iff, metrics_watcher_iff, In-calls_iff,
}

In-certificate :
    (o : Option CertWatcher) (w : CertWatcher)
    → In (get_certificate w) (certificate o) ↔ (o ≡ some w)
In-certificate none w = (λ h. absurd h, λ h. cc)
In-certificate (some v) w = (
  λ h. elim h [ inl e ↦ cc | inr k ↦ absurd k ],
  λ h. inl (ap get_certificate (sym (some-injective h))),
)

-- Options with or without HTTP/2, and then the ones for a watcher.
In-tls :
    (http2 : Bool) (o : Option CertWatcher)
    → let opts = (if not http2 then disable_http2 ∷ [] else []) ++ certificate o in
      (In disable_http2 opts ↔ (http2 ≡ false))
      × ((w : CertWatcher) → In (get_certificate w) opts ↔ (o ≡ some w))
In-tls true none = ((λ h. absurd h, λ h. absurd (ground (arith, h))), In-certificate none)
In-tls true (some v) = (
  (λ h. elim h [ inl e ↦ cc | inr k ↦ absurd k ], λ h. absurd (ground (arith, h))),
  In-certificate (some v),
)
In-tls false o = (
  (λ h. refl, λ h. inl refl),
  λ w. (
    λ h. elim h [ inl e ↦ cc | inr k ↦ (In-certificate o w).0 k ],
    λ h. inr ((In-certificate o w).1 h),
  ),
)

iff_trans : {A B C : Type 0} → A ↔ B → B ↔ C → A ↔ C
iff_trans (to, from) (into, back) = (λ a. into (to a), λ c. from (back c))

-- One of two and nothing else.
either_iff : {A A' B B' C : Type 0} → A ↔ A' → B ↔ B' → (C → ⊥) → ((A' ⊎ B') ⊎ C) ↔ (A ⊎ B)
either_iff a b never = (
  λ h. elim h [
    | inl k ↦ elim k [ inl x ↦ inl (a.1 x) | inr y ↦ inr (b.1 y) ]
    | inr c ↦ absurd (never c)
  ],
  λ h. elim h [ inl x ↦ inl (inl (a.0 x)) | inr y ↦ inl (inr (b.0 y)) ],
)

module _ (join_path : Text → Text → Text) (flags : Flags) (enable_webhooks : Text) where
  -- The webhook server and the metrics server both have HTTP/2 disabled exactly if the flag does not
  -- enable it; each takes a certificate exactly if its own path is set, and then from its own two
  -- files in that directory; and `main` creates a watcher, and adds it to the manager, exactly if one
  -- of the servers takes its certificate from it.
  pub servers_lem :
      let webhook = webhook_tls_opts join_path flags in
      let metrics = (metrics_server_options join_path flags).tls_opts in
      (In disable_http2 webhook ↔ (flags.enable_http2 ≡ false))
      × (In disable_http2 metrics ↔ (flags.enable_http2 ≡ false))
      × ((w : CertWatcher)
          → In (get_certificate w) webhook ↔ (
              (flags.webhook_cert_path ≢ codes "")
              × (w ≡ record {
                cert_file = join_path flags.webhook_cert_path flags.webhook_cert_name;
                key_file = join_path flags.webhook_cert_path flags.webhook_cert_key;
              })))
      × ((w : CertWatcher)
          → In (get_certificate w) metrics ↔ (
              (flags.metrics_cert_path ≢ codes "")
              × (w ≡ record {
                cert_file = join_path flags.metrics_cert_path flags.metrics_cert_name;
                key_file = join_path flags.metrics_cert_path flags.metrics_cert_key;
              })))
      × ((w : CertWatcher)
          → (In (new_watcher w) (calls join_path flags enable_webhooks)
              ↔ (In (get_certificate w) webhook ⊎ In (get_certificate w) metrics))
            × (In (add_watcher w) (calls join_path flags enable_webhooks)
                ↔ (In (get_certificate w) webhook ⊎ In (get_certificate w) metrics)))
  unfolding webhook_tls_opts metrics_server_options
  servers_lem =
      let (http, own) = In-tls flags.enable_http2 (webhook_cert_watcher join_path flags) in
      let (http', own') = In-tls flags.enable_http2 (metrics_cert_watcher join_path flags) in
      let webhook : (w : CertWatcher)
          → In (get_certificate w) (webhook_tls_opts join_path flags)
            ↔ WatchesWebhook join_path flags enable_webhooks w =
        λ w. iff_trans (own w) (webhook_watcher_iff join_path flags enable_webhooks w) in
      let metrics : (w : CertWatcher)
          → In (get_certificate w) (metrics_server_options join_path flags).tls_opts
            ↔ WatchesMetrics join_path flags enable_webhooks w =
        λ w. iff_trans (own' w) (metrics_watcher_iff join_path flags enable_webhooks w) in
      (
        http,
        http',
        webhook,
        metrics,
        λ w. (
          iff_trans (In-calls_iff join_path flags enable_webhooks (new_watcher w))
              (either_iff (webhook w) (metrics w) (λ e. cc)),
          iff_trans (In-calls_iff join_path flags enable_webhooks (add_watcher w))
              (either_iff (webhook w) (metrics w) (λ e. cc)),
        ),
      )
