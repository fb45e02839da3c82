-- ===== src/Manager.antt =====
-- cmd/main.go: the manager's start. The flags are what `flag.Parse` leaves; what the calls of
-- controller-runtime and of the certificate watchers do is a parameter, of which only the errors
-- matter here. `filepath.Join` is a parameter, too.
pub mod Needed
pub mod Start
pub mod Servers
use kubedns_shepherd.Base.{
  ℕ, ◌*◌, ℤ, pos, Bool, true, false, not, List, [], ◌∷◌, ◌++◌, Option, none, some, Text, codes,
  text_eq, length, ltb, if◌then◌else◌,
}

-- `leaderElectionConfiguration`; the durations are in nanoseconds.
pub record LeaderElectionConfiguration : Type 0 where
  pub leader_elect : Bool
  pub lease_duration : ℤ
  pub renew_deadline : ℤ
  pub retry_period : ℤ
  pub resource_lock : Text
  pub resource_name : Text
  pub resource_namespace : Text

-- `time.Second`
abbrev second : ℕ
second = 1000000000

-- The variables of `main` that the flags are bound to.
pub record Flags : Type 0 where
  pub print_version : Bool
  pub metrics_addr : Text
  pub metrics_cert_path : Text
  pub metrics_cert_name : Text
  pub metrics_cert_key : Text
  pub webhook_cert_path : Text
  pub webhook_cert_name : Text
  pub webhook_cert_key : Text
  pub leader_election : LeaderElectionConfiguration
  pub probe_addr : Text
  pub secure_metrics : Bool
  pub enable_http2 : Bool
  pub max_concurrent_reconciles : ℤ

-- What the flags are without arguments.
abbrev pub default_flags : Flags
default_flags = record {
  print_version = false;
  metrics_addr = codes "0";
  metrics_cert_path = codes "";
  metrics_cert_name = codes "tls.crt";
  metrics_cert_key = codes "tls.key";
  webhook_cert_path = codes "";
  webhook_cert_name = codes "tls.crt";
  webhook_cert_key = codes "tls.key";
  leader_election = record {
    leader_elect = false;
    lease_duration = pos (15 * second);
    renew_deadline = pos (10 * second);
    retry_period = pos (2 * second);
    resource_lock = codes "leases";
    resource_name = codes "kubedns-shepherd.io";
    resource_namespace = codes "";
  };
  probe_addr = codes ":8081";
  secure_metrics = true;
  enable_http2 = false;
  max_concurrent_reconciles = pos 2;
}

-- A watcher, by the files that it watches.
pub record CertWatcher : Type 0 where
  pub cert_file : Text
  pub key_file : Text

-- The functions that change a `tls.Config`: `disableHTTP2`, and the ones that take the certificate
-- from a watcher.
pub data TlsOpt : Type 0 where
  disable_http2 : TlsOpt
  get_certificate : CertWatcher → TlsOpt

-- `metricsserver.Options`
pub record MetricsOptions : Type 0 where
  pub bind_address : Text
  pub secure_serving : Bool
  pub tls_opts : List TlsOpt
  -- `filters.WithAuthenticationAndAuthorization` or nil.
  pub authenticates : Bool

-- `ctrl.Options`
pub record ManagerOptions : Type 0 where
  pub metrics : MetricsOptions
  pub webhook_tls_opts : List TlsOpt
  pub health_probe_bind_address : Text
  pub leader_election : LeaderElectionConfiguration

-- The calls of `main` that may fail, and `Register`, which cannot. `ctrl.GetConfigOrDie` ends the
-- process by itself.
pub data Call : Type 0 where
  new_watcher : CertWatcher → Call
  get_config : Call
  new_manager : ManagerOptions → Call
  setup_reconciler : ℤ → Call
  setup_dns_class_webhook : Call
  register_pod_mutator : Text → Call
  add_watcher : CertWatcher → Call
  add_healthz_check : Call
  add_readyz_check : Call
  start : Call

abbrev is_set : Text → Bool
is_set s = ltb 0 (length s)

-- What is done for a watcher: it is created, a server takes its certificate, and the manager runs it.
abbrev pub create : Option CertWatcher → List Call
create none = []
create (some watcher) = new_watcher watcher ∷ []

abbrev pub certificate : Option CertWatcher → List TlsOpt
certificate none = []
certificate (some watcher) = get_certificate watcher ∷ []

abbrev pub add : Option CertWatcher → List Call
add none = []
add (some watcher) = add_watcher watcher ∷ []

module _ (join_path : Text → Text → Text) (flags : Flags) where
  -- `tlsOpts`
  abbrev pub tls_opts : List TlsOpt
  tls_opts = if not flags.enable_http2 then disable_http2 ∷ [] else []

  -- `webhookCertWatcher` and `metricsCertWatcher`, nil without a path.
  abbrev pub webhook_cert_watcher : Option CertWatcher
  webhook_cert_watcher =
      if is_set flags.webhook_cert_path
      then some (record {
        cert_file = join_path flags.webhook_cert_path flags.webhook_cert_name;
        key_file = join_path flags.webhook_cert_path flags.webhook_cert_key;
      })
      else none

  abbrev pub metrics_cert_watcher : Option CertWatcher
  metrics_cert_watcher =
      if is_set flags.metrics_cert_path
      then some (record {
        cert_file = join_path flags.metrics_cert_path flags.metrics_cert_name;
        key_file = join_path flags.metrics_cert_path flags.metrics_cert_key;
      })
      else none

  -- `webhookTLSOpts`; `append` copies, since `tlsOpts` has no room for a second element.
  unfoldable pub webhook_tls_opts : List TlsOpt
  webhook_tls_opts = tls_opts ++ certificate webhook_cert_watcher

  unfoldable pub metrics_server_options : MetricsOptions
  metrics_server_options = record {
    bind_address = flags.metrics_addr;
    secure_serving = flags.secure_metrics;
    tls_opts = tls_opts ++ certificate metrics_cert_watcher;
    authenticates = flags.secure_metrics;
  }

  unfoldable pub manager_options : ManagerOptions
  unfolding webhook_tls_opts metrics_server_options
  manager_options = record {
    metrics = metrics_server_options;
    webhook_tls_opts = webhook_tls_opts;
    health_probe_bind_address = flags.probe_addr;
    leader_election = flags.leader_election;
  }

  -- The calls in their order up to the start of the manager; `enable_webhooks` is the variable
  -- `ENABLE_WEBHOOKS`.
  unfoldable pub setup_calls : Text → List Call
  unfolding manager_options text_eq
  setup_calls enable_webhooks =
      create webhook_cert_watcher
      ++ (create metrics_cert_watcher
          ++ (get_config
              ∷ new_manager manager_options
              ∷ setup_reconciler flags.max_concurrent_reconciles
              ∷ ((if not (text_eq enable_webhooks (codes "false"))
                    then setup_dns_class_webhook ∷ []
                    else [])
                  ++ (register_pod_mutator (codes "/mutate-v1-pod")
                      ∷ (add metrics_cert_watcher
                          ++ (add webhook_cert_watcher
                              ++ (add_healthz_check ∷ add_readyz_check ∷ [])))))))

  unfoldable pub calls : Text → List Call
  unfolding setup_calls
  calls enable_webhooks = setup_calls enable_webhooks ++ (start ∷ [])

-- Whether a call ends the process: `Register` returns no error.
abbrev pub ends : (Call → Bool) → Call → Bool
ends fails (register_pod_mutator path) = false
ends fails call = fails call

-- The calls that are made, and the exit code: an error ends the process with the code 1.
unfoldable pub make : (Call → Bool) → List Call → List Call × ℕ
make fails [] = ([], 0)
make fails (call ∷ rest) =
    let (made, code) = make fails rest in
    if ends fails call then (call ∷ [], 1) else (call ∷ made, code)

-- `main`
unfoldable pub main : (Text → Text → Text) → Flags → Text → (Call → Bool) → List Call × ℕ
unfolding make calls
main join_path flags enable_webhooks fails =
    if flags.print_version then ([], 0) else make fails (calls join_path flags enable_webhooks)
