-- ===== src/Tests/ManagerTests.antt =====
-- The start of the manager: tests, and the theorems at concrete flags.
use kubedns_shepherd.Base.{
  Bool, true, false, ◌++◌, Text, codes, text_eq, length, In, ◌≡◌, ◌≢◌, ◌↔◌, ◌⊎◌, refl, some,
}
use kubedns_shepherd.Manager.{
  Flags, CertWatcher, default_flags, disable_http2, get_certificate, Call, new_watcher, add_watcher,
  add_healthz_check, webhook_cert_watcher, webhook_tls_opts, metrics_server_options, calls, main,
}
use kubedns_shepherd.Manager.Start.{Starts, main-Starts}
use kubedns_shepherd.Manager.Servers.{servers_lem}

abbrev join_path : Text → Text → Text
join_path dir file = dir ++ (codes "/" ++ file)

abbrev flags : Flags
flags = record default_flags { webhook_cert_path = codes "/certs" }

abbrev watcher : CertWatcher
watcher = record { cert_file = codes "/certs/tls.crt"; key_file = codes "/certs/tls.key" }

watcher_test : webhook_cert_watcher join_path flags ≡ some watcher
watcher_test = refl

abbrev fails_healthz : Call → Bool
fails_healthz add_healthz_check = true
fails_healthz _ = false

abbrev fails_never : Call → Bool
fails_never c = false

-- The numbers of calls that are made, and the exit codes.
main_tests :
    (length (main join_path flags (codes "") fails_never).0 ≡ 10)
    × ((main join_path flags (codes "") fails_never).1 ≡ 0)
    × (length (main join_path flags (codes "false") fails_healthz).0 ≡ 7)
    × ((main join_path flags (codes "false") fails_healthz).1 ≡ 1)
unfolding main text_eq
main_tests = (refl, refl, refl, refl)

main-Starts_example :
    let (made, code) = main join_path flags (codes "") fails_healthz in
    Starts join_path flags (codes "") fails_healthz made code
main-Starts_example = main-Starts join_path flags (codes "") fails_healthz refl

servers_lem_example :
    (In disable_http2 (webhook_tls_opts join_path flags) ↔ (false ≡ false))
    × (In disable_http2 (metrics_server_options join_path flags).tls_opts ↔ (false ≡ false))
    × ((w : CertWatcher)
        → In (get_certificate w) (webhook_tls_opts join_path flags)
          ↔ ((codes "/certs" ≢ codes "") × (w ≡ watcher)))
    × ((w : CertWatcher)
        → In (get_certificate w) (metrics_server_options join_path flags).tls_opts ↔ (
            (codes "" ≢ codes "")
            × (w ≡ record { cert_file = codes "/tls.crt"; key_file = codes "/tls.key" })))
    × ((w : CertWatcher)
        → (In (new_watcher w) (calls join_path flags (codes "")) ↔ (
            In (get_certificate w) (webhook_tls_opts join_path flags)
            ⊎ In (get_certificate w) (metrics_server_options join_path flags).tls_opts))
          × (In (add_watcher w) (calls join_path flags (codes "")) ↔ (
              In (get_certificate w) (webhook_tls_opts join_path flags)
              ⊎ In (get_certificate w) (metrics_server_options join_path flags).tls_opts)))
servers_lem_example = servers_lem join_path flags (codes "")
