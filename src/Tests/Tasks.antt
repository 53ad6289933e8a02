-- ===== src/Tests/Tasks.antt =====
-- The theorems on the scheduled tasks, applied.
use transact_go.Cache.{Cache}
use transact_go.Exchange.Service.{ExchangeRate, mock_rates}
use transact_go.Idempotency.Interceptor.{HandlerEnd, Request, Server, answered, intercept, returned}
use transact_go.Outcome.{ok}
use transact_go.Prelude.{String, [], refl, some, suc, true, false, ℕ, ◌∷◌, ◌≡◌}
use transact_go.Tasks.Cleanup.{cleaned, intercept-cleanup}
use transact_go.Tasks.Service.{StartDb, on_module_init}
use transact_go.Tasks.Startup.{IsGrown, on_module_init_again, pairs_onto, refresh_times}
use transact_go.Tests.Fixtures.{no_cache}

abbrev counting : ℕ → HandlerEnd ℕ × ℕ
counting n = (returned 201 (suc n), suc n)

abbrev quiet_server : Server ℕ ℕ
quiet_server = record { records = []; app = 5; now = 1000 }

abbrev paying : Request
paying = record {
  user = some "7";
  key = some "0123456789abcdef";
  method = "POST";
  path = "/payments/withdraw";
}

-- Two days after the first run, the handler runs a second time.
intercept-cleanup_example :
    let (reply, s') = intercept counting true paying (
      cleaned paying "0123456789abcdef"
        (record { sent = refl; nonempty = refl; long = refl })
        counting
        counting
        quiet_server
        172_801_000) in
    (reply ≡ answered (returned 201 7)) × (s'.app ≡ 7)
intercept-cleanup_example =
    intercept-cleanup paying "0123456789abcdef"
      (record { sent = refl; nonempty = refl; long = refl }) counting counting quiet_server
      172_801_000 refl

abbrev start_cache : Cache String ExchangeRate
start_cache = no_cache

abbrev first_start : StartDb (λ r. r) start_cache (Unit {0}) (Unit {0})
first_start = record {
  fee_rules = record { rules = []; next_id = 1 };
  fraud = record {
    rules = [];
    alerts = [];
    transfers = [];
    next_id = 1;
    now = 1000;
    outages = [];
    cached_rules = tt;
    counters = tt;
  };
  rates = record { rates = []; next_id = 1; now = 1000; randoms = []; cache = tt };
}

on_module_init_again_example :
    let (r, s1) = on_module_init (λ r. r) start_cache (Unit {0}) (Unit {0}) true first_start in
    let (r2, s2) =
      on_module_init
        (λ r. r)
        start_cache
        (Unit {0})
        (Unit {0})
        true
        (refresh_times (λ r. r) start_cache (true ∷ false ∷ true ∷ []) s1) in
    (r ≡ ok tt)
    × (r2 ≡ ok tt)
    × (s2.fee_rules ≡ s1.fee_rules)
    × (s2.fraud ≡ s1.fraud)
    × IsGrown
        (λ r. r)
        start_cache
        []
        (pairs_onto mock_rates
          (pairs_onto mock_rates (pairs_onto mock_rates (pairs_onto mock_rates []))))
        s2.rates.rates
on_module_init_again_example =
    on_module_init_again (λ r. r) start_cache (true ∷ false ∷ true ∷ []) first_start
