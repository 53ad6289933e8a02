-- ===== src/Tests/Http.antt =====
-- The theorems on requests, applied to a transfer of 400,000 kobo that is posted twice.
use Prim.Native.Char.{Char}
use transact_go.Auth.Guards.{authenticate, can_activate, handle_request, valid_token}
use transact_go.Fees.Service.{calculate, charge_rule, compute_base_fee, round_mul}
use transact_go.Health.{QueueDepth, check, get_health, get_health-cases, unavailable}
use transact_go.Http.Filter.{RequestInfo}
use transact_go.Http.Moves.{IsMade, post_internal_transfer-IsMade}
use transact_go.Http.Retries.{IsAttempt, IsOneCall, is_success, post_all, post_all_once}
use transact_go.Http.Runs.{IsDeclined}
use transact_go.Http.Transfers.{
  HttpRequest, HttpResponse, accepted, post_internal_transfer, route, route_for,
}
use transact_go.Http.UniqueDetail.{
  closes, parse_unique_constraint_message, parse_unique_constraint_message-detail,
}
use transact_go.Idempotency.Interceptor.{Server, claim, execute, intercept, intercept_key}
use transact_go.Outcome.{Reason}
use transact_go.Prelude.{
  Bool, Option, String, [], arith, false, if◌then◌else◌, inl, inr, none, refl, some, true, ℕ, ◌==◌,
  ◌||◌, ◌∷◌, ◌≡◌, ◌≤◌, ◌⊎◌,
}
use transact_go.Prelude.Int.{pos, ◌+ℤ◌, ◌-ℤ◌}
use transact_go.Prelude.Texts.{NoneIs, is_line_end}
use transact_go.Tests.Fixtures.{midnight_of, seeded_schedule, start_db, two_wallets-IsKeyed}
use transact_go.Transfers.Store.{fits_columns}
use transact_go.Transfers.Entities.{Transfer}
use transact_go.Transfers.Service.{
  InternalTransferDto, assert_within_daily_limit, internal_body, internal_transfer,
  validate_internal,
}
use transact_go.Transfers.Store.{Db}
use transact_go.Users.Entities.{tier_1}
use transact_go.Wallets.Service.{credit, debit}

abbrev number_name : ℕ → String
number_name n = if n == 7 then "7" else "other"

abbrev reason_name : Reason → String
reason_name r = "refused"

abbrev posted_dto : InternalTransferDto
posted_dto = record {
  source_wallet_id = 1;
  destination_wallet_id = 2;
  amount = pos 400_000;
  currency = "NGN";
  narration = none;
  reference = none;
}

abbrev transfer_post : HttpRequest InternalTransferDto
transfer_post = record {
  token = valid_token (record { sub = 7; email = "a@example.org"; kyc_tier = tier_1 });
  key = some "0123456789abcdef";
  path = "/api/v1/transfers/internal";
  request_id = none;
  body = accepted posted_dto;
}

abbrev idle_server : Server Transfer Db
idle_server = record { records = []; app = start_db; now = 1000 }

abbrev posting : HttpResponse × Server Transfer Db
posting =
    post_internal_transfer number_name reason_name seeded_schedule midnight_of transfer_post
      idle_server

-- The first request is answered by the transfer.
transfer_made : is_success posting.0 ≡ true
unfolding fits_columns post_internal_transfer route route_for authenticate handle_request
    can_activate intercept intercept_key claim execute internal_transfer validate_internal
    internal_body assert_within_daily_limit debit credit calculate charge_rule compute_base_fee
    round_mul ◌+ℤ◌ ◌-ℤ◌
transfer_made = refl

post_internal_transfer-IsMade_example :
    (IsDeclined posting.0 × (posting.1.app ≡ start_db))
    ⊎ IsMade number_name reason_name seeded_schedule midnight_of transfer_post idle_server
post_internal_transfer-IsMade_example =
    post_internal_transfer-IsMade number_name reason_name seeded_schedule midnight_of transfer_post
      idle_server two_wallets-IsKeyed

abbrev attempt : IsAttempt 7 "0123456789abcdef" transfer_post
attempt = record {
  payload = record { sub = 7; email = "a@example.org"; kyc_tier = tier_1 };
  signed = refl;
  sender = refl;
  sent = refl;
}

post_all_once_example :
    let (n, s') =
      post_all
        (route number_name reason_name tier_1 (internal_transfer seeded_schedule midnight_of))
        (transfer_post ∷ transfer_post ∷ [])
        idle_server in
    (n ≤ 1) × IsOneCall (internal_transfer seeded_schedule midnight_of) 7 start_db s'.app
post_all_once_example =
    post_all_once number_name reason_name tier_1 (internal_transfer seeded_schedule midnight_of) 7
      "0123456789abcdef" (record { nonempty = refl; long = refl })
      (transfer_post ∷ transfer_post ∷ []) idle_server (attempt, (attempt, tt))

any_char : (Char → Bool) → String → Bool
any_char test String.[] = false
any_char test (String.◌∷◌ c s) = test c || any_char test s

NoneIs-any_char : (test : Char → Bool) (s : String) → any_char test s ≡ false → NoneIs test s
unfolding any_char
NoneIs-any_char test String.[] e = tt
NoneIs-any_char test (String.◌∷◌ c s) e = (ground arith, NoneIs-any_char test s (ground arith))

parse_unique_constraint_message-detail_example :
    parse_unique_constraint_message (some "Key (email)=(a@example.org) already exists.")
    ≡ "email 'a@example.org' is already taken"
unfolding any_char
parse_unique_constraint_message-detail_example =
    parse_unique_constraint_message-detail "a@example.org"
      (refl, NoneIs-any_char is_line_end "a@example.org" refl)
      (NoneIs-any_char closes "a@example.org" refl) "email"
      (refl, NoneIs-any_char is_line_end "email" refl)

abbrev probe : RequestInfo
probe = record { method = "GET"; url = "/api/v1/health"; request_id = none }

get_health-cases_example :
    ((d : ℕ × Unit {0}) × (r : ℕ × QueueDepth) × (◌≡◌ {A = Option (ℕ × Unit {0})}
        (some (3, tt))
        (some d))
      × (◌≡◌ {A = Option (ℕ × QueueDepth)} none (some r))
      × (get_health 1000 60 probe (some (3, tt)) none ≡ inl (check 1000 60 (some (3, tt)) none)))
    ⊎ (((◌≡◌ {A = Option (ℕ × Unit {0})} (some (3, tt)) none)
          ⊎ (◌≡◌ {A = Option (ℕ × QueueDepth)} none none))
        × (get_health 1000 60 probe (some (3, tt)) none ≡ inr (unavailable 1000 probe)))
get_health-cases_example = get_health-cases 1000 60 probe (some (3, tt)) none
