-- ===== src/Bridge/RaceTests.antt =====
-- Two threads that query a bridge, while the service goes on to a newer policy or stops.
use qtrade_client.Common.{
  ℕ, String, ltb, Option, List, [], ◌∷◌, ◌++◌, arith, none, some, refl, if◌then◌else◌, true,
}
use qtrade_client.Common.Int.{pos}
use qtrade_client.Sdk.{ErrorCode, ResultDefaults, usual_defaults}
use qtrade_client.Client.{ServiceConfig, GrpcStatus, Rpc, is_unusable, deadline_from}
use qtrade_client.Client.Account as credential_client
use qtrade_client.Client.AccountRisk as client
use qtrade_client.Bridge.Convert.{
  CredentialProto, CredentialMaterial, PolicyProto, AccountRiskPolicy, to_account_risk_policy,
}
use qtrade_client.Bridge.Races.{Threads, Event, asks, settles, fresh_threads, happen, run}
use qtrade_client.Bridge.Races.Genuine.{IsGenuine, EndsWith}
use qtrade_client.Bridge.Account as account
use qtrade_client.Bridge.Account.Races as credentials
use qtrade_client.Bridge.AccountRisk.{GrpcAccountRiskBridge, create, init}
use qtrade_client.Bridge.AccountRisk.Races.{
  PolicyQuery, ask, end_query, policy_queries, policy_races-IsGenuine, policy_races_last_stays,
}

instance abbrev usual_results : ResultDefaults
usual_results = usual_defaults

abbrev unset : ServiceConfig
unset = record { enabled = true; host = ""; port = pos 0; timeout_ms = pos 0 }

abbrev local : ServiceConfig
local = record { enabled = true; host = "localhost"; port = pos 50_051; timeout_ms = pos 200 }

abbrev address : ServiceConfig → String
address cfg = cfg.host

abbrev policy : ℕ → PolicyProto
policy version = record {
  account_id = "acc";
  version = version;
  valid_until_unix_ms = 0;
  max_notional = 0;
  max_margin = 0;
  max_gross_exposure = 0;
  max_open_orders = 10;
  safety_buffer = 0;
  enabled = true;
}

-- The policy changes at time 2000.
abbrev service : Rpc String PolicyProto
service at deadline r = (GrpcStatus.ok, policy (if ltb deadline 2_000 then 3 else 4))

-- The first thread asks before the change and the second behind it.
abbrev early : PolicyQuery
early = record { now = 1_000; account_id = "acc" }

abbrev late : PolicyQuery
late = record { now = 3_000; account_id = "acc" }

abbrev both_ask : List (Event PolicyQuery)
both_ask = Event.inits ∷ asks 1 early ∷ asks 2 late ∷ []

abbrev RiskThreads : Type 0
RiskThreads = Threads GrpcAccountRiskBridge PolicyQuery PolicyProto AccountRiskPolicy

abbrev new_threads : RiskThreads
unfolding policy_queries
new_threads = fresh_threads (policy_queries address service (policy 0)) (create unset local)

abbrev reached : Option RiskThreads → RiskThreads
reached none = new_threads
reached (some s) = s

abbrev asked : RiskThreads
unfolding run happen policy_queries ask create init client.init client.create client.is_initialized
    client.get_account_risk_policy client.with_timeout is_unusable deadline_from new_threads
asked = reached (run (policy_queries address service (policy 0)) both_ask new_threads)

-- The second thread ends its query before the first.
abbrev both_end : List (Event PolicyQuery)
both_end = both_ask ++ (settles 2 ∷ settles 1 ∷ [])

policy_races-IsGenuine_example :
    IsGenuine
      (policy_queries address service (policy 0))
      (reached (run (policy_queries address service (policy 0)) both_end new_threads))
unfolding run happen policy_queries ask end_query create init client.init client.create is_unusable
    new_threads
policy_races-IsGenuine_example =
    policy_races-IsGenuine address service (policy 0) unset local both_end _ refl

-- The first thread ends its query last: the old policy stays.
policy_races_last_stays_example :
    EndsWith
      (policy_queries address service (policy 0))
      2
      1
      "acc"
      (to_account_risk_policy (policy 3))
      asked
    × EndsWith
        (policy_queries address service (policy 0))
        1
        2
        "acc"
        (to_account_risk_policy (policy 4))
        asked
unfolding asked client.code_of_query
policy_races_last_stays_example =
    policy_races_last_stays address service (policy 0) 2 1
      (record { query = late; answer = some (ErrorCode.success, policy 4) })
      (record { query = early; answer = some (ErrorCode.success, policy 3) })
      (to_account_risk_policy (policy 4)) (to_account_risk_policy (policy 3)) asked (omega arith)
      refl refl refl refl refl

abbrev secret : CredentialProto
secret = record {
  account_id = "acc";
  broker_id = "emt";
  connection_string = "tcp://x";
  password = "pw";
}

-- The account service stops at time 2000, between the two remote calls.
abbrev vault : Rpc account.GetCredentialRequest CredentialProto
vault at deadline r =
    if ltb deadline 2_000 then (GrpcStatus.ok, secret) else (GrpcStatus.failed 14, secret)

abbrev credential_at : ℕ → credentials.CredentialQuery
credential_at now = record { now = now; account_id = "acc"; engine_id = "eng" }

abbrev both_fetch : List (Event credentials.CredentialQuery)
both_fetch =
    Event.inits
    ∷ asks 1 (credential_at 1_000)
    ∷ asks 2 (credential_at 3_000)
    ∷ settles 1
    ∷ Event.shuts_down
    ∷ settles 2
    ∷ []

abbrev AccountThreads : Type 0
AccountThreads =
    Threads account.GrpcAccountBridge credentials.CredentialQuery CredentialProto CredentialMaterial

abbrev fetching : AccountThreads
unfolding credentials.credential_queries
fetching =
    fresh_threads (credentials.credential_queries address vault secret) (account.create unset local)

abbrev fetched : Option AccountThreads → AccountThreads
fetched none = fetching
fetched (some s) = s

credential_races-IsGenuine_example :
    IsGenuine
      (credentials.credential_queries address vault secret)
      (fetched (run (credentials.credential_queries address vault secret) both_fetch fetching))
unfolding run happen credentials.credential_queries credentials.ask credentials.end_query
    account.create account.init account.shutdown credential_client.init credential_client.create
    is_unusable fetching
credential_races-IsGenuine_example =
    credentials.credential_races-IsGenuine address vault secret unset local both_fetch _ refl
