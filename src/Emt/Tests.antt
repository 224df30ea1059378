-- ===== src/Emt/Tests.antt =====
-- Runs of the EMT adapters and of their factory.
use qtrade_client.Common.{String, some, [], ◌∷◌, ◌≡◌, ◌≢◌, refl}
use qtrade_client.MockTrader.Examples.{whole_prices}
use qtrade_client.Sdk.{ErrorCode, Result}
use qtrade_client.Sdk.Quote.{ConnectRequest}
use qtrade_client.Bridge.Convert.{CredentialMaterial}
use qtrade_client.Emt.Quote.{
  Holds, connect, run, create_emt_quote_api, connects, registers_spi, disconnects,
  emt_quote_sessions,
}
use qtrade_client.Emt.Factory.{
  IsUsable, IsBundle, emt_bundle, create_emt_adapters, create_emt_adapters_sound,
}

abbrev blank : ConnectRequest
blank = record { name = ""; connection_string = ""; user = ""; password = "" }

abbrev venue : ConnectRequest
venue = record { name = "emt"; connection_string = "tcp://x"; user = "acc"; password = "pw" }

-- The first `Connect` is answered not supported and opens the session; the second is answered success.
emt_quote_sessions_example :
    let s =
      run
        (registers_spi 7 ∷ connects blank ∷ disconnects ∷ connects venue ∷ [])
        (create_emt_quote_api blank) in
    Holds s (some venue) × ((connect blank s).0 ≡ ErrorCode.success)
emt_quote_sessions_example =
    emt_quote_sessions blank blank
      (registers_spi 7 ∷ connects blank ∷ disconnects ∷ connects venue ∷ [])

abbrev credential : CredentialMaterial
credential = record {
  account_id = "acc";
  broker_id = "emt";
  connection_string = "tcp://x";
  password = "pw";
}

abbrev bridge : String → String → Result CredentialMaterial
bridge account_id engine_id = record {
  error_code = ErrorCode.success;
  error_message = "";
  value = some credential;
}

create_emt_adapters_sound_example :
    (◌≢◌ {A = String} "acc" "")
    × (◌≢◌ {A = String} "quotes" "")
    × Path ErrorCode ErrorCode.success ErrorCode.success
    × ((c : CredentialMaterial) × (some credential ≡ some c)
        × IsUsable "acc" c
        × IsBundle "quotes" c (emt_bundle "quotes" credential))
unfolding create_emt_adapters
create_emt_adapters_sound_example =
    create_emt_adapters_sound bridge "eng" "acc" "quotes" (emt_bundle "quotes" credential) refl
