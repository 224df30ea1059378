-- ===== src/Emt/Factory.antt =====
-- src/adapters/emt/emt_adapter_factory.{hpp,cpp} and src/adapters/mock/mock_adapter_factory.{hpp,cpp}: the
-- requests with which the adapters connect later.
use qtrade_client.Common.{
  String, true, not, ◌||◌, Option, none, some, ◌≡◌, ◌≢◌, refl, sym, subst, arith, string_Eq, ◌==◌,
  is_empty, if◌then◌else◌, Bool-cases, inl, inr,
}
use mathlib.Core.Option.{some-injective}
use text.Mathlib.TextEquality.{eq_iff}
use qtrade_client.Sdk.{ErrorCode, Result, is_success}
use qtrade_client.Sdk.Quote as quote
use qtrade_client.Sdk.Trader as trader
use qtrade_client.Bridge.Convert.{CredentialMaterial}

-- The two requests of `EmtAdapterBundle` and of `MockAdapterBundle`. The adapters beside them are new ones.
pub record AdapterBundle : Type 0 where
  pub quote_request : quote.ConnectRequest
  pub trader_request : trader.ConnectRequest

-- The bundle from a credential that passed the tests.
unfoldable pub emt_bundle : String → CredentialMaterial → AdapterBundle
emt_bundle quote_connection_string credential = record {
  trader_request = record {
    broker_id = credential.broker_id;
    account_id = credential.account_id;
    connection_string = credential.connection_string;
    password = credential.password;
  };
  quote_request = record {
    name = "emt";
    connection_string = quote_connection_string;
    user = credential.account_id;
    password = credential.password;
  };
}

-- `CreateEmtAdapters` from the test of `credential_result.data` on.
abbrev pub with_credential :
    String → String → ErrorCode → Option CredentialMaterial → ErrorCode × Option AdapterBundle
with_credential account_id quote_connection_string rc none = (rc, none)
with_credential account_id quote_connection_string rc (some credential) =
    if not (credential.account_id == account_id)
      || is_empty credential.connection_string
      || is_empty credential.password
    then (ErrorCode.internal_error, none)
    else (ErrorCode.success, some (emt_bundle quote_connection_string credential))

-- `out_error` is the first component; `get_credential` is `GetCredential` of the account bridge.
unfoldable pub create_emt_adapters :
    (String → String → Result CredentialMaterial)
    → String
    → String
    → String
    → ErrorCode × Option AdapterBundle
unfolding emt_bundle
create_emt_adapters get_credential engine_id account_id quote_connection_string =
    if is_empty account_id || is_empty quote_connection_string
    then (ErrorCode.internal_error, none)
    else if not (is_success (get_credential account_id engine_id).error_code)
    then ((get_credential account_id engine_id).error_code, none)
    else with_credential account_id quote_connection_string
        (get_credential account_id engine_id).error_code (get_credential account_id engine_id).value

-- `blank_quote` and `blank_trader` are the default requests.
unfoldable pub create_mock_adapters :
    quote.ConnectRequest → trader.ConnectRequest → String → String → AdapterBundle
create_mock_adapters blank_quote blank_trader quote_connection_string account_id = record {
  quote_request = record blank_quote { name = "mock"; connection_string = quote_connection_string };
  trader_request = record blank_trader {
    broker_id = "mock";
    account_id = account_id;
    connection_string = quote_connection_string;
  };
}

-- The credential allows an account to trade.
abbrev pub IsUsable : String → CredentialMaterial → Type 0
IsUsable account_id c = (c.account_id ≡ account_id) × (c.connection_string ≢ "") × (c.password ≢ "")

-- The two requests are filled from the credential and from the address of the quotes.
pub record IsBundle (conn : String) (c : CredentialMaterial) (bundle : AdapterBundle) : Type 0 where
  pub broker_id : bundle.trader_request.broker_id ≡ c.broker_id
  pub account_id : bundle.trader_request.account_id ≡ c.account_id
  pub trader_connection_string : bundle.trader_request.connection_string ≡ c.connection_string
  pub trader_password : bundle.trader_request.password ≡ c.password
  pub name : bundle.quote_request.name ≡ "emt"
  pub quote_connection_string : bundle.quote_request.connection_string ≡ conn
  pub user : bundle.quote_request.user ≡ c.account_id
  pub quote_password : bundle.quote_request.password ≡ c.password

emt_bundle-IsBundle : (conn : String) (c : CredentialMaterial) → IsBundle conn c (emt_bundle conn c)
unfolding emt_bundle
emt_bundle-IsBundle conn c = record {
  broker_id = refl;
  account_id = refl;
  trader_connection_string = refl;
  trader_password = refl;
  name = refl;
  quote_connection_string = refl;
  user = refl;
  quote_password = refl;
}

is_success-true : (rc : ErrorCode) → is_success rc ≡ true → rc ≡ ErrorCode.success
is_success-true ErrorCode.success e = refl
is_success-true ErrorCode.connection_error e = cc
is_success-true ErrorCode.not_found e = cc
is_success-true ErrorCode.system_error e = cc
is_success-true ErrorCode.not_supported e = cc
is_success-true ErrorCode.internal_error e = cc
is_success-true ErrorCode.not_initialized e = cc
is_success-true ErrorCode.timeout e = cc
is_success-true ErrorCode.invalid_argument e = cc
is_success-true (ErrorCode.other n) e = cc

with_credential_sound :
    (account_id conn : String) (rc : ErrorCode) (value : Option CredentialMaterial)
    (bundle : AdapterBundle)
    → (with_credential account_id conn rc value).1 ≡ some bundle
    → (c : CredentialMaterial) × (value ≡ some c) × IsUsable account_id c × IsBundle conn c bundle
with_credential_sound account_id conn rc none bundle e = cc
with_credential_sound account_id conn rc (some c) bundle e =
    let facts : (c.account_id ≡ account_id)
        × (c.connection_string ≢ "")
        × (c.password ≢ "")
        × (some bundle ≡ some (emt_bundle conn c)) =
      ground (
        arith,
        eq_iff c.account_id account_id,
        eq_iff c.connection_string "",
        eq_iff c.password "",
      ) in
    (
      c,
      refl,
      (facts.0, facts.1, facts.2),
      subst (IsBundle conn c) (sym (some-injective _ _ facts.3)) (emt_bundle-IsBundle conn c),
    )

-- If the factory makes a bundle, the account and the quote address are not empty, the bridge answered success
-- with a credential of that very account whose address and password are not empty, and both requests are
-- filled from it and from the quote address.
pub create_emt_adapters_sound :
    (get_credential : String → String → Result CredentialMaterial)
    (engine_id account_id conn : String) (bundle : AdapterBundle)
    → (create_emt_adapters get_credential engine_id account_id conn).1 ≡ some bundle
    → (account_id ≢ "")
      × (conn ≢ "")
      × ((get_credential account_id engine_id).error_code ≡ ErrorCode.success)
      × ((c : CredentialMaterial) × ((get_credential account_id engine_id).value ≡ some c)
          × IsUsable account_id c
          × IsBundle conn c bundle)
unfolding create_emt_adapters
create_emt_adapters_sound get_credential engine_id account_id conn bundle e =
    elim (Bool-cases (is_empty account_id)) [
      | inl q ↦ cc (simp q at e)
      | inr q ↦ elim (Bool-cases (is_empty conn)) [
        | inl q' ↦ cc (simp (q, q') at e)
        | inr q' ↦ elim (Bool-cases (is_success (get_credential account_id engine_id).error_code)) [
          | inl ok ↦ (
            λ h. cc (simp h at q),
            λ h. cc (simp h at q'),
            is_success-true _ ok,
            with_credential_sound account_id conn _ _ bundle (simp (q, q', ok) at e),
          )
          | inr bad ↦ cc (simp (q, q', bad) at e)
        ]
      ]
    ]
