-- ===== src/Bridge/Cache.antt =====
-- What GetCredential and GetAccountRiskPolicy of the bridges share: the fall back on the last value that the
-- service sent, and the contract that both implement.
use qtrade_client.Common.{
  String, Option, none, some, ◌≡◌, refl, string_Eq, ◌==◌, if◌then◌else◌, Bool-cases, inl, inr,
}
use qtrade_client.Sdk.{ErrorCode, Result, ResultDefaults, fresh_result, is_success}

-- What became of the remote call of a query.
pub data Outcome (A : Type 0) : Type 0 where
  offline failed refused : Outcome A
  received : A → Outcome A

module _ {A : Type 0} ⦃d : ResultDefaults⦄ where
  -- The end of both functions, from `cache_.find` on.
  unfoldable pub fall_back : String → Option A → Result A → Result A
  fall_back missing none result =
      if is_success result.error_code
      then record result { error_code = ErrorCode.not_initialized; error_message = missing }
      else result
  fall_back missing (some a) result = record result {
    error_code = ErrorCode.success;
    error_message = "";
    value = some a;
  }

  -- What the query then owes, if `known` is the last value that was received for its account: a new value
  -- and a refusal are passed on; else the known value counts as a success, and without one the cause is
  -- reported. `refused` and its message are those of a missing entry.
  abbrev pub owed : (missing broken denied : String) → Outcome A → Option A → Result A
  owed missing broken denied (received a) known = record {
    error_code = ErrorCode.success;
    error_message = d.error_message;
    value = some a;
  }
  owed missing broken denied refused known = record {
    error_code = ErrorCode.not_found;
    error_message = denied;
    value = none;
  }
  owed missing broken denied offline (some a) = record {
    error_code = ErrorCode.success;
    error_message = "";
    value = some a;
  }
  owed missing broken denied failed (some a) = record {
    error_code = ErrorCode.success;
    error_message = "";
    value = some a;
  }
  owed missing broken denied offline none = record {
    error_code = ErrorCode.not_initialized;
    error_message = missing;
    value = none;
  }
  owed missing broken denied failed none = record {
    error_code = ErrorCode.timeout;
    error_message = broken;
    value = none;
  }

  -- Only a received value changes what is known, and only for its account.
  abbrev pub learn : String → Outcome A → (String → Option A) → String → Option A
  learn account (received a) known other = if account == other then some a else known other
  learn account _ known other = known other

  pub fall_back-offline :
      (missing broken denied : String) (known : Option A)
      → fall_back missing known fresh_result ≡ owed missing broken denied offline known
  unfolding fall_back
  fall_back-offline missing broken denied none = simp d.error_code-eq-success
  fall_back-offline missing broken denied (some a) = refl

  pub fall_back-failed :
      (missing broken denied : String) (known : Option A)
      → fall_back missing known
          (record (fresh_result {A = A}) { error_code = ErrorCode.timeout; error_message = broken })
        ≡ owed missing broken denied failed known
  unfolding fall_back
  fall_back-failed missing broken denied none = refl
  fall_back-failed missing broken denied (some a) = refl

  -- An answer without a value gives way to the known value.
  pub fall_back-value :
      (missing : String) (known : Option A) (result : Result A)
      → result.value ≡ none
      → (fall_back missing known result).value ≡ known
  unfolding fall_back
  fall_back-value missing none result e = elim (Bool-cases (is_success result.error_code)) [
    | inl q ↦ simp q e
    | inr q ↦ simp q e
  ]
  fall_back-value missing (some p) result e = refl
