-- ===== src/Sdk.antt =====
-- What the source uses of the installed headers of qtrade (`qtrade/error_code`, `qtrade/structs`,
-- `qtrade/sdk`): the enumerators that it names, with `other` for the rest, and the fields that it reads
-- or writes. Values that those headers choose are parameters of the definitions that use them.
pub mod Trader
pub mod Quote
use qtrade_client.Common.{ℕ, ◌≡◌, String, Option, none, Bool, true, false, ◌↔◌, refl, arith, KeyEq}

-- `qtrade::ErrorCode`
pub data ErrorCode : Type 0 where
  success connection_error not_found system_error not_supported : ErrorCode
  internal_error not_initialized timeout invalid_argument : ErrorCode
  other : ℕ → ErrorCode

-- `code == ErrorCode::kSuccess`
abbrev pub is_success : ErrorCode → Bool
is_success ErrorCode.success = true
is_success _ = false

-- `code == ErrorCode::kNotFound`
abbrev pub is_not_found : ErrorCode → Bool
is_not_found ErrorCode.not_found = true
is_not_found _ = false

-- `qtrade::Result<T>`
pub record Result {ℓ} (A : Type ℓ) : Type ℓ where
  pub error_code : ErrorCode
  pub error_message : String
  pub value : Option A

-- The member initialisers of `Result`, which stand in a header that is not in the repository. The code
-- takes a `Result` that it has not touched for a success.
pub record ResultDefaults : Type 0 where
  pub error_code : ErrorCode
  pub error_message : String
  pub error_code-eq-success : error_code ≡ ErrorCode.success

-- `Result<T> result;`
abbrev pub fresh_result {ℓ} : {A : Type ℓ} ⦃d : ResultDefaults⦄ → Result A
fresh_result ⦃d⦄ = record {
  error_code = d.error_code;
  error_message = d.error_message;
  value = none;
}

abbrev pub usual_defaults : ResultDefaults
usual_defaults = record {
  error_code = ErrorCode.success;
  error_message = "";
  error_code-eq-success = refl;
}
