-- ===== src/MockQuote/Examples.antt =====
-- The prices of the runs of the mock quotes: natural numbers.
use qtrade_client.Common.{ℕ, ◌+◌, ◌-◌, ◌*◌}
use qtrade_client.Sdk.Quote.{QuoteSdk}

instance abbrev pub whole_numbers : QuoteSdk ℕ
whole_numbers = record {
  plus = ◌+◌;
  minus = ◌-◌;
  times = ◌*◌;
  of_ℕ = λ n. n;
  half = 1;
  fifth = 1;
  default_order_book_depth = 5;
}
