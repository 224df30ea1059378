-- ===== src/Sdk/Quote.antt =====
-- The structures of `qtrade/sdk/quote` that the adapters use.
use qtrade_client.Common.{ℕ, String, List}

pub record ConnectRequest : Type 0 where
  pub name : String
  pub connection_string : String
  pub user : String
  pub password : String

-- The operations on `double` that the mock quotes use, and `kDefaultOrderBookDepth`.
pub record QuoteSdk (D : Type 0) : Type 0 where
  pub plus : D → D → D
  pub minus : D → D → D
  pub times : D → D → D
  pub of_ℕ : ℕ → D
  pub half : D
  pub fifth : D
  pub default_order_book_depth : ℕ

-- `MarketTick`: the fields that the mock writes. The four arrays hold one entry for each level.
pub record MarketTick (D : Type 0) : Type 0 where
  pub instrument : String
  pub data_time : ℕ
  pub last_price : D
  pub bid_price : List D
  pub bid_volume : List ℕ
  pub ask_price : List D
  pub ask_volume : List ℕ
  pub volume : ℕ
  pub turnover : D
  pub avg_price : D
  pub open_interest : ℕ
  pub open_price : D
  pub high_price : D
  pub low_price : D
  pub pre_close_price : D
