-- ===== src/Sdk/Trader.antt =====
-- The structures of `qtrade/sdk/trader` that the mock trader fills. Prices and amounts are of a type `D`
-- that stands for `double`; enumerations that the code only copies are their numbers.
use qtrade_client.Common.{ℕ, ◌≡◌, String, Bool, true, false, ◌↔◌, arith, KeyEq, nat_eq}
use qtrade_client.Common.Int.{ℤ}

pub data OrderStatusType : Type 0 where
  unknown not_traded_queueing filled canceled rejected : OrderStatusType
  other : ℕ → OrderStatusType

pub data OrderSubmitStatusType : Type 0 where
  insert_accepted cancel_accepted : OrderSubmitStatusType
  other : ℕ → OrderSubmitStatusType

pub data SideType : Type 0 where
  buy : SideType
  other : ℕ → SideType

pub data PositionDirectionType : Type 0 where
  net long short : PositionDirectionType
  other : ℕ → PositionDirectionType

abbrev pub status_eq : OrderStatusType → OrderStatusType → Bool
status_eq unknown unknown = true
status_eq not_traded_queueing not_traded_queueing = true
status_eq filled filled = true
status_eq canceled canceled = true
status_eq rejected rejected = true
status_eq (OrderStatusType.other m) (OrderStatusType.other n) = nat_eq m n
status_eq _ _ = false

pub status_eq_iff : (a b : OrderStatusType) → (status_eq a b ≡ true) ↔ (a ≡ b)
status_eq_iff a b = ground arith

instance abbrev pub status_Eq : KeyEq OrderStatusType
status_Eq = record { equals = status_eq; equals_iff = status_eq_iff }

pub record OrderRequest (D : Type 0) : Type 0 where
  pub client_order_id : String
  pub instrument : String
  pub market : ℕ
  pub broker_order_id : ℕ
  pub price : D
  pub volume : ℤ
  pub side : SideType
  pub position_effect : ℕ
  pub business_type : ℕ

pub record Order (D : Type 0) : Type 0 where
  pub order_id : String
  pub client_order_id : String
  pub instrument : String
  pub market : ℕ
  pub broker_order_id : ℕ
  pub price : D
  pub volume : ℤ
  pub traded_volume : ℤ
  pub left_volume : ℤ
  pub trade_amount : D
  pub side : SideType
  pub position_effect : ℕ
  pub business_type : ℕ
  pub status : OrderStatusType
  pub submit_status : OrderSubmitStatusType

pub record Trade (D : Type 0) : Type 0 where
  pub trade_id : String
  pub order_id : String
  pub broker_order_id : ℕ
  pub client_order_id : String
  pub instrument : String
  pub market : ℕ
  pub price : D
  pub volume : ℤ
  pub trade_amount : D
  pub side : SideType
  pub position_effect : ℕ
  pub business_type : ℕ

pub record CancelOrderRequest : Type 0 where
  pub broker_order_id : ℕ
  pub order_id : String

pub record QueryOrdersRequest : Type 0 where
  pub instrument : String
  pub broker_order_id : ℕ
  pub status : OrderStatusType

pub record QueryTradesRequest : Type 0 where
  pub instrument : String
  pub order_id : String
  pub broker_order_id : ℕ

pub record Position : Type 0 where
  pub instrument : String
  pub market : ℕ
  pub direction : PositionDirectionType
  pub total_volume : ℤ

pub record Asset (D : Type 0) : Type 0 where
  pub account_id : String
  pub total_asset : D
  pub buying_power : D

pub record ConnectRequest : Type 0 where
  pub broker_id : String
  pub account_id : String
  pub connection_string : String
  pub password : String

-- The operations on `double` that the mock trader uses, and the values of the SDK's structures before
-- the code assigns to them.
pub record Sdk (D : Type 0) : Type 0 where
  pub times : D → D → D
  pub of_volume : ℤ → D
  pub million : D
  pub order_default : Order D
  pub trade_default : Trade D
  pub position_default : Position
  pub asset_default : Asset D
  pub connect_request_default : ConnectRequest
