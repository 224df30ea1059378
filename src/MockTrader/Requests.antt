-- ===== src/MockTrader/Requests.antt =====
-- src/adapters/mock/trader/mock_trader_api.cpp: the requests that answer with a number and do nothing.
-- `ask_orders`, `ask_trades` and `ask_asset` are the overloads of QueryOrders, QueryTrades and QueryAsset
-- with a session, and `cancel_by_id` is that of CancelOrder.
use qtrade_client.Common.{ℕ, String}
use qtrade_client.Common.Int.{ℤ, negsuc}
use qtrade_client.Sdk.Trader.{OrderRequest, QueryOrdersRequest, QueryTradesRequest}
use qtrade_client.MockTrader.{MockTraderApi}

module _ {D : Type 0} where
  unfoldable pub set_cpu_affinity : (thread1 thread2 : ℤ) → MockTraderApi D → MockTraderApi D
  set_cpu_affinity thread1 thread2 s = s

  unfoldable pub get_err_msg_by_code : (error_code : ℤ) (session_id : ℕ) → MockTraderApi D → String
  get_err_msg_by_code error_code session_id s = ""

  unfoldable pub subscribe_public_topic : (resume_type : ℕ) → MockTraderApi D → MockTraderApi D
  subscribe_public_topic resume_type s = s

  unfoldable pub set_heart_beat_interval : (interval : ℕ) → MockTraderApi D → MockTraderApi D
  set_heart_beat_interval interval s = s

  unfoldable pub query_order_by_broker_order_id :
      (broker_order_id session_id : ℕ) (request_id : ℤ) → MockTraderApi D → ℤ
  query_order_by_broker_order_id broker_order_id session_id request_id s = negsuc 0

  unfoldable pub ask_orders :
      (param : QueryOrdersRequest) (session_id : ℕ) (request_id : ℤ) → MockTraderApi D → ℤ
  ask_orders param session_id request_id s = negsuc 0

  unfoldable pub query_unfinished_orders : (session_id : ℕ) (request_id : ℤ) → MockTraderApi D → ℤ
  query_unfinished_orders session_id request_id s = negsuc 0

  unfoldable pub query_orders_by_page :
      {R : Type 0} (param : R) (session_id : ℕ) (request_id : ℤ) → MockTraderApi D → ℤ
  query_orders_by_page param session_id request_id s = negsuc 0

  unfoldable pub query_trades_by_broker_order_id :
      (broker_order_id session_id : ℕ) (request_id : ℤ) → MockTraderApi D → ℤ
  query_trades_by_broker_order_id broker_order_id session_id request_id s = negsuc 0

  unfoldable pub ask_trades :
      (param : QueryTradesRequest) (session_id : ℕ) (request_id : ℤ) → MockTraderApi D → ℤ
  ask_trades param session_id request_id s = negsuc 0

  unfoldable pub query_position :
      (ticker : String) (session_id : ℕ) (request_id : ℤ) (market : ℕ) → MockTraderApi D → ℤ
  query_position ticker session_id request_id market s = negsuc 0

  unfoldable pub ask_asset : (session_id : ℕ) (request_id : ℤ) → MockTraderApi D → ℤ
  ask_asset session_id request_id s = negsuc 0

  unfoldable pub query_other_server_fund :
      {R : Type 0} (param : R) (session_id : ℕ) (request_id : ℤ) → MockTraderApi D → ℤ
  query_other_server_fund param session_id request_id s = negsuc 0

  unfoldable pub query_credit_quota_transfer :
      {R : Type 0} (param : R) (session_id : ℕ) (request_id : ℤ) → MockTraderApi D → ℤ
  query_credit_quota_transfer param session_id request_id s = negsuc 0

  unfoldable pub query_fund_transfer :
      {R : Type 0} (param : R) (session_id : ℕ) (request_id : ℤ) → MockTraderApi D → ℤ
  query_fund_transfer param session_id request_id s = negsuc 0

  unfoldable pub fund_transfer : {R : Type 0} (request : R) (session_id : ℕ) → MockTraderApi D → ℕ
  fund_transfer request session_id s = 0

  unfoldable pub credit_quota_transfer :
      {R : Type 0} (request : R) (session_id : ℕ) → MockTraderApi D → ℕ
  credit_quota_transfer request session_id s = 0

  unfoldable pub insert_order : OrderRequest D → (session_id : ℕ) → MockTraderApi D → ℕ
  insert_order order session_id s = order.broker_order_id

  unfoldable pub cancel_by_id : (broker_order_id session_id : ℕ) → MockTraderApi D → ℕ
  cancel_by_id broker_order_id session_id s = 0
