-- ===== src/Emt/Trader/Requests.antt =====
-- src/adapters/emt/trader/emt_trader_api.cpp: the requests that answer with a number and do nothing.
-- `ask_orders`, `ask_trades` and `ask_asset` are the overloads of QueryOrders, QueryTrades and QueryAsset
-- with a session, and `cancel_by_id` is that of CancelOrder.
use qtrade_client.Common.{ℕ, String, Bool, false}
use qtrade_client.Common.Int.{ℤ, negsuc}
use qtrade_client.Sdk.Trader.{OrderRequest, QueryOrdersRequest, QueryTradesRequest}
use qtrade_client.Emt.Trader.{EmtTraderApi}

unfoldable pub set_cpu_affinity : (thread1 thread2 : ℤ) → EmtTraderApi → EmtTraderApi
set_cpu_affinity thread1 thread2 s = s

unfoldable pub get_err_msg_by_code : (error_code : ℤ) (session_id : ℕ) → EmtTraderApi → String
get_err_msg_by_code error_code session_id s = ""

unfoldable pub release : EmtTraderApi → EmtTraderApi
release s = s

unfoldable pub get_trading_day : EmtTraderApi → String
get_trading_day s = s.trading_day

unfoldable pub get_api_version : EmtTraderApi → String
get_api_version s = s.api_version

unfoldable pub get_client_id_by_broker_order_id : ℕ → EmtTraderApi → ℕ
get_client_id_by_broker_order_id broker_order_id s = 0

unfoldable pub get_account_by_broker_order_id : ℕ → EmtTraderApi → String
get_account_by_broker_order_id broker_order_id s = s.account_id

unfoldable pub subscribe_public_topic : (resume_type : ℕ) → EmtTraderApi → EmtTraderApi
subscribe_public_topic resume_type s = s

unfoldable pub set_heart_beat_interval : (interval : ℕ) → EmtTraderApi → EmtTraderApi
set_heart_beat_interval interval s = s

unfoldable pub disconnect : EmtTraderApi → EmtTraderApi
disconnect s = s

-- `sock_type` and `terminal_info` are of types of the SDK.
unfoldable pub login :
    {P T : Type 0} (ip : String) (port : ℤ) (user password : String) (sock_type : P)
    (local_ip : String) (terminal_info : T)
    → EmtTraderApi
    → ℕ
login ip port user password sock_type local_ip terminal_info s = 0

unfoldable pub logout : (session_id : ℕ) → EmtTraderApi → ℤ
logout session_id s = negsuc 0

unfoldable pub is_server_restart : (session_id : ℕ) → EmtTraderApi → Bool
is_server_restart session_id s = false

unfoldable pub insert_order : {D : Type 0} → OrderRequest D → (session_id : ℕ) → EmtTraderApi → ℕ
insert_order order session_id s = order.broker_order_id

unfoldable pub cancel_by_id : (broker_order_id session_id : ℕ) → EmtTraderApi → ℕ
cancel_by_id broker_order_id session_id s = 0

unfoldable pub query_order_by_broker_order_id :
    (broker_order_id session_id : ℕ) (request_id : ℤ) → EmtTraderApi → ℤ
query_order_by_broker_order_id broker_order_id session_id request_id s = negsuc 0

unfoldable pub ask_orders :
    (param : QueryOrdersRequest) (session_id : ℕ) (request_id : ℤ) → EmtTraderApi → ℤ
ask_orders param session_id request_id s = negsuc 0

unfoldable pub query_unfinished_orders : (session_id : ℕ) (request_id : ℤ) → EmtTraderApi → ℤ
query_unfinished_orders session_id request_id s = negsuc 0

unfoldable pub query_orders_by_page :
    {R : Type 0} (param : R) (session_id : ℕ) (request_id : ℤ) → EmtTraderApi → ℤ
query_orders_by_page param session_id request_id s = negsuc 0

unfoldable pub query_trades_by_broker_order_id :
    (broker_order_id session_id : ℕ) (request_id : ℤ) → EmtTraderApi → ℤ
query_trades_by_broker_order_id broker_order_id session_id request_id s = negsuc 0

unfoldable pub ask_trades :
    (param : QueryTradesRequest) (session_id : ℕ) (request_id : ℤ) → EmtTraderApi → ℤ
ask_trades param session_id request_id s = negsuc 0

unfoldable pub query_position :
    (ticker : String) (session_id : ℕ) (request_id : ℤ) (market : ℕ) → EmtTraderApi → ℤ
query_position ticker session_id request_id market s = negsuc 0

unfoldable pub ask_asset : (session_id : ℕ) (request_id : ℤ) → EmtTraderApi → ℤ
ask_asset session_id request_id s = negsuc 0

unfoldable pub query_other_server_fund :
    {R : Type 0} (param : R) (session_id : ℕ) (request_id : ℤ) → EmtTraderApi → ℤ
query_other_server_fund param session_id request_id s = negsuc 0

unfoldable pub query_credit_quota_transfer :
    {R : Type 0} (param : R) (session_id : ℕ) (request_id : ℤ) → EmtTraderApi → ℤ
query_credit_quota_transfer param session_id request_id s = negsuc 0

unfoldable pub query_fund_transfer :
    {R : Type 0} (param : R) (session_id : ℕ) (request_id : ℤ) → EmtTraderApi → ℤ
query_fund_transfer param session_id request_id s = negsuc 0

unfoldable pub fund_transfer : {R : Type 0} (request : R) (session_id : ℕ) → EmtTraderApi → ℕ
fund_transfer request session_id s = 0

unfoldable pub credit_quota_transfer :
    {R : Type 0} (request : R) (session_id : ℕ) → EmtTraderApi → ℕ
credit_quota_transfer request session_id s = 0
