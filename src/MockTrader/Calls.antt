-- ===== src/MockTrader/Calls.antt =====
-- What a client of src/adapters/mock/trader/mock_trader_api.cpp calls, one call after the other, and what
-- it gets back: the operations that change the trader, and its synchronous queries.
use qtrade_client.Common.{ℕ, String, Bool, Option, none, some, List, [], ◌∷◌}
use mathlib.Core.Option
use qtrade_client.Common.Int.{ℤ}
use qtrade_client.Sdk.{ErrorCode}
use qtrade_client.Sdk.Trader.{
  Sdk, Order, Trade, Position, Asset, OrderRequest, CancelOrderRequest, ConnectRequest,
  QueryOrdersRequest, QueryTradesRequest,
}
use qtrade_client.MockTrader.{
  MockTraderApi, Handlers, register_spi, unregister_spi, connect, disconnect, is_connected, login,
  logout, set_order_callback, set_trade_callback, set_auto_fill,
}
use qtrade_client.MockTrader.Orders.{send_order, cancel_order}
use qtrade_client.MockTrader.Queries.{query_orders, query_trades, query_positions, query_asset}

pub data Call (D : Type 0) : Type 0 where
  registers_spi : ℕ → Call D
  unregisters_spi disconnects logs_in asks_connected : Call D
  connects : ConnectRequest → Call D
  logs_out : ℕ → Call D
  sets_order_callback sets_trade_callback : Option ℕ → Call D
  sets_auto_fill : Bool → Call D
  sends : OrderRequest D → Call D
  cancels : CancelOrderRequest → Call D
  asks_orders : QueryOrdersRequest → Call D
  asks_trades : QueryTradesRequest → Call D
  asks_positions asks_asset : String → Call D

pub data Reply (D : Type 0) : Type 0 where
  nothing : Reply D
  answer : Bool → Reply D
  code : ErrorCode → Reply D
  session : ℕ → Reply D
  number : ℤ → Reply D
  orders : ErrorCode → List (Order D) → Reply D
  trades : ErrorCode → List (Trade D) → Reply D
  positions : ErrorCode → List Position → Reply D
  asset : ErrorCode → Asset D → Reply D

-- An exception ends the client.
infixl 5 ◌>>=◌
abbrev pub ◌>>=◌ : {A B : Type 0} → Option A → (A → Option B) → Option B
none >>= f = none
some a >>= f = f a

module _ {D W : Type 0} ⦃sdk : Sdk D⦄ (h : Handlers D W) where
  -- One call. `none` is an exception.
  unfoldable pub perform : Call D → MockTraderApi D → W → Option (Reply D × MockTraderApi D × W)
  perform (registers_spi t) s w = some (nothing, register_spi t s, w)
  perform unregisters_spi s w = some (nothing, unregister_spi s, w)
  perform disconnects s w = some (nothing, disconnect s, w)
  perform asks_connected s w = some (answer (is_connected s), s, w)
  perform logs_in s w = let (n, s', w') = login h s w in some (session n, s', w')
  perform (connects r) s w = let (e, s', w') = connect h r s w in some (code e, s', w')
  perform (logs_out n) s w = let (z, s') = logout n s in some (number z, s', w)
  perform (sets_order_callback cb) s w = some (nothing, set_order_callback cb s, w)
  perform (sets_trade_callback cb) s w = some (nothing, set_trade_callback cb s, w)
  perform (sets_auto_fill b) s w = some (nothing, set_auto_fill b s, w)
  perform (sends r) s w = Option.map (λ (e, s', w'). (code e, s', w')) (send_order h r s w)
  perform (cancels r) s w = let (e, s', w') = cancel_order h r s w in some (code e, s', w')
  perform (asks_orders r) s w = let (e, os) = query_orders r s in some (orders e os, s, w)
  perform (asks_trades r) s w = let (e, ts) = query_trades r s in some (trades e ts, s, w)
  perform (asks_positions i) s w = let (e, ps) = query_positions i s in some (positions e ps, s, w)
  perform (asks_asset a) s w = let (e, x) = query_asset a s in some (asset e x, s, w)

  -- The calls of a client in turn, with what they return.
  unfoldable pub perform_all :
      List (Call D) → MockTraderApi D → W → Option (List (Reply D) × MockTraderApi D × W)
  unfolding perform
  perform_all [] s w = some ([], s, w)
  perform_all (c ∷ cs) s w = do
    (r, s₁, w₁) ← perform c s w
    (rs, s₂, w₂) ← perform_all cs s₁ w₁
    some (r ∷ rs, s₂, w₂)
