-- ===== src/MockTrader/Orders.antt =====
-- `SendOrder` and `CancelOrder` of src/adapters/mock/trader/mock_trader_api.cpp. Each part that runs
-- under the mutex is a function of its own, since callbacks and other threads come in between.
use qtrade_client.Common.{
  ℕ, zero, suc, ◌+◌, ◌/◌, ◌%◌, ◌^◌, String, ◌<>◌, Bool, ◌&&◌, ◌||◌, not, is_some, Option, none,
  some, [], ◌∷◌, ◌++◌, ltb, ◌==◌, nat_Eq, if◌then◌else◌,
}
use Prim.Native.String.{slice}
use qtrade_client.Common.Int.{pos}
use qtrade_client.Common.Dict.{lookup, insert}
use qtrade_client.Sdk.{ErrorCode}
use qtrade_client.Sdk.Trader.{
  Sdk, Order, Trade, OrderRequest, CancelOrderRequest, OrderStatusType, OrderSubmitStatusType,
  status_eq,
}
use mathlib.Core.Option
use qtrade_client.MockTrader.{MockTraderApi, Handlers, call_if_set}

abbrev pub u64_mod : ℕ
u64_mod = 2 ^ 64

unfoldable pub digit : ℕ → String
digit d = slice "0123456789" d (d + 1)

unfoldable pub decimal : ℕ → ℕ → String
unfolding digit
decimal zero n = ""
decimal (suc fuel) n =
    let rest = decimal fuel (n / 10) in if ltb n 10 then digit n else rest <> digit (n % 10)

-- `std::to_string` of a `uint64_t`, which has at most 20 digits.
unfoldable pub to_string : ℕ → String
unfolding decimal
to_string n = decimal 20 n

module _ {D : Type 0} where
  -- `request.broker_order_id != 0 ? request.broker_order_id : next_broker_order_id_++`: the value,
  unfoldable pub chosen_id : OrderRequest D → MockTraderApi D → ℕ
  chosen_id r s = if not (r.broker_order_id == 0) then r.broker_order_id else s.next_broker_order_id

  -- and the counter behind it.
  unfoldable pub counter_after : OrderRequest D → MockTraderApi D → ℕ
  counter_after r s =
      if not (r.broker_order_id == 0)
      then s.next_broker_order_id
      else (s.next_broker_order_id + 1) % u64_mod

module _ {D : Type 0} ⦃sdk : Sdk D⦄ where
  -- The order that `SendOrder` builds.
  unfoldable pub new_order : OrderRequest D → ℕ → Order D
  new_order r id = record sdk.order_default {
    client_order_id = r.client_order_id;
    instrument = r.instrument;
    market = r.market;
    broker_order_id = id;
    price = r.price;
    volume = r.volume;
    left_volume = r.volume;
    side = r.side;
    position_effect = r.position_effect;
    business_type = r.business_type;
    status = OrderStatusType.not_traded_queueing;
    submit_status = OrderSubmitStatusType.insert_accepted;
  }

  -- `SendOrder` up to the end of its first critical section.
  unfoldable pub accept_order : OrderRequest D → MockTraderApi D → Order D × MockTraderApi D
  accept_order r s =
      let id = chosen_id r s in
      let order = new_order r id in
      (
        order,
        record s { next_broker_order_id = counter_after r s; orders = insert id order s.orders },
      )

  -- The trade that `SendOrder` builds.
  unfoldable pub new_trade : OrderRequest D → ℕ → String → Trade D
  new_trade r id trade_id = record sdk.trade_default {
    trade_id = trade_id;
    broker_order_id = id;
    client_order_id = r.client_order_id;
    instrument = r.instrument;
    market = r.market;
    price = r.price;
    volume = r.volume;
    trade_amount = sdk.times r.price (sdk.of_volume r.volume);
    side = r.side;
    position_effect = r.position_effect;
    business_type = r.business_type;
  }

  unfoldable pub make_trade : OrderRequest D → ℕ → MockTraderApi D → Trade D × MockTraderApi D
  unfolding new_trade
  make_trade r id s = (
    new_trade r id ("MOCK-TRADE-" <> to_string s.next_trade_id),
    record s { next_trade_id = (s.next_trade_id + 1) % u64_mod },
  )

-- Statuses in which `CancelOrder` refuses.
unfoldable pub is_final : OrderStatusType → Bool
is_final st =
    status_eq st OrderStatusType.filled
    || status_eq st OrderStatusType.canceled
    || status_eq st OrderStatusType.rejected

-- The critical section of `CancelOrder`: its error, or the cancelled order and the state behind it.
pub data Cancelled (D : Type 0) : Type 0 where
  refused : ErrorCode → Cancelled D
  done : Order D → MockTraderApi D → Cancelled D

module _ {D : Type 0} where
  -- `stored`, after the four assignments.
  unfoldable pub fill : Trade D → Order D → Order D
  fill t o = record o {
    traded_volume = o.volume;
    left_volume = pos 0;
    trade_amount = t.trade_amount;
    status = OrderStatusType.filled;
  }

  abbrev pub fill_found :
      ℕ → Trade D → MockTraderApi D → Option (Order D) → Option (MockTraderApi D)
  fill_found id t s none = none
  fill_found id t s (some o) =
      some (record s { trades = s.trades ++ (t ∷ []); orders = insert id (fill t o) s.orders })

  -- The second critical section. `none` is the `std::out_of_range` of `orders_.at`.
  unfoldable pub fill_order : ℕ → Trade D → MockTraderApi D → Option (MockTraderApi D)
  unfolding fill
  fill_order id t s = fill_found id t s (lookup id s.orders)

  unfoldable pub cancel : CancelOrderRequest → Order D → Order D
  cancel r o = record o {
    order_id = r.order_id;
    status = OrderStatusType.canceled;
    submit_status = OrderSubmitStatusType.cancel_accepted;
  }

  abbrev pub cancel_found : CancelOrderRequest → MockTraderApi D → Option (Order D) → Cancelled D
  cancel_found r s none = refused ErrorCode.not_found
  cancel_found r s (some o) =
      if is_final o.status
      then refused ErrorCode.system_error
      else done (cancel r o) (record s { orders = insert r.broker_order_id (cancel r o) s.orders })

  unfoldable pub cancel_stored : CancelOrderRequest → MockTraderApi D → Cancelled D
  unfolding is_final cancel
  cancel_stored r s = cancel_found r s (lookup r.broker_order_id s.orders)

module _ {D W : Type 0} ⦃sdk : Sdk D⦄ (h : Handlers D W) where
  unfoldable pub notify_order : Order D → MockTraderApi D → W → MockTraderApi D × W
  notify_order o s w = call_if_set (λ cb. h.on_order cb o) s.on_order s w

  unfoldable pub notify_trade : Trade D → MockTraderApi D → W → MockTraderApi D × W
  notify_trade t s w = call_if_set (λ cb. h.on_trade cb t) s.on_trade s w

  -- `SendOrder` from the test of `auto_fill_` on. `none` is an exception.
  unfoldable pub try_fill :
      OrderRequest D → ℕ → MockTraderApi D → W → Option (ErrorCode × MockTraderApi D × W)
  unfolding notify_trade
  try_fill r id s w =
      if s.auto_fill && is_some s.on_trade
      then (let (t, s₁) = make_trade r id s in
          let (s₂, w') = notify_trade t s₁ w in
          Option.map (λ s₃. (ErrorCode.success, s₃, w')) (fill_order id t s₂))
      else some (ErrorCode.success, s, w)

  unfoldable pub send_order :
      OrderRequest D → MockTraderApi D → W → Option (ErrorCode × MockTraderApi D × W)
  send_order r s w =
      if not s.connected
      then some (ErrorCode.connection_error, s, w)
      else (let (order, s₁) = accept_order r s in
          let (s₂, w₁) = notify_order order s₁ w in try_fill r order.broker_order_id s₂ w₁)

  abbrev pub end_cancel : MockTraderApi D → W → Cancelled D → ErrorCode × MockTraderApi D × W
  end_cancel s w (refused e) = (e, s, w)
  end_cancel s w (done o s') = let (s'', w') = notify_order o s' w in (ErrorCode.success, s'', w')

  unfoldable pub cancel_order :
      CancelOrderRequest → MockTraderApi D → W → ErrorCode × MockTraderApi D × W
  unfolding notify_order
  cancel_order r s w =
      if not s.connected
      then (ErrorCode.connection_error, s, w)
      else end_cancel s w (cancel_stored r s)
