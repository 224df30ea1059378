-- ===== src/MockTrader/Tests.antt =====
-- Runs of the mock trader on concrete requests, and the theorems at concrete inputs.
use qtrade_client.Common.{ℕ, true, false, some, [], ◌≡◌, inl, refl, nat_Eq, string_Eq, arith}
use mathlib.Core.Option
use qtrade_client.Common.Int.{pos, neg, ◌+ℤ◌}
use qtrade_client.Common.Dict.{lookup, insert}
use qtrade_client.Sdk.{ErrorCode}
use qtrade_client.Sdk.Trader.{
  Order, CancelOrderRequest, QueryOrdersRequest, QueryTradesRequest, Position, OrderStatusType,
  OrderSubmitStatusType, PositionDirectionType,
}
use qtrade_client.MockTrader.{MockTraderApi, Handlers, create_mock_trader_api}
use qtrade_client.MockTrader.Orders.{
  accept_order, chosen_id, send_order, cancel_order, cancel_stored, notify_order, notify_trade,
  new_order, counter_after, try_fill, make_trade, fill_order, to_string,
}
use qtrade_client.MockTrader.Queries.{query_orders, query_positions}
use qtrade_client.MockTrader.Finality.{IsFilled, Reach-IsFilled}
use qtrade_client.MockTrader.Steps.{
  Reach, here, next, accepted, IsClient, cancel_order-Reach, adjust, connects, adjusted,
}
use qtrade_client.MockTrader.Consistency.{IsConsistent, create-IsConsistent, Reach-IsConsistent}
use qtrade_client.MockTrader.Effect.{Took, send_order-Took}
use qtrade_client.MockTrader.Exceptions.{Survives, send_order-Survives}
use qtrade_client.MockTrader.Cancelling.{cancel_code, CancelEffect, cancel_order_effect}
use qtrade_client.MockTrader.Responses.{Listed}
use qtrade_client.MockTrader.Positions.Answer.{IsNet, query_positions-IsNet}
use qtrade_client.MockTrader.Reentrancy.{send_order-fills_cancelled}
use qtrade_client.MockTrader.Examples.{
  whole_prices, Log, noting, noting-IsSilent, noting-IsClient, ready, bid, ask, after,
}

-- A client whose order callback cancels the order at once.
abbrev cancelling : Handlers ℕ Log
cancelling = record {
  on_connected = λ cb s w. (s, w);
  on_order = λ cb o s w.
      let request : CancelOrderRequest = record {
        broker_order_id = o.broker_order_id;
        order_id = "cancelled";
      } in
      let (code, s', w') = cancel_order noting request s w in (s', w');
  on_trade = λ cb t s w. (s, w);
}

cancelling-IsClient : IsClient cancelling
cancelling-IsClient = record {
  on_connected = λ cb s w. here;
  on_order = λ cb o s w. cancel_order-Reach noting noting-IsClient _ s w;
  on_trade = λ cb t s w. here;
}

-- `std::to_string`
to_string_1230 : to_string 1230 ≡ "1230"
unfolding to_string
to_string_1230 = refl

abbrev bought : MockTraderApi ℕ
unfolding send_order try_fill make_trade fill_order accept_order notify_order notify_trade chosen_id
    new_order counter_after insert lookup to_string create_mock_trader_api
bought = after ready (send_order noting (bid 0 (pos 5)) ready [])

bought_status :
    Option.map (λ (o : Order ℕ). o.status) (lookup 1 bought.orders) ≡ some OrderStatusType.filled
unfolding bought
bought_status = refl

send_order-Survives_example :
    Survives true (bid 0 (pos 5)) ready (send_order cancelling (bid 0 (pos 5)) ready [])
send_order-Survives_example =
    send_order-Survives cancelling cancelling-IsClient (bid 0 (pos 5)) ready []

-- The order is filled at 10 for 5, under id 1.
send_order-Took_example :
    (s' : MockTraderApi ℕ) × (w' : Log) × (send_order noting (bid 0 (pos 5)) ready []
      ≡ some (ErrorCode.success, s', w'))
    × Took (bid 0 (pos 5)) true ready s'
send_order-Took_example = send_order-Took noting noting-IsSilent (bid 0 (pos 5)) ready [] refl

create_Reach :
    Reach create_mock_trader_api
      (accept_order (bid 0 (pos 5)) (adjust connects create_mock_trader_api)).1
create_Reach = next (next here (adjusted connects refl)) (accepted (bid 0 (pos 5)) refl)

Reach-IsConsistent_example :
    IsConsistent (accept_order (bid 0 (pos 5)) (adjust connects create_mock_trader_api)).1
Reach-IsConsistent_example = Reach-IsConsistent create_Reach create-IsConsistent

-- Order 1 is filled, and another one comes.
Reach-IsFilled_example : IsFilled (pos 5) (lookup 1 (accept_order (ask 0 (pos 2)) bought).1.orders)
unfolding bought chosen_id counter_after
Reach-IsFilled_example =
    Reach-IsFilled (pos 5) 1 {s = bought} (next here (accepted (ask 0 (pos 2)) refl))
      (tt, omega arith) (refl, refl, refl, refl)

abbrev cancel_one : CancelOrderRequest
cancel_one = record { broker_order_id = 1; order_id = "x" }

abbrev resting : MockTraderApi ℕ
unfolding accept_order new_order chosen_id counter_after insert create_mock_trader_api
resting = record (accept_order (bid 0 (pos 5)) ready).1 { auto_fill = false }

cancel_order_effect_example :
    let (e, s', w') = cancel_order noting cancel_one resting [] in
    (e ≡ cancel_code true (lookup 1 resting.orders)) × CancelEffect cancel_one e resting s'
unfolding resting
cancel_order_effect_example = cancel_order_effect noting noting-IsSilent cancel_one resting []

abbrev all_orders : QueryOrdersRequest
all_orders = record { instrument = ""; broker_order_id = 0; status = OrderStatusType.filled }

abbrev bought_order : Order ℕ
unfolding new_order
bought_order = record (new_order (bid 0 (pos 5)) 1) {
  traded_volume = pos 5;
  left_volume = pos 0;
  trade_amount = 50;
  status = OrderStatusType.filled;
}

-- The trade of `bought` is listed.
bought-Listed : Listed bought_order (query_orders all_orders bought).1
unfolding bought query_orders bought_order
bought-Listed = inl refl

abbrev all_trades : QueryTradesRequest
all_trades = record { instrument = "600000"; order_id = ""; broker_order_id = 0 }

-- Five bought and eight sold.
abbrev short_three : MockTraderApi ℕ
unfolding bought
short_three = after bought (send_order noting (ask 0 (pos 8)) bought [])

abbrev short_position : Position
short_position = record {
  instrument = "600000";
  market = 1;
  direction = PositionDirectionType.short;
  total_volume = pos 3;
}

query_positions-IsNet_example : IsNet "" short_three.trades "600000" short_position
unfolding short_three query_positions neg ◌+ℤ◌
query_positions-IsNet_example = query_positions-IsNet "" short_three short_position refl (inl refl)

abbrev cancelled_inside : MockTraderApi ℕ × Log
unfolding notify_order accept_order new_order chosen_id counter_after insert lookup cancel_order
    cancel_stored create_mock_trader_api
cancelled_inside =
    notify_order cancelling (accept_order (bid 0 (pos 5)) ready).0
      (accept_order (bid 0 (pos 5)) ready).1 []

abbrev dead_order : Order ℕ
unfolding new_order
dead_order = record (new_order (bid 0 (pos 5)) 1) {
  order_id = "cancelled";
  status = OrderStatusType.canceled;
  submit_status = OrderSubmitStatusType.cancel_accepted;
}

send_order-fills_cancelled_example :
    (s' : MockTraderApi ℕ) × (w' : Log) × (q : Order ℕ) × (send_order cancelling
        (bid 0 (pos 5))
        ready
        []
      ≡ some (ErrorCode.success, s', w'))
    × (lookup (chosen_id (bid 0 (pos 5)) ready) s'.orders ≡ some q)
    × (q.status ≡ OrderStatusType.filled)
unfolding cancelled_inside dead_order notify_trade
send_order-fills_cancelled_example =
    send_order-fills_cancelled cancelling (bid 0 (pos 5)) ready cancelled_inside.0 []
      cancelled_inside.1 dead_order refl refl refl refl refl (λ cb t u v. refl)
