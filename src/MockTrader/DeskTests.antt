-- ===== src/MockTrader/DeskTests.antt =====
-- A run of the mock trader against its desk, and the bounds of its positions, at concrete inputs.
use qtrade_client.Common.{
  ℕ, true, false, some, List, [], ◌∷◌, ◌≤◌, ◌≡◌, refl, inl, string_Eq, nat_Eq, arith,
}
use qtrade_client.Common.Int.{pos, abs, neg, ◌+ℤ◌}
use qtrade_client.Common.Dict.{insert, lookup}
use qtrade_client.Sdk.Trader.{
  CancelOrderRequest, QueryOrdersRequest, OrderStatusType, ConnectRequest, Trade, Position,
  SideType, PositionDirectionType,
}
use qtrade_client.MockTrader.{MockTraderApi, create_mock_trader_api}
use qtrade_client.MockTrader.Calls.{
  Call, Reply, perform_all, connects, disconnects, sets_order_callback, sets_trade_callback,
  sets_auto_fill, sends, cancels, asks_orders, asks_positions, asks_asset,
}
use qtrade_client.MockTrader.Desk.{Event, new_desk}
use qtrade_client.MockTrader.Serving.{listening}
use qtrade_client.MockTrader.Balance.{traded_for, traded_of}
use qtrade_client.MockTrader.Balance.Runs.{mock_trader_balances}
use qtrade_client.MockTrader.Promise.{ServedAll, mock_trader_refines}
use qtrade_client.MockTrader.Queries.{query_positions, net_positions}
use qtrade_client.MockTrader.Positions.{total_at}
use qtrade_client.MockTrader.Positions.Bounds.{gross_volume, query_positions-bound}
use qtrade_client.MockTrader.Examples.{whole_prices, blank_trade, ready, bid, ask}

abbrev heard : Event ℕ → List (Event ℕ) → List (Event ℕ)
heard e es = e ∷ es

abbrev venue : ConnectRequest
venue = record { broker_id = ""; account_id = "acc"; connection_string = ""; password = "" }

abbrev first_order : CancelOrderRequest
first_order = record { broker_order_id = 1; order_id = "x" }

abbrev every_order : QueryOrdersRequest
every_order = record { instrument = ""; broker_order_id = 0; status = OrderStatusType.unknown }

-- One order waits and is cancelled, the next is filled, and a third comes too late.
abbrev day : List (Call ℕ)
day =
    sets_order_callback (some 5)
    ∷ sets_trade_callback (some 6)
    ∷ connects venue
    ∷ sets_auto_fill false
    ∷ sends (bid 0 (pos 3))
    ∷ cancels first_order
    ∷ cancels first_order
    ∷ sets_auto_fill true
    ∷ sends (ask 0 (pos 2))
    ∷ disconnects
    ∷ sends (bid 0 (pos 1))
    ∷ asks_orders every_order
    ∷ asks_positions ""
    ∷ asks_asset "acc"
    ∷ []

mock_trader_refines_example : ServedAll heard day new_desk create_mock_trader_api []
mock_trader_refines_example = mock_trader_refines heard day [] refl

abbrev sold : Trade ℕ
sold = record blank_trade { instrument = "600000"; volume = pos 7; side = SideType.other 2 }

abbrev bought : Trade ℕ
bought = record blank_trade { instrument = "600000"; volume = pos 4 }

abbrev dealt : MockTraderApi ℕ
dealt = record ready { trades = sold ∷ bought ∷ [] }

abbrev short_three : Position
short_three = record whole_prices.position_default {
  instrument = "600000";
  direction = PositionDirectionType.short;
  total_volume = pos 3;
}

query_positions-bound_example :
    let running = net_positions whole_prices.position_default "" (sold ∷ []) [] in
    (abs (total_at whole_prices.position_default "600000" running)
      ≤ gross_volume "600000" dealt.trades)
    × (abs short_three.total_volume ≤ gross_volume "600000" dealt.trades)
unfolding query_positions neg ◌+ℤ◌ insert lookup
query_positions-bound_example =
    query_positions-bound "" dealt short_three (sold ∷ []) (bought ∷ []) refl (inl refl) refl

-- The day with the ids left to the trader: order 1 is cancelled, order 2 is filled.
mock_trader_balances_example :
    (rs : List (Reply ℕ)) × (s : MockTraderApi ℕ) × (w : List (Event ℕ)) × (perform_all
        (listening heard)
        day
        create_mock_trader_api
        []
      ≡ some (rs, s, w))
    × ((id : ℕ) → traded_for id s.trades ≡ traded_of (lookup id s.orders))
mock_trader_balances_example =
    mock_trader_balances heard day [] refl refl
      (tt, (tt, (tt, (tt, (refl, (tt, (tt, (tt, (refl, (tt, (refl, (tt, (tt, (tt, tt))))))))))))))
      (omega arith)
