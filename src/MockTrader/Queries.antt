-- ===== src/MockTrader/Queries.antt =====
-- The synchronous queries of src/adapters/mock/trader/mock_trader_api.cpp. Each runs under the mutex, so
-- it sees one state.
use qtrade_client.Common.{
  ℕ, String, Bool, ◌&&◌, ◌||◌, not, none, some, List, [], ◌∷◌, ◌==◌, nat_Eq, string_Eq, is_empty,
  if◌then◌else◌,
}
use qtrade_client.Common.Int.{ℤ, ◌+ℤ◌, neg, is_negative}
use qtrade_client.Common.Dict.{Dict, lookup, insert}
use qtrade_client.Sdk.{ErrorCode}
use qtrade_client.Sdk.Trader.{
  Sdk, Order, Trade, Position, Asset, QueryOrdersRequest, QueryTradesRequest, OrderStatusType,
  SideType, PositionDirectionType, status_Eq,
}
use qtrade_client.MockTrader.{MockTraderApi}

module _ {D : Type 0} where
  -- The condition of `continue` in `QueryOrders`.
  unfoldable pub skips_order : QueryOrdersRequest → ℕ → Order D → Bool
  skips_order r id o =
      (not (is_empty r.instrument) && not (o.instrument == r.instrument))
      || (not (r.broker_order_id == 0) && not (id == r.broker_order_id))
      || (not (r.status == OrderStatusType.unknown) && not (o.status == r.status))

  unfoldable pub collect_orders : QueryOrdersRequest → Dict ℕ (Order D) → List (Order D)
  unfolding skips_order
  collect_orders r [] = []
  collect_orders r ((id, o) ∷ d) =
      let rest = collect_orders r d in if skips_order r id o then rest else o ∷ rest

  unfoldable pub query_orders : QueryOrdersRequest → MockTraderApi D → ErrorCode × List (Order D)
  unfolding collect_orders
  query_orders r s = (ErrorCode.success, collect_orders r s.orders)

  -- The condition of `continue` in `QueryTrades`.
  unfoldable pub skips_trade : QueryTradesRequest → Trade D → Bool
  skips_trade r t =
      (not (is_empty r.instrument) && not (t.instrument == r.instrument))
      || (not (is_empty r.order_id) && not (t.order_id == r.order_id))
      || (not (r.broker_order_id == 0) && not (t.broker_order_id == r.broker_order_id))

  unfoldable pub collect_trades : QueryTradesRequest → List (Trade D) → List (Trade D)
  unfolding skips_trade
  collect_trades r [] = []
  collect_trades r (t ∷ ts) =
      let rest = collect_trades r ts in if skips_trade r t then rest else t ∷ rest

  unfoldable pub query_trades : QueryTradesRequest → MockTraderApi D → ErrorCode × List (Trade D)
  unfolding collect_trades
  query_trades r s = (ErrorCode.success, collect_trades r s.trades)

  -- What a trade adds to the net position.
  unfoldable pub signed_volume : Trade D → ℤ
  signed_volume t = elim t.side [ SideType.buy ↦ t.volume | SideType.other n ↦ neg t.volume ]

  -- The body of the loop, once `positions[trade.instrument]` is at hand.
  unfoldable pub add_trade : Trade D → Position → Position
  unfolding signed_volume
  add_trade t p = record p {
    instrument = t.instrument;
    market = t.market;
    direction = PositionDirectionType.net;
    total_volume = p.total_volume +ℤ signed_volume t;
  }

-- The body of the second loop: a volume that is not negative is long, zero too.
unfoldable pub close_position : Position → Position
close_position p =
    if is_negative p.total_volume
    then record p { direction = PositionDirectionType.short; total_volume = neg p.total_volume }
    else record p { direction = PositionDirectionType.long }

unfoldable pub close_positions : Dict String Position → List Position
unfolding close_position
close_positions [] = []
close_positions ((i, p) ∷ d) = close_position p ∷ close_positions d

-- `positions[k]`, which makes a missing entry.
unfoldable pub position_at : Position → String → Dict String Position → Position
position_at fresh k d = elim (lookup k d) [ none ↦ fresh | some p ↦ p ]

module _ {D : Type 0} where
  -- The condition of `continue` in `QueryPositions`.
  unfoldable pub skips_position : String → Trade D → Bool
  skips_position instrument t = not (is_empty instrument) && not (instrument == t.instrument)

  -- The first loop, where `fresh` is the entry that `positions[k]` makes.
  unfoldable pub net_positions :
      Position → String → List (Trade D) → Dict String Position → Dict String Position
  unfolding position_at add_trade skips_position
  net_positions fresh instrument [] d = d
  net_positions fresh instrument (t ∷ ts) d = net_positions fresh instrument ts (
      if skips_position instrument t
      then d
      else insert t.instrument (add_trade t (position_at fresh t.instrument d)) d)

module _ {D : Type 0} ⦃sdk : Sdk D⦄ where
  unfoldable pub query_positions : String → MockTraderApi D → ErrorCode × List Position
  unfolding net_positions close_positions
  query_positions instrument s = (
    ErrorCode.success,
    close_positions (net_positions sdk.position_default instrument s.trades []),
  )

  unfoldable pub query_asset : String → MockTraderApi D → ErrorCode × Asset D
  query_asset account_id s = (
    ErrorCode.success,
    record sdk.asset_default {
      account_id = if is_empty account_id then s.account_id else account_id;
      total_asset = sdk.million;
      buying_power = sdk.million;
    },
  )
