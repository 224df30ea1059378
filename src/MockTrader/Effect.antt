-- ===== src/MockTrader/Effect.antt =====
-- src/adapters/mock/trader/mock_trader_api.cpp: what `SendOrder` leaves behind, field by field.
use qtrade_client.Common.{
  ℕ, zero, suc, ◌+◌, ◌%◌, ◌^◌, String, ◌<>◌, Bool, true, false, some, [], ◌∷◌, ◌++◌, ◌≡◌, ◌≢◌, refl,
  nat_Eq, if◌then◌else◌, Bool-cases, inl, inr, equals_ne, arith,
}
use qtrade_client.Common.Int.{pos}
use qtrade_client.Common.Dict.{lookup, lookup-insert, lookup-insert_self}
use qtrade_client.Sdk.{ErrorCode}
use qtrade_client.Sdk.Trader.{
  Sdk, Order, Trade, OrderRequest, OrderStatusType, OrderSubmitStatusType,
}
use qtrade_client.MockTrader.{MockTraderApi, Handlers}
use qtrade_client.MockTrader.Orders.{
  chosen_id, counter_after, to_string, new_order, new_trade, fill, accept_order, try_fill,
  notify_order, send_order,
}
use qtrade_client.MockTrader.Sending.{
  IsSilent, fills, trade_of, fill_silent, notify_order_silent, accept_order_id,
}
use qtrade_client.MockTrader.Serving.{sent_filled, sent_queued}

-- The id of a request that names `named`, where the counter stands at `next`: 0 names none.
abbrev pub id_of : ℕ → ℕ → ℕ
id_of zero next = next
id_of (suc n) next = suc n

-- The counter behind the request, a `uint64_t`.
abbrev pub next_of : ℕ → ℕ → ℕ
next_of zero next = (next + 1) % 2 ^ 64
next_of (suc n) next = next

module _ {D : Type 0} ⦃sdk : Sdk D⦄ where
  -- The order of the request `r` under `id`: filled in full at the request's price, or in the queue with
  -- nothing traded.
  pub record IsOrder (r : OrderRequest D) (id : ℕ) (filled : Bool) (o : Order D) : Type 0 where
    pub broker_order_id : o.broker_order_id ≡ id
    pub client_order_id : o.client_order_id ≡ r.client_order_id
    pub order_id : o.order_id ≡ sdk.order_default.order_id
    pub instrument : o.instrument ≡ r.instrument
    pub market : o.market ≡ r.market
    pub price : o.price ≡ r.price
    pub volume : o.volume ≡ r.volume
    pub side : o.side ≡ r.side
    pub position_effect : o.position_effect ≡ r.position_effect
    pub business_type : o.business_type ≡ r.business_type
    pub submit_status : o.submit_status ≡ OrderSubmitStatusType.insert_accepted
    pub status :
        o.status ≡ (if filled then OrderStatusType.filled else OrderStatusType.not_traded_queueing)
    pub left_volume : o.left_volume ≡ (if filled then pos 0 else r.volume)
    pub traded_volume :
        o.traded_volume ≡ (if filled then r.volume else sdk.order_default.traded_volume)
    pub trade_amount : o.trade_amount ≡ (
        if filled
        then sdk.times r.price (sdk.of_volume r.volume)
        else sdk.order_default.trade_amount)

  -- The trade of the request under `id`, the `n`th trade.
  pub record IsTrade (r : OrderRequest D) (id n : ℕ) (t : Trade D) : Type 0 where
    pub trade_id : t.trade_id ≡ "MOCK-TRADE-" <> to_string n
    pub order_id : t.order_id ≡ sdk.trade_default.order_id
    pub broker_order_id : t.broker_order_id ≡ id
    pub client_order_id : t.client_order_id ≡ r.client_order_id
    pub instrument : t.instrument ≡ r.instrument
    pub market : t.market ≡ r.market
    pub price : t.price ≡ r.price
    pub volume : t.volume ≡ r.volume
    pub trade_amount : t.trade_amount ≡ sdk.times r.price (sdk.of_volume r.volume)
    pub side : t.side ≡ r.side
    pub position_effect : t.position_effect ≡ r.position_effect
    pub business_type : t.business_type ≡ r.business_type

  -- The trades and their counter: one more if the order was filled.
  abbrev pub TradesAfter : Bool → OrderRequest D → ℕ → (s s' : MockTraderApi D) → Type 0
  TradesAfter false r id s s' = (s'.trades ≡ s.trades) × (s'.next_trade_id ≡ s.next_trade_id)
  TradesAfter true r id s s' =
      ((t : Trade D) × (s'.trades ≡ s.trades ++ (t ∷ [])) × IsTrade r id s.next_trade_id t)
      × (s'.next_trade_id ≡ (s.next_trade_id + 1) % 2 ^ 64)

  -- The trader behind a request that it took.
  pub record Took (r : OrderRequest D) (filled : Bool) (s s' : MockTraderApi D) : Type 0 where
    pub own :
        let id = id_of r.broker_order_id s.next_broker_order_id in
        (o : Order D) × (lookup id s'.orders ≡ some o) × IsOrder r id filled o
    pub others :
        (k : ℕ)
        → id_of r.broker_order_id s.next_broker_order_id ≢ k
        → lookup k s'.orders ≡ lookup k s.orders
    pub trades : TradesAfter filled r (id_of r.broker_order_id s.next_broker_order_id) s s'
    pub next_id : s'.next_broker_order_id ≡ next_of r.broker_order_id s.next_broker_order_id
    pub connected : s'.connected ≡ s.connected
    pub auto_fill : s'.auto_fill ≡ s.auto_fill

  pub chosen_id-id_of :
      (r : OrderRequest D) (s : MockTraderApi D)
      → chosen_id r s ≡ id_of r.broker_order_id s.next_broker_order_id
  unfolding chosen_id
  chosen_id-id_of r s = ground arith

  counter_after-next_of :
      (r : OrderRequest D) (s : MockTraderApi D)
      → counter_after r s ≡ next_of r.broker_order_id s.next_broker_order_id
  unfolding counter_after
  counter_after-next_of r s = ground arith

  queued-IsOrder : (r : OrderRequest D) (id : ℕ) → IsOrder r id false (new_order r id)
  unfolding new_order
  queued-IsOrder r id = record {
    broker_order_id = refl;
    client_order_id = refl;
    order_id = refl;
    instrument = refl;
    market = refl;
    price = refl;
    volume = refl;
    side = refl;
    position_effect = refl;
    business_type = refl;
    submit_status = refl;
    status = refl;
    left_volume = refl;
    traded_volume = refl;
    trade_amount = refl;
  }

  filled-IsOrder :
      (r : OrderRequest D) (id : ℕ) (i : String)
      → IsOrder r id true (fill (new_trade r id i) (new_order r id))
  unfolding new_order new_trade fill
  filled-IsOrder r id i = record {
    broker_order_id = refl;
    client_order_id = refl;
    order_id = refl;
    instrument = refl;
    market = refl;
    price = refl;
    volume = refl;
    side = refl;
    position_effect = refl;
    business_type = refl;
    submit_status = refl;
    status = refl;
    left_volume = refl;
    traded_volume = refl;
    trade_amount = refl;
  }

  new_trade-IsTrade :
      (r : OrderRequest D) (id n : ℕ)
      → IsTrade r id n (new_trade r id ("MOCK-TRADE-" <> to_string n))
  unfolding new_trade
  new_trade-IsTrade r id n = record {
    trade_id = refl;
    order_id = refl;
    broker_order_id = refl;
    client_order_id = refl;
    instrument = refl;
    market = refl;
    price = refl;
    volume = refl;
    trade_amount = refl;
    side = refl;
    position_effect = refl;
    business_type = refl;
  }

  filled-Took : (r : OrderRequest D) (s : MockTraderApi D) → Took r true s (sent_filled r s)
  filled-Took r s =
      let id = chosen_id-id_of r s in
      record {
        own = rw (← id) (_, lookup-insert_self _ _ _, filled-IsOrder r (chosen_id r s) _);
        others = rw (← id) (λ k ne. simp (lookup-insert, equals_ne (chosen_id r s) k ne));
        trades = rw (← id) ((trade_of r s, refl, new_trade-IsTrade r _ s.next_trade_id), refl);
        next_id = counter_after-next_of r s;
        connected = refl;
        auto_fill = refl;
      }

  queued-Took : (r : OrderRequest D) (s : MockTraderApi D) → Took r false s (sent_queued r s)
  queued-Took r s =
      let id = chosen_id-id_of r s in
      record {
        own = rw (← id) (_, lookup-insert_self _ _ _, queued-IsOrder r (chosen_id r s));
        others = rw (← id) (λ k ne. simp (lookup-insert, equals_ne (chosen_id r s) k ne));
        trades = (refl, refl);
        next_id = counter_after-next_of r s;
        connected = refl;
        auto_fill = refl;
      }

module _ {D W : Type 0} ⦃sdk : Sdk D⦄ (h : Handlers D W) (silent : IsSilent h) where
  fill_none :
      (r : OrderRequest D) (s : MockTraderApi D) (w : W)
      → fills s ≡ false
      → try_fill h r (chosen_id r s) (accept_order r s).1 w
        ≡ some (ErrorCode.success, sent_queued r s, w)
  unfolding try_fill accept_order
  fill_none r s w e = simp e

  Took-cases :
      (r : OrderRequest D) (s : MockTraderApi D) (w : W)
      → (s' : MockTraderApi D) × (w' : W) × (try_fill h r (chosen_id r s) (accept_order r s).1 w
          ≡ some (ErrorCode.success, s', w'))
        × Took r (fills s) s s'
  Took-cases r s w = elim (Bool-cases (fills s)) [
    | inl e ↦ (sent_filled r s, _, fill_silent h silent r s w e, rw e (filled-Took r s))
    | inr e ↦ (sent_queued r s, w, fill_none r s w e, rw e (queued-Took r s))
  ]

  -- With silent callbacks a connected trader accepts every request. The order stands under the id that the
  -- request names, or under the counter's, which then moves on; no other entry of the table changes. If
  -- `auto_fill` is on and a trade callback is set, the order is filled in full and its trade, under the next
  -- trade number, is the last one; else the order is in the queue and the trades are as before. The fields of
  -- the order and the trade are the request's.
  pub send_order-Took :
      (r : OrderRequest D) (s : MockTraderApi D) (w : W)
      → s.connected ≡ true
      → (s' : MockTraderApi D) × (w' : W) × (send_order h r s w ≡ some (ErrorCode.success, s', w'))
        × Took r (fills s) s s'
  unfolding send_order
  send_order-Took r s w e =
      let (s', w', p, q) =
        Took-cases r s (notify_order h (accept_order r s).0 (accept_order r s).1 w).1 in
      (s', w', simp (e, notify_order_silent h silent, accept_order_id) p, q)
