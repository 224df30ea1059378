-- ===== src/MockTrader/Responses.antt =====
-- `QueryOrders` and `QueryTrades` answer exactly what the request asks for.
use qtrade_client.Common.{
  ℕ, false, some, List, [], ◌∷◌, ◌≡◌, ◌↔◌, ◌⊎◌, inl, inr, refl, sym, subst, arith, nat_Eq,
  string_Eq, Bool-cases,
}
use text.Mathlib.TextEquality.{eq_iff}
use qtrade_client.Common.Dict.{Dict, lookup, NodupKeys, Holds, Holds-iff}
use qtrade_client.Sdk.Trader.{
  Order, Trade, QueryOrdersRequest, QueryTradesRequest, OrderStatusType, status_Eq, status_eq_iff,
}
use qtrade_client.MockTrader.{MockTraderApi}
use qtrade_client.MockTrader.Queries.{
  skips_order, collect_orders, query_orders, skips_trade, collect_trades, query_trades,
}

abbrev pub Listed : {A : Type 0} → A → List A → Type 0
Listed a [] = ⊥
Listed a (x ∷ xs) = (x ≡ a) ⊎ Listed a xs

module _ {D : Type 0} where
  -- The request's instrument, id and status each pick, unless they are left empty.
  abbrev pub AsksForOrder : QueryOrdersRequest → ℕ → Order D → Type 0
  AsksForOrder r id o =
      ((r.instrument ≡ "") ⊎ (o.instrument ≡ r.instrument))
      × ((r.broker_order_id ≡ 0) ⊎ (id ≡ r.broker_order_id))
      × ((r.status ≡ OrderStatusType.unknown) ⊎ (o.status ≡ r.status))

  abbrev pub AsksForTrade : QueryTradesRequest → Trade D → Type 0
  AsksForTrade r t =
      ((r.instrument ≡ "") ⊎ (t.instrument ≡ r.instrument))
      × ((r.order_id ≡ "") ⊎ (t.order_id ≡ r.order_id))
      × ((r.broker_order_id ≡ 0) ⊎ (t.broker_order_id ≡ r.broker_order_id))

  skips_order_iff :
      (r : QueryOrdersRequest) (id : ℕ) (o : Order D)
      → (skips_order r id o ≡ false) ↔ AsksForOrder r id o
  unfolding skips_order
  skips_order_iff r id o = ground (
    arith,
    eq_iff r.instrument "",
    eq_iff o.instrument r.instrument,
    status_eq_iff r.status OrderStatusType.unknown,
    status_eq_iff o.status r.status,
  )

  skips_trade_iff :
      (r : QueryTradesRequest) (t : Trade D) → (skips_trade r t ≡ false) ↔ AsksForTrade r t
  unfolding skips_trade
  skips_trade_iff r t = ground (
    arith,
    eq_iff r.instrument "",
    eq_iff t.instrument r.instrument,
    eq_iff r.order_id "",
    eq_iff t.order_id r.order_id,
  )

  collect_orders-Holds :
      (r : QueryOrdersRequest) (o : Order D) (d : Dict ℕ (Order D))
      → Listed o (collect_orders r d)
      → (k : ℕ) × Holds k o d × AsksForOrder r k o
  unfolding collect_orders
  collect_orders-Holds r o [] h = absurd h
  collect_orders-Holds r o ((k, p) ∷ d) h = elim (Bool-cases (skips_order r k p)) [
    | inl q ↦
        let (k', found, asked) = collect_orders-Holds r o d (simp q at h) in (k', inr found, asked)
    | inr q ↦ head_or_tail (simp q at h) ((skips_order_iff r k p).0 q) (collect_orders-Holds r o d)
  ]
    where
      head_or_tail :
          (p ≡ o) ⊎ Listed o (collect_orders r d)
          → AsksForOrder r k p
          → (Listed o (collect_orders r d) → (k : ℕ) × Holds k o d × AsksForOrder r k o)
          → (j : ℕ) × Holds j o ((k, p) ∷ d) × AsksForOrder r j o
      head_or_tail (inl e) a ih = (k, inl (refl, e), subst (AsksForOrder r k) e a)
      head_or_tail (inr l) a ih = let (j, found, asked) = ih l in (j, inr found, asked)

  Holds-collect_orders :
      (r : QueryOrdersRequest) (k : ℕ) (o : Order D) (d : Dict ℕ (Order D))
      → Holds k o d
      → AsksForOrder r k o
      → Listed o (collect_orders r d)
  unfolding collect_orders
  Holds-collect_orders r k o [] found asked = elim found [ ]
  Holds-collect_orders r k o ((j, p) ∷ d) (inl (e, e')) asked =
      simp
        ((skips_order_iff r j p).1
          (subst (λ i. AsksForOrder r i p) (sym e) (subst (AsksForOrder r k) (sym e') asked)))
        (inl e')
  Holds-collect_orders r k o ((j, p) ∷ d) (inr found) asked =
      let rest = Holds-collect_orders r k o d found asked in
      elim (Bool-cases (skips_order r j p)) [ inl q ↦ simp q rest | inr q ↦ simp q (inr rest) ]

  -- `query_orders` answers with exactly the orders of the table that the request asks for. No key stands
  -- twice in the table.
  pub query_orders_iff :
      (r : QueryOrdersRequest) (s : MockTraderApi D) (o : Order D)
      → NodupKeys s.orders
      → Listed o (query_orders r s).1
        ↔ ((k : ℕ) × (lookup k s.orders ≡ some o) × AsksForOrder r k o)
  unfolding query_orders
  query_orders_iff r s o n = (
    λ h.
        let (k, found, asked) = collect_orders-Holds r o s.orders h in
        (k, (Holds-iff k o s.orders n).0 found, asked),
    λ (k, found, asked).
        Holds-collect_orders r k o s.orders ((Holds-iff k o s.orders n).1 found) asked,
  )

  Listed-collect_trades :
      (r : QueryTradesRequest) (t : Trade D) (ts : List (Trade D))
      → Listed t ts
      → AsksForTrade r t
      → Listed t (collect_trades r ts)
  unfolding collect_trades
  Listed-collect_trades r t [] l asked = elim l [ ]
  Listed-collect_trades r t (u ∷ ts) (inl e) asked =
      simp ((skips_trade_iff r u).1 (subst (AsksForTrade r) (sym e) asked)) (inl e)
  Listed-collect_trades r t (u ∷ ts) (inr l) asked =
      let rest = Listed-collect_trades r t ts l asked in
      elim (Bool-cases (skips_trade r u)) [ inl q ↦ simp q rest | inr q ↦ simp q (inr rest) ]

  collect_trades-Listed :
      (r : QueryTradesRequest) (t : Trade D) (ts : List (Trade D))
      → Listed t (collect_trades r ts)
      → Listed t ts × AsksForTrade r t
  unfolding collect_trades
  collect_trades-Listed r t [] h = elim h [ ]
  collect_trades-Listed r t (u ∷ ts) h = elim (Bool-cases (skips_trade r u)) [
    | inl q ↦ let (l, asked) = collect_trades-Listed r t ts (simp q at h) in (inr l, asked)
    | inr q ↦ head_or_tail (simp q at h) ((skips_trade_iff r u).0 q) (collect_trades-Listed r t ts)
  ]
    where
      head_or_tail :
          (u ≡ t) ⊎ Listed t (collect_trades r ts)
          → AsksForTrade r u
          → (Listed t (collect_trades r ts) → Listed t ts × AsksForTrade r t)
          → Listed t (u ∷ ts) × AsksForTrade r t
      head_or_tail (inl e) asked ih = (inl e, subst (AsksForTrade r) e asked)
      head_or_tail (inr l) asked ih = let (m, asked') = ih l in (inr m, asked')

  -- `query_trades` answers with exactly the recorded trades that the request asks for.
  pub query_trades_iff :
      (r : QueryTradesRequest) (s : MockTraderApi D) (t : Trade D)
      → Listed t (query_trades r s).1 ↔ (Listed t s.trades × AsksForTrade r t)
  unfolding query_trades
  query_trades_iff r s t =
      (collect_trades-Listed r t s.trades, λ (l, asked). Listed-collect_trades r t s.trades l asked)
