-- ===== src/MockTrader/Consistency.antt =====
-- The invariant of the order table and the trades, and that every step keeps it: so it holds whatever
-- callbacks and other threads do between the critical sections.
use mathlib.Core.Option.{some-injective}
use qtrade_client.Common.{
  ℕ, String, true, false, Option, none, some, List, [], ◌∷◌, ◌++◌, ◌≡◌, refl, sym, subst, ap, arith,
  is_some, nat_Eq,
}
use qtrade_client.Common.Dict.{
  lookup, insert, NodupKeys, insert-NodupKeys, insert_cases, insert-keeps, lookup-insert_self,
}
use qtrade_client.Sdk.Trader.{Sdk, Order, Trade, OrderRequest, CancelOrderRequest, OrderStatusType}
use qtrade_client.MockTrader.{MockTraderApi, create_mock_trader_api}
use qtrade_client.MockTrader.Orders.{
  chosen_id, new_order, accept_order, new_trade, make_trade, fill, fill_found, fill_order, cancel,
  cancel_found, cancel_stored, is_final, done,
}
use qtrade_client.MockTrader.Steps.{
  Step, accepted, traded, filled, cancelled, adjusted, Reach, here, next, SameBook, adjust-SameBook,
}
use qtrade_client.MockTrader.Entries.{
  HasTrade, HasTrade-last, TradesHaveOrders, TradesHaveOrders-mono, TradesHaveOrders-append, IsOpen,
  Fits, Entry, Entry-append,
}

module _ {D : Type 0} ⦃sdk : Sdk D⦄ where
  pub record IsConsistent (s : MockTraderApi D) : Type 0 where
    pub keys : NodupKeys s.orders
    pub book : (k : ℕ) → Entry s.trades k (lookup k s.orders)
    pub traded : TradesHaveOrders s.trades s

  pub create-IsConsistent : IsConsistent create_mock_trader_api
  unfolding create_mock_trader_api lookup
  create-IsConsistent = record { keys = tt; book = λ k. tt; traded = tt }

  accepted-IsConsistent :
      (r : OrderRequest D) (s : MockTraderApi D)
      → IsConsistent s
      → IsConsistent (accept_order r s).1
  unfolding accept_order new_order
  accepted-IsConsistent r s v =
      let id = chosen_id r s in
      record {
        keys = insert-NodupKeys id (new_order r id) s.orders v.keys;
        book =
            insert_cases (Entry s.trades) id (new_order r id) s.orders (refl, (refl, refl, refl))
              v.book;
        traded =
            TradesHaveOrders-mono s.trades s _ (λ k. insert-keeps k id (new_order r id) s.orders)
              v.traded;
      }

  filled-IsConsistent :
      (r : OrderRequest D) (id : ℕ) (i : String) (s t : MockTraderApi D) (o : Option (Order D))
      → lookup id s.orders ≡ o
      → Entry s.trades id o
      → fill_found id (new_trade r id i) s o ≡ some t
      → IsConsistent s
      → IsConsistent t
  unfolding new_trade fill
  filled-IsConsistent r id i s t none p h e v = cc
  filled-IsConsistent r id i s t (some o) p h e v =
      let tr = new_trade r id i in
      let here' : is_some (lookup id (insert id (fill tr o) s.orders)) ≡ true =
        ap is_some (lookup-insert_self id (fill tr o) s.orders) in
      subst IsConsistent (some-injective _ _ e) (record {
        keys = insert-NodupKeys id (fill tr o) s.orders v.keys;
        book =
            insert_cases (Entry (s.trades ++ (tr ∷ []))) id (fill tr o) s.orders
              (
                h.0,
                (
                  refl,
                  refl,
                  subst (λ n. HasTrade n tr.trade_amount (s.trades ++ (tr ∷ []))) (sym h.0)
                      (HasTrade-last tr s.trades),
                ),
              )
              (λ k. Entry-append s.trades (tr ∷ []) k _ (v.book k));
        traded =
            TradesHaveOrders-append s.trades tr _
              (TradesHaveOrders-mono s.trades s _ (λ k. insert-keeps k id (fill tr o) s.orders)
                v.traded)
              here';
      })

  IsOpen-of_not_final :
      (ts : List (Trade D)) (o : Order D) (st : OrderStatusType)
      → is_final st ≡ false
      → Fits ts st o
      → IsOpen o
  unfolding is_final
  IsOpen-of_not_final ts o OrderStatusType.not_traded_queueing e h = h
  IsOpen-of_not_final ts o OrderStatusType.filled e h = cc
  IsOpen-of_not_final ts o OrderStatusType.canceled e h = cc
  IsOpen-of_not_final ts o OrderStatusType.unknown e h = absurd h
  IsOpen-of_not_final ts o OrderStatusType.rejected e h = absurd h
  IsOpen-of_not_final ts o (OrderStatusType.other n) e h = absurd h

  pub cancelled_state :
      (r : CancelOrderRequest) (s t : MockTraderApi D) (c o : Order D)
      → cancel_found r s (some o) ≡ done c t
      → (is_final o.status ≡ false)
        × (t ≡ record s { orders = insert r.broker_order_id (cancel r o) s.orders })
        × (c ≡ cancel r o)
  cancelled_state r s t c o e = ground arith

  cancelled-IsConsistent :
      (r : CancelOrderRequest) (s t : MockTraderApi D) (c : Order D) (o : Option (Order D))
      → Entry s.trades r.broker_order_id o
      → cancel_found r s o ≡ done c t
      → IsConsistent s
      → IsConsistent t
  unfolding cancel
  cancelled-IsConsistent r s t c none h e v = cc
  cancelled-IsConsistent r s t c (some o) h e v =
      let (open_status, left, _) = cancelled_state r s t c o e in
      subst IsConsistent (sym left) (record {
        keys = insert-NodupKeys r.broker_order_id (cancel r o) s.orders v.keys;
        book =
            insert_cases (Entry s.trades) r.broker_order_id (cancel r o) s.orders
              (h.0, IsOpen-of_not_final s.trades o o.status open_status h.1) v.book;
        traded =
            TradesHaveOrders-mono s.trades s _
              (λ k. insert-keeps k r.broker_order_id (cancel r o) s.orders) v.traded;
      })

  SameBook-IsConsistent : (s t : MockTraderApi D) → SameBook s t → IsConsistent s → IsConsistent t
  SameBook-IsConsistent s t same v = record {
    keys = subst NodupKeys (sym same.orders) v.keys;
    book = λ k. rw (same.orders, same.trades) (v.book k);
    traded =
        simp same.trades (TradesHaveOrders-mono s.trades s t (λ k h. rw same.orders h) v.traded);
  }

  -- Every step of the trader keeps it consistent.
  pub Step-IsConsistent : {s t : MockTraderApi D} → Step s t → IsConsistent s → IsConsistent t
  unfolding fill_order cancel_stored make_trade
  Step-IsConsistent {s} (accepted r e) v = subst IsConsistent (sym e) (accepted-IsConsistent r s v)
  Step-IsConsistent {s} (traded r id e) v =
      subst IsConsistent (sym e)
        (SameBook-IsConsistent s _ (record { orders = refl; trades = refl }) v)
  Step-IsConsistent {s} {t} (filled r id i e) v =
      filled-IsConsistent r id i s t _ refl (v.book id) e v
  Step-IsConsistent {s} {t} (cancelled r c e) v =
      cancelled-IsConsistent r s t c _ (v.book r.broker_order_id) e v
  Step-IsConsistent {s} (adjusted c e) v =
      subst IsConsistent (sym e) (SameBook-IsConsistent s _ (adjust-SameBook c s) v)

  -- Every state that steps of the trader reach from a consistent one is consistent: no key stands twice, each
  -- order stands under its own id, filled orders have their trade, and every trade has its order. A new trader
  -- is consistent.
  pub Reach-IsConsistent : {s t : MockTraderApi D} → Reach s t → IsConsistent s → IsConsistent t
  Reach-IsConsistent here v = v
  Reach-IsConsistent (next r st) v = Step-IsConsistent st (Reach-IsConsistent r v)
