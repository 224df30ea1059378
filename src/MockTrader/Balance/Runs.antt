-- ===== src/MockTrader/Balance/Runs.antt =====
-- src/adapters/mock/trader: runs of the mock trader balance.
use qtrade_client.Common.{
  ℕ, ◌+◌, ◌<◌, ◌≤◌, nat_Eq, Option, some, none, List, [], ◌∷◌, ◌≡◌, refl, sym, subst, arith,
  if◌then◌else◌, Bool-cases, inl, inr,
}
use qtrade_client.Common.Int.{pos}
use qtrade_client.Common.Dict.{lookup}
use qtrade_client.Common.Lists.{length}
use qtrade_client.Sdk.Trader.{Sdk, Order, OrderRequest, CancelOrderRequest}
use qtrade_client.MockTrader.{MockTraderApi, create_mock_trader_api}
use qtrade_client.MockTrader.Orders.{u64_mod}
use qtrade_client.MockTrader.Calls.{Call, Reply, perform_all, sends, cancels}
use qtrade_client.MockTrader.Desk.{Event, Desk, new_desk, granted, cancelled_as, taken, after}
use qtrade_client.MockTrader.Serving.{listening}
use qtrade_client.MockTrader.Promise.{after_all, mock_trader_refines}
use qtrade_client.MockTrader.Balance.{
  traded_for, traded_of, LeavesId, LeaveIds, Balances, cancelled-Balances, taken-Balances,
  next_id-taken,
}

module _ {D : Type 0} ⦃sdk : Sdk D⦄ where
  -- The desk still balances, and its counter has moved by one at most.
  abbrev Moved : Desk D → Desk D → Type 0
  Moved d d' = Balances d' × (d'.next_id ≤ d.next_id + 1)

  cancels-Moved :
      (r : CancelOrderRequest) (o : Option (Order D)) (d : Desk D)
      → (cancelled_as r o d).next_id ≤ d.next_id + 1
  cancels-Moved r none d = omega arith
  cancels-Moved r (some o) d = omega arith

  sends-Moved :
      (r : OrderRequest D) (d : Desk D)
      → sdk.order_default.traded_volume ≡ pos 0
      → r.broker_order_id ≡ 0
      → d.next_id + 1 < u64_mod
      → Balances d
      → Moved d (after (sends r) d)
  sends-Moved r d z h lt v = elim (Bool-cases d.is_open) [
    | inl c ↦
        subst (λ b. Moved d (if b then taken r d else d)) (sym c)
          (taken-Balances r d z h lt v, omega (arith, next_id-taken r d h lt))
    | inr c ↦ subst (λ b. Moved d (if b then taken r d else d)) (sym c) (v, omega arith)
  ]

  -- What a setting changes is in neither.
  same :
      (d d' : Desk D)
      → d'.next_id ≡ d.next_id
      → d'.book ≡ d.book
      → d'.trades ≡ d.trades
      → Balances d
      → Moved d d'
  same d d' n b t v = (
    record {
      unused = λ k le. rw b (v.unused k (omega (arith, le, n)));
      matched = λ k. rw (b, t) (v.matched k);
    },
    omega (arith, n),
  )

  after-Moved :
      (c : Call D) (d : Desk D)
      → sdk.order_default.traded_volume ≡ pos 0
      → LeavesId c
      → d.next_id + 1 < u64_mod
      → Balances d
      → Moved d (after c d)
  after-Moved (sends r) d z h lt v = sends-Moved r d z h lt v
  after-Moved (cancels r) d z h lt v = (
    cancelled-Balances r d.is_open (d.book r.broker_order_id) d refl v,
    cancels-Moved r (granted r d) d,
  )
  after-Moved c d z h lt v = same d _ refl refl refl v

  after_all-Balances :
      (cs : List (Call D)) (d : Desk D)
      → sdk.order_default.traded_volume ≡ pos 0
      → LeaveIds cs
      → d.next_id + length cs < u64_mod
      → Balances d
      → Balances (after_all cs d)
  after_all-Balances [] d z h lt v = v
  after_all-Balances (c ∷ cs) d z (h, hs) lt v =
      let (v', le) = after-Moved c d z h (omega (arith, lt)) v in
      after_all-Balances cs (after c d) z hs (omega (arith, lt, le)) v'

module _ {D W : Type 0} ⦃sdk : Sdk D⦄ (hear : Event D → W → W) where
  -- Every sequence of calls to a new trader whose callbacks only listen, that leaves all ids to the trader
  -- and is shorter than 2 ^ 64 - 1, returns; and in the end, for every id, the volumes of its trades add up
  -- to what its order shows as traded, and to 0 if there is no such order. The volumes of a `Position` and
  -- of an `Order` that nobody wrote to are 0.
  pub mock_trader_balances :
      (cs : List (Call D)) (w : W)
      → sdk.position_default.total_volume ≡ pos 0
      → sdk.order_default.traded_volume ≡ pos 0
      → LeaveIds cs
      → 1 + length cs < u64_mod
      → (rs : List (Reply D)) × (s : MockTraderApi D) × (w' : W) × (perform_all
            (listening hear)
            cs
            create_mock_trader_api
            w
          ≡ some (rs, s, w'))
        × ((id : ℕ) → traded_for id s.trades ≡ traded_of (lookup id s.orders))
  mock_trader_balances cs w zp zo h lt =
      let (rs, s, ran, replies, seen) = mock_trader_refines hear cs w zp in
      let balanced =
        after_all-Balances cs new_desk zo h lt
          (record { unused = λ k le. refl; matched = λ k. refl }) in
      (rs, s, _, ran, (subst Balances (sym seen) balanced).matched)
