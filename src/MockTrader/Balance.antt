-- ===== src/MockTrader/Balance.antt =====
-- src/adapters/mock/trader: the trades that the mock reports, against the volumes that its orders show as
-- traded. One call to the desk; runs are in `Runs`.
pub mod Runs
use qtrade_client.Common.{
  ℕ, suc, ◌+◌, ◌<◌, ◌≤◌, ◌%◌, ◌==◌, nat_Eq, Bool, true, false, not, Option, some, none, List, [],
  ◌∷◌, ◌++◌, ◌≡◌, ◌≢◌, refl, sym, subst, ap, ◌∙◌, arith, if◌then◌else◌, Bool-cases, inl, inr,
  equals_refl, equals_ne,
}
use mathlib.Core.Option.{some-injective}
use qtrade_client.Common.Int.{ℤ, pos, ◌+ℤ◌, zero-+ℤ, +ℤ-zero, +ℤ_assoc}
use qtrade_client.Common.Dict.{lookup}
use qtrade_client.Common.Lists.{length}
use qtrade_client.Sdk.Trader.{Sdk, Order, Trade, OrderRequest, CancelOrderRequest}
use qtrade_client.MockTrader.{MockTraderApi, create_mock_trader_api}
use qtrade_client.MockTrader.Orders.{u64_mod, new_order, new_trade, fill, cancel, is_final}
use qtrade_client.MockTrader.Calls.{
  Call, Reply, perform_all, registers_spi, unregisters_spi, disconnects, logs_in, asks_connected,
  connects, logs_out, sets_order_callback, sets_trade_callback, sets_auto_fill, sends, cancels,
  asks_orders, asks_trades, asks_positions, asks_asset,
}
use qtrade_client.MockTrader.Desk.{
  Event, Desk, new_desk, view, write, cancel_of, granted, cancelled_as, fills_at_once, id_for,
  trade_for, taken, after,
}
use qtrade_client.MockTrader.Serving.{listening}
use qtrade_client.MockTrader.Promise.{after_all, mock_trader_refines}

module _ {D : Type 0} where
  -- The volume of all trades of an order together.
  abbrev pub traded_for : ℕ → List (Trade D) → ℤ
  traded_for id [] = pos 0
  traded_for id (t ∷ ts) =
      if t.broker_order_id == id then t.volume +ℤ traded_for id ts else traded_for id ts

  -- What an order shows as traded.
  abbrev pub traded_of : Option (Order D) → ℤ
  traded_of none = pos 0
  traded_of (some o) = o.traded_volume

  -- The request leaves the id to the trader.
  abbrev pub LeavesId : Call D → Type 0
  LeavesId (sends r) = r.broker_order_id ≡ 0
  LeavesId c = Unit

  abbrev pub LeaveIds : List (Call D) → Type 0
  LeaveIds [] = Unit
  LeaveIds (c ∷ cs) = LeavesId c × LeaveIds cs

  traded_for-append :
      (id : ℕ) (ts : List (Trade D)) (t : Trade D)
      → traded_for id (ts ++ (t ∷ []))
        ≡ (if t.broker_order_id == id then traded_for id ts +ℤ t.volume else traded_for id ts)
  traded_for-append id [] t = elim (Bool-cases (t.broker_order_id == id)) [
    | inl e ↦ simp e (+ℤ-zero t.volume ∙ sym (zero-+ℤ t.volume))
    | inr e ↦ simp e
  ]
  traded_for-append id (u ∷ ts) t = elim (Bool-cases (t.broker_order_id == id)) [
    | inl e ↦ elim (Bool-cases (u.broker_order_id == id)) [
      | inl q ↦ simp (e, q, traded_for-append id ts t, +ℤ_assoc)
      | inr q ↦ simp (e, q, traded_for-append id ts t)
    ]
    | inr e ↦ simp (e, traded_for-append id ts t)
  ]

  -- Ids from the counter on are unused, and every order shows the volume of its trades.
  pub record Balances (d : Desk D) : Type 0 where
    pub unused : (k : ℕ) → d.next_id ≤ k → d.book k ≡ none
    pub matched : (k : ℕ) → traded_for k d.trades ≡ traded_of (d.book k)

  placed :
      (k id : ℕ) (o : Order D) (book : ℕ → Option (Order D)) (ts : List (Trade D))
      → (id == k ≡ true → traded_for k ts ≡ o.traded_volume)
      → (id == k ≡ false → traded_for k ts ≡ traded_of (book k))
      → traded_for k ts ≡ traded_of (write id o book k)
  placed k id o book ts hit miss = elim (Bool-cases (id == k)) [
    | inl c ↦ simp c (hit c)
    | inr c ↦ simp c (miss c)
  ]

  -- A cancellation leaves the volumes.
  pub cancelled-Balances :
      (r : CancelOrderRequest) (b : Bool) (o : Option (Order D)) (d : Desk D)
      → d.book r.broker_order_id ≡ o
      → Balances d
      → Balances (cancelled_as r (cancel_of r b o) d)
  unfolding cancel
  cancelled-Balances r false o d e v = v
  cancelled-Balances r true none d e v = v
  cancelled-Balances r true (some o) d e v = elim (Bool-cases (is_final o.status)) [
    | inl q ↦ simp q v
    | inr q ↦ simp q (record {
      unused = λ k le. elim (Bool-cases (r.broker_order_id == k)) [
        | inl c ↦ let found = at k c in let none_there = v.unused k le in cc
        | inr c ↦ simp c (v.unused k le)
      ];
      matched = λ k.
          placed k r.broker_order_id (cancel r o) d.book d.trades
            (λ c. v.matched k ∙ ap traded_of (at k c)) (λ c. v.matched k);
    })
  ]
    where
      at : (k : ℕ) → r.broker_order_id == k ≡ true → d.book k ≡ some o
      at k c = subst (λ i. d.book i ≡ some o) ((nat_Eq.equals_iff r.broker_order_id k).0 c) e

module _ {D : Type 0} ⦃sdk : Sdk D⦄ where
  id_for-next_id :
      (r : OrderRequest D) (d : Desk D) → r.broker_order_id ≡ 0 → id_for r d ≡ d.next_id
  id_for-next_id r d h = simp h

  pub next_id-taken :
      (r : OrderRequest D) (d : Desk D)
      → r.broker_order_id ≡ 0
      → d.next_id + 1 < u64_mod
      → (taken r d).next_id ≡ d.next_id + 1
  next_id-taken r d h lt = simp h (omega (arith, lt))

  -- Nothing was traded under the id of a new order.
  untraded :
      (r : OrderRequest D) (d : Desk D) (k : ℕ)
      → r.broker_order_id ≡ 0
      → Balances d
      → id_for r d == k ≡ true
      → traded_for k d.trades ≡ pos 0
  untraded r d k h v q =
      v.matched k
      ∙ ap traded_of
          (v.unused k (omega (arith, id_for-next_id r d h, (nat_Eq.equals_iff (id_for r d) k).0 q)))

  taken-matched :
      (r : OrderRequest D) (d : Desk D) (k : ℕ)
      → sdk.order_default.traded_volume ≡ pos 0
      → r.broker_order_id ≡ 0
      → Balances d
      → traded_for k (taken r d).trades ≡ traded_of ((taken r d).book k)
  unfolding fill new_order new_trade
  taken-matched r d k z h v = elim (Bool-cases (fills_at_once d)) [
    | inl f ↦ simp f (
        placed k (id_for r d) _ d.book _
          (λ q.
            traded_for-append k d.trades (trade_for r d) ∙ simp (q, untraded r d k h v q, zero-+ℤ))
          (λ q. traded_for-append k d.trades (trade_for r d) ∙ simp (q, v.matched k)))
    | inr f ↦
        simp f
          (placed k (id_for r d) _ d.book _ (λ q. untraded r d k h v q ∙ sym z) (λ q. v.matched k))
  ]

  pub taken-Balances :
      (r : OrderRequest D) (d : Desk D)
      → sdk.order_default.traded_volume ≡ pos 0
      → r.broker_order_id ≡ 0
      → d.next_id + 1 < u64_mod
      → Balances d
      → Balances (taken r d)
  taken-Balances r d z h lt v = record {
    unused = λ k le.
        simp
          (equals_ne (id_for r d) k
            (λ e. omega (arith, e, le, lt, id_for-next_id r d h, next_id-taken r d h lt)))
          (v.unused k (omega (arith, le, next_id-taken r d h lt)));
    matched = λ k. taken-matched r d k z h v;
  }
