-- ===== src/MockTrader/Finality.antt =====
-- src/adapters/mock/trader/mock_trader_api.cpp: an order that was filled stays filled.
use qtrade_client.Common.{
  ℕ, true, false, Option, some, none, ◌≡◌, ◌≢◌, refl, sym, subst, ap, ◌∙◌, ◌==◌, nat_Eq, Bool-cases,
  inl, inr,
}
use mathlib.Core.Option.{some-injective}
use qtrade_client.Common.Int.{ℤ, pos}
use qtrade_client.Common.Dict.{lookup, insert, lookup-insert}
use qtrade_client.Sdk.Trader.{Sdk, Order, Trade, CancelOrderRequest, OrderStatusType}
use qtrade_client.MockTrader.{MockTraderApi}
use qtrade_client.MockTrader.Orders.{
  chosen_id, accept_order, make_trade, fill, fill_found, fill_order, cancel, cancel_found, done,
  cancel_stored, is_final,
}
use qtrade_client.MockTrader.Consistency.{cancelled_state}
use qtrade_client.MockTrader.Steps.{
  Step, accepted, traded, filled, cancelled, adjusted, Reach, here, next, adjust-SameBook,
}

module _ {D : Type 0} where
  -- An order over `v` that was traded in full.
  abbrev pub IsFilled : ℤ → Option (Order D) → Type 0
  IsFilled v none = ⊥
  IsFilled v (some o) =
      (o.status ≡ OrderStatusType.filled)
      × (o.volume ≡ v)
      × (o.traded_volume ≡ v)
      × (o.left_volume ≡ pos 0)

  fill-IsFilled :
      (v : ℤ) (t : Trade D) (o : Order D) → IsFilled v (some o) → IsFilled v (some (fill t o))
  unfolding fill
  fill-IsFilled v t o (st, vol, tr, left) = (refl, vol, vol, refl)

  insert-IsFilled :
      (v : ℤ) (id k : ℕ) (s : MockTraderApi D) (o : Order D)
      → (id == k ≡ true → IsFilled v (some o))
      → IsFilled v (lookup k s.orders)
      → IsFilled v (lookup k (insert id o s.orders))
  insert-IsFilled v id k s o new old =
      rw lookup-insert (elim (Bool-cases (id == k)) [ inl q ↦ rw q (new q) | inr q ↦ rw q old ])

  -- The order that an operation on `id` finds, if `k` is that id.
  found_there :
      (v : ℤ) (id k : ℕ) (s : MockTraderApi D) (o : Order D)
      → lookup id s.orders ≡ some o
      → id == k ≡ true
      → IsFilled v (lookup k s.orders)
      → IsFilled v (some o)
  found_there v id k s o e q h =
      subst (IsFilled v) (ap (λ i. lookup i s.orders) (sym ((nat_Eq.equals_iff id k).0 q)) ∙ e) h

  fill_found-IsFilled :
      (v : ℤ) (id k : ℕ) (tr : Trade D) (s t : MockTraderApi D) (o : Option (Order D))
      → lookup id s.orders ≡ o
      → fill_found id tr s o ≡ some t
      → IsFilled v (lookup k s.orders)
      → IsFilled v (lookup k t.orders)
  fill_found-IsFilled v id k tr s t none found e h = cc
  fill_found-IsFilled v id k tr s t (some o) found e h = rw (← some-injective _ _ e) (
      insert-IsFilled v id k s (fill tr o)
        (λ q. fill-IsFilled v tr o (found_there v id k s o found q h)) h)

  not_final : (o : Order D) → is_final o.status ≡ false → o.status ≢ OrderStatusType.filled
  unfolding is_final
  not_final o open_status e = cc (simp e at open_status)

module _ {D : Type 0} ⦃sdk : Sdk D⦄ where
  cancel_found-IsFilled :
      (v : ℤ) (k : ℕ) (r : CancelOrderRequest) (s t : MockTraderApi D) (c : Order D)
      (o : Option (Order D))
      → lookup r.broker_order_id s.orders ≡ o
      → cancel_found r s o ≡ done c t
      → IsFilled v (lookup k s.orders)
      → IsFilled v (lookup k t.orders)
  cancel_found-IsFilled v k r s t c none found e h = cc
  cancel_found-IsFilled v k r s t c (some o) found e h =
      let (open_status, left, _) = cancelled_state r s t c o e in
      rw left (
        insert-IsFilled v r.broker_order_id k s (cancel r o)
          (λ q.
            absurd (not_final o open_status (found_there v r.broker_order_id k s o found q h).0))
          h)

  -- No request takes the id `k`.
  abbrev pub Spares : {s t : MockTraderApi D} → ℕ → Step s t → Type 0
  Spares {s} k (accepted r e) = chosen_id r s ≢ k
  Spares k _ = Unit

  abbrev pub SparesAll : {s t : MockTraderApi D} → ℕ → Reach s t → Type 0
  SparesAll k here = Unit
  SparesAll k (next reach st) = SparesAll k reach × Spares k st

  Step-IsFilled :
      (v : ℤ) (k : ℕ) {s t : MockTraderApi D} (st : Step s t)
      → Spares k st
      → IsFilled v (lookup k s.orders)
      → IsFilled v (lookup k t.orders)
  unfolding accept_order make_trade fill_order cancel_stored
  Step-IsFilled v k {s} (accepted r e) spares h = rw e (
      insert-IsFilled v (chosen_id r s) k s _ (λ q. absurd (spares ((nat_Eq.equals_iff _ k).0 q)))
        h)
  Step-IsFilled v k {s} (traded r id e) spares h = rw e h
  Step-IsFilled v k {s} {t} (filled r id i e) spares h = fill_found-IsFilled v id k _ s t _ refl e h
  Step-IsFilled v k {s} {t} (cancelled r o e) spares h =
      cancel_found-IsFilled v k r s t o _ refl e h
  Step-IsFilled v k {s} (adjusted c e) spares h = rw (e, (adjust-SameBook c s).orders) h

  -- An order that was traded in full stays so, over the same volume, whatever steps come, fills and
  -- cancellations of its own id too, as long as no request takes its id.
  pub Reach-IsFilled :
      (v : ℤ) (k : ℕ) {s t : MockTraderApi D} (reach : Reach s t)
      → SparesAll k reach
      → IsFilled v (lookup k s.orders)
      → IsFilled v (lookup k t.orders)
  Reach-IsFilled v k here spares h = h
  Reach-IsFilled v k (next reach st) (before, now) h =
      Step-IsFilled v k st now (Reach-IsFilled v k reach before h)
