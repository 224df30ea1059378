-- ===== src/MockTrader/Identifiers.antt =====
-- The broker order ids that `SendOrder` assigns.
use qtrade_client.Common.{
  ℕ, ◌+◌, ◌<◌, Bool, true, false, Option, none, some, List, [], ◌∷◌, ◌≡◌, ◌≢◌, refl, sym, subst,
  ◌∙◌, arith, nat_Eq, if◌then◌else◌, equals_refl, equals_ne,
}
use qtrade_client.Common.Dict.{lookup}
use qtrade_client.Common.Lists.{length}
use qtrade_client.Sdk.{ErrorCode}
use qtrade_client.Sdk.Trader.{Sdk, Order, OrderRequest}
use qtrade_client.MockTrader.{MockTraderApi, Handlers}
use qtrade_client.MockTrader.Orders.{u64_mod, chosen_id, counter_after, new_order, fill, send_order}
use qtrade_client.MockTrader.Sending.{IsSilent, Sent, send_order-Sent, fills, trade_of}

module _ {D : Type 0} where
  -- Requests that leave the choice of the id to the trader.
  abbrev pub AllAuto : List (OrderRequest D) → Type 0
  AllAuto [] = Unit
  AllAuto (r ∷ rs) = (r.broker_order_id ≡ 0) × AllAuto rs

  chosen_id-auto :
      (r : OrderRequest D) (s : MockTraderApi D)
      → r.broker_order_id ≡ 0
      → chosen_id r s ≡ s.next_broker_order_id
  unfolding chosen_id
  chosen_id-auto r s h = ground arith

  chosen_id-explicit :
      (r : OrderRequest D) (s : MockTraderApi D)
      → r.broker_order_id ≢ 0
      → chosen_id r s ≡ r.broker_order_id
  unfolding chosen_id
  chosen_id-explicit r s h = ground arith

  counter_after-auto :
      (r : OrderRequest D) (s : MockTraderApi D)
      → r.broker_order_id ≡ 0
      → s.next_broker_order_id + 1 < u64_mod
      → counter_after r s ≡ s.next_broker_order_id + 1
  unfolding counter_after
  counter_after-auto r s h lt = ground arith

  counter_after-explicit :
      (r : OrderRequest D) (s : MockTraderApi D)
      → r.broker_order_id ≢ 0
      → counter_after r s ≡ s.next_broker_order_id
  unfolding counter_after
  counter_after-explicit r s h = ground arith

  -- The table has an order under the id, and it is the request's.
  abbrev pub HoldsRequest : ℕ → OrderRequest D → MockTraderApi D → Type 0
  HoldsRequest id r s =
      (o : Order D) × (lookup id s.orders ≡ some o) × (o.client_order_id ≡ r.client_order_id)

  -- The requests stand under consecutive ids from `n`.
  abbrev pub Assigned : ℕ → List (OrderRequest D) → MockTraderApi D → Type 0
  Assigned n [] s = Unit
  Assigned n (r ∷ rs) s = HoldsRequest n r s × Assigned (n + 1) rs s

module _ {D W : Type 0} ⦃sdk : Sdk D⦄ (h : Handlers D W) where
  -- A client that sends requests one after the other.
  pub send_all : List (OrderRequest D) → MockTraderApi D → W → Option (MockTraderApi D × W)
  send_all [] s w = some (s, w)
  send_all (r ∷ rs) s w = elim (send_order h r s w) [
    | none ↦ none
    | some (e, s', w') ↦ send_all rs s' w'
  ]

module _ {D : Type 0} ⦃sdk : Sdk D⦄ where
  settled-client_order_id :
      (b : Bool) (r : OrderRequest D) (s : MockTraderApi D) (id : ℕ)
      → (if b then fill (trade_of r s) (new_order r id) else new_order r id).client_order_id
        ≡ r.client_order_id
  unfolding fill new_order
  settled-client_order_id true r s id = refl
  settled-client_order_id false r s id = refl

  Sent-HoldsRequest :
      (r : OrderRequest D) (s s' : MockTraderApi D)
      → Sent r s s'
      → HoldsRequest (chosen_id r s) r s'
  Sent-HoldsRequest r s s' sent = (
    if fills s
        then fill (trade_of r s) (new_order r (chosen_id r s))
        else new_order r (chosen_id r s),
    sent.0 (chosen_id r s) ∙ simp (equals_refl),
    settled-client_order_id (fills s) r s (chosen_id r s),
  )

  Sent-other :
      (r : OrderRequest D) (s s' : MockTraderApi D) (k : ℕ)
      → Sent r s s'
      → chosen_id r s ≢ k
      → lookup k s'.orders ≡ lookup k s.orders
  Sent-other r s s' k sent ne = sent.0 k ∙ simp (equals_ne (chosen_id r s) k ne)

  HoldsRequest-eq :
      (k : ℕ) (r : OrderRequest D) (s s' : MockTraderApi D)
      → lookup k s'.orders ≡ lookup k s.orders
      → HoldsRequest k r s
      → HoldsRequest k r s'
  HoldsRequest-eq k r s s' same (o, found, mine) = (o, same ∙ found, mine)

module _ {D W : Type 0} ⦃sdk : Sdk D⦄ where
  -- What a client that lets the trader choose finds behind its requests.
  abbrev pub AllSent :
      List (OrderRequest D) → MockTraderApi D → Option (MockTraderApi D × W) → Type 0
  AllSent rs s none = ⊥
  AllSent rs s (some (s', w')) =
      Assigned s.next_broker_order_id rs s'
      × ((k : ℕ) → k < s.next_broker_order_id → lookup k s'.orders ≡ lookup k s.orders)

  AllSent-cons :
      (r : OrderRequest D) (rs : List (OrderRequest D)) (s s₁ : MockTraderApi D)
      (o : Option (MockTraderApi D × W))
      → Sent r s s₁
      → chosen_id r s ≡ s.next_broker_order_id
      → s₁.next_broker_order_id ≡ s.next_broker_order_id + 1
      → AllSent rs s₁ o
      → AllSent (r ∷ rs) s o
  AllSent-cons r rs s s₁ none sent own next rest = rest
  AllSent-cons r rs s s₁ (some (s', w')) sent own next rest =
      let n = s.next_broker_order_id in
      let mine : HoldsRequest n r s₁ =
        subst (λ k. HoldsRequest k r s₁) own (Sent-HoldsRequest r s s₁ sent) in
      (
        (
          HoldsRequest-eq n r s₁ s' (rest.1 n (omega (arith, next))) mine,
          subst (λ k. Assigned k rs s') next rest.0,
        ),
        λ k lt. rest.1 k (omega (arith, next)) ∙ Sent-other r s s₁ k sent (omega (arith, own)),
      )

module _ {D W : Type 0} ⦃sdk : Sdk D⦄ (h : Handlers D W) (silent : IsSilent h) where
  -- With silent callbacks a connected trader gives requests that name no id consecutive ids from its
  -- counter: at the end each of them has its order under its own id, and no order below the counter has
  -- changed. The counter stays under 2 ^ 64 throughout.
  pub send_all-AllSent :
      (rs : List (OrderRequest D)) (s : MockTraderApi D) (w : W)
      → s.connected ≡ true
      → AllAuto rs
      → s.next_broker_order_id + length rs < u64_mod
      → AllSent rs s (send_all h rs s w)
  unfolding send_all
  send_all-AllSent [] s w link auto room = (tt, λ k lt. refl)
  send_all-AllSent (r ∷ rs) s w link auto room =
      let (s₁, w₁, sends, sent) = send_order-Sent h silent r s w link in
      let next : s₁.next_broker_order_id ≡ s.next_broker_order_id + 1 =
        sent.2 ∙ counter_after-auto r s auto.0 (omega arith) in
      rw (sends, send_all)
        (AllSent-cons r rs s s₁ _ sent (chosen_id-auto r s auto.0) next
          (send_all-AllSent rs s₁ w₁ (sent.3 ∙ link) auto.1 (omega (arith, next))))

  -- A request that names the counter's value as its id, and the next request without an id, get the same
  -- id: the second order takes the place of the first. Callbacks are silent, the trader is connected and
  -- its counter is not 0.
  pub send_order_collides :
      (r₁ r₂ : OrderRequest D) (s : MockTraderApi D) (w : W)
      → s.connected ≡ true
      → r₁.broker_order_id ≡ s.next_broker_order_id
      → s.next_broker_order_id ≢ 0
      → r₂.broker_order_id ≡ 0
      → (s₁ s₂ : MockTraderApi D) × (w₁ w₂ : W) × (send_order h r₁ s w
          ≡ some (ErrorCode.success, s₁, w₁))
        × HoldsRequest s.next_broker_order_id r₁ s₁
        × (send_order h r₂ s₁ w₁ ≡ some (ErrorCode.success, s₂, w₂))
        × HoldsRequest s.next_broker_order_id r₂ s₂
  send_order_collides r₁ r₂ s w link named nonzero auto =
      let (s₁, w₁, sends₁, sent₁) = send_order-Sent h silent r₁ s w link in
      let (s₂, w₂, sends₂, sent₂) = send_order-Sent h silent r₂ s₁ w₁ (sent₁.3 ∙ link) in
      let explicit : r₁.broker_order_id ≢ 0 = λ e. nonzero (sym named ∙ e) in
      let same : s₁.next_broker_order_id ≡ s.next_broker_order_id =
        sent₁.2 ∙ counter_after-explicit r₁ s explicit in
      (
        s₁,
        s₂,
        w₁,
        w₂,
        sends₁,
        subst (λ k. HoldsRequest k r₁ s₁) (chosen_id-explicit r₁ s explicit ∙ named)
            (Sent-HoldsRequest r₁ s s₁ sent₁),
        sends₂,
        subst (λ k. HoldsRequest k r₂ s₂) (chosen_id-auto r₂ s₁ auto ∙ same)
            (Sent-HoldsRequest r₂ s₁ s₂ sent₂),
      )
