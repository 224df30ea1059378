-- ===== src/MockTrader/Threads.antt =====
-- `SendOrder` of src/adapters/mock/trader/mock_trader_api.cpp on several threads, up to the end of its
-- first critical section. It moves `next_broker_order_id_` without the mutex, and the counter is not
-- atomic: the read and the write are moves of their own. The requests leave the id to the trader.
use qtrade_client.Common.{
  ℕ, ◌+◌, ◌%◌, ◌==◌, nat_Eq, List, [], ◌∷◌, Option, some, none, ◌≡◌, ◌≢◌, refl, sym, if◌then◌else◌,
  equals_refl, equals_ne,
}
use qtrade_client.Common.Dict.{lookup, insert, lookup-insert_self}
use qtrade_client.Sdk.Trader.{Sdk, OrderRequest}
use qtrade_client.MockTrader.{MockTraderApi}
use qtrade_client.MockTrader.Orders.{u64_mod, chosen_id, counter_after, new_order, accept_order}

-- Where a thread stands in `SendOrder`: it has read the counter, or written it, or stored its order.
pub data Place (D : Type 0) : Type 0 where
  has_read has_written has_stored : OrderRequest D → ℕ → Place D

pub record Threads (D : Type 0) : Type 0 where
  pub api : MockTraderApi D
  pub places : ℕ → Option (Place D)

pub data Event (D : Type 0) : Type 0 where
  reads : ℕ → OrderRequest D → Event D
  writes stores : ℕ → Event D

module _ {D : Type 0} ⦃sdk : Sdk D⦄ where
  -- The value of `next_broker_order_id_++`,
  abbrev pub read_id : MockTraderApi D → ℕ
  read_id s = s.next_broker_order_id

  -- its effect,
  abbrev pub write_id : ℕ → MockTraderApi D → MockTraderApi D
  write_id id s = record s { next_broker_order_id = (id + 1) % u64_mod }

  -- and the critical section.
  abbrev pub store_order : OrderRequest D → ℕ → MockTraderApi D → MockTraderApi D
  store_order r id s = record s { orders = insert id (new_order r id) s.orders }

  -- Without a break, the three make the whole.
  pub store_order-accept_order :
      (r : OrderRequest D) (s : MockTraderApi D)
      → r.broker_order_id ≡ 0
      → store_order r (read_id s) (write_id (read_id s) s) ≡ (accept_order r s).1
  unfolding accept_order chosen_id counter_after
  store_order-accept_order r s h = simp h

  abbrev pub put : ℕ → Place D → MockTraderApi D → Threads D → Threads D
  put n p api t = record { api = api; places = λ m. if n == m then some p else t.places m }

  -- `none` is an event that cannot come now.
  abbrev pub written : ℕ → Threads D → Option (Place D) → Option (Threads D)
  written n t (some (has_read r id)) = some (put n (has_written r id) (write_id id t.api) t)
  written n t _ = none

  abbrev pub stored : ℕ → Threads D → Option (Place D) → Option (Threads D)
  stored n t (some (has_written r id)) = some (put n (has_stored r id) (store_order r id t.api) t)
  stored n t _ = none

  unfoldable pub happen : Event D → Threads D → Option (Threads D)
  happen (reads n r) t =
      if r.broker_order_id == 0 then some (put n (has_read r (read_id t.api)) t.api t) else none
  happen (writes n) t = written n t (t.places n)
  happen (stores n) t = stored n t (t.places n)

  abbrev pub then_run : (Threads D → Option (Threads D)) → Option (Threads D) → Option (Threads D)
  then_run f none = none
  then_run f (some t) = f t

  unfoldable pub run : List (Event D) → Threads D → Option (Threads D)
  unfolding happen
  run [] t = some t
  run (e ∷ es) t = then_run (run es) (happen e t)

  -- Both threads read before either writes.
  abbrev pub both_read : (m n : ℕ) → (q r : OrderRequest D) → List (Event D)
  both_read m n q r = reads m q ∷ reads n r ∷ writes m ∷ writes n ∷ stores m ∷ stores n ∷ []

  -- Two threads that both read the counter before either of them has written it store their orders under
  -- one id, so that the second order replaces the first, and the counter moves by one only. The requests
  -- leave their ids to the trader.
  pub threads_share_id :
      (m n : ℕ) (q r : OrderRequest D) (s : Threads D)
      → m ≢ n
      → q.broker_order_id ≡ 0
      → r.broker_order_id ≡ 0
      → let id = s.api.next_broker_order_id in
        (t : Threads D) × (run (both_read m n q r) s ≡ some t)
        × (t.places m ≡ some (has_stored q id))
        × (t.places n ≡ some (has_stored r id))
        × (lookup id t.api.orders ≡ some (new_order r id))
        × (t.api.next_broker_order_id ≡ (id + 1) % u64_mod)
  unfolding run happen
  threads_share_id m n q r s ne h h' =
      let id = s.api.next_broker_order_id in
      let t₂ = put n (has_read r id) s.api (put m (has_read q id) s.api s) in
      let t₃ = put m (has_written q id) (write_id id s.api) t₂ in
      let t₄ = put n (has_written r id) (write_id id t₃.api) t₃ in
      let t₅ = put m (has_stored q id) (store_order q id t₄.api) t₄ in
      let t₆ = put n (has_stored r id) (store_order r id t₅.api) t₅ in
      (
        t₆,
        simp (h, h', equals_refl, equals_ne m n ne, equals_ne n m (λ e. ne (sym e))),
        simp (equals_refl, equals_ne n m (λ e. ne (sym e))),
        simp equals_refl,
        lookup-insert_self id _ _,
        refl,
      )
