-- ===== src/MockTrader/Numbering.antt =====
-- src/adapters/mock/trader/mock_trader_api.cpp: the numbers that the trader gives to orders and trades,
-- however calls and the calls that callbacks make interleave. Two threads in `SendOrder` at once are in
-- `Threads`.
use qtrade_client.Common.{
  String, ◌<>◌, ◌⊎◌, map, ℕ, zero, suc, ◌+◌, ◌<◌, ◌==◌, nat_Eq, ◌%◌, not, List, [], ◌∷◌, ◌++◌,
  Option, some, none, ◌≡◌, refl, sym, ap, ◌∙◌, arith, subst, if◌then◌else◌, Bool-cases, inl, inr,
}
use mathlib.Core.Path.{ap₂}
use mathlib.Core.List.{append-nil}
use mathlib.Core.Option.{some-injective}
use qtrade_client.Common.Lists.{length, length-++}
use qtrade_client.Sdk.Trader.{Sdk, Order, Trade, OrderRequest, CancelOrderRequest}
use qtrade_client.MockTrader.{MockTraderApi}
use qtrade_client.MockTrader.Orders.{
  u64_mod, to_string, chosen_id, counter_after, accept_order, new_order, make_trade, new_trade,
  fill_found, fill_order, cancel_found, done, cancel_stored,
}
use qtrade_client.MockTrader.Steps.{
  Setting, registers_spi, adjust, Step, accepted, traded, filled, cancelled, adjusted,
}

-- The numbers from `n` on, `k` of them.
abbrev pub from : (n k : ℕ) → List ℕ
from n zero = []
from n (suc k) = n ∷ from (n + 1) k

abbrev pub trade_text : ℕ → String
trade_text n = "MOCK-TRADE-" <> to_string n

-- A counter that stood at `m` stands at `m'`, and was used for the numbers `l`: for none, or for its value.
abbrev Takes : ℕ → ℕ → List ℕ → Type 0
Takes m m' l = ((l ≡ []) × (m' ≡ m)) ⊎ ((l ≡ m ∷ []) × (m' ≡ (m + 1) % u64_mod))

-- The numbers `l` are the first from `n` on, and the counter stands behind them.
abbrev Consecutive : ℕ → ℕ → List ℕ → Type 0
Consecutive n m l = (l ≡ from n (length l)) × (m ≡ n + length l)

map-++ : (l l' : List ℕ) → map trade_text (l ++ l') ≡ map trade_text l ++ map trade_text l'
map-++ [] l' = refl
map-++ (n ∷ l) l' = ap (λ x. trade_text n ∷ x) (map-++ l l')

length-map : (l : List ℕ) → length (map trade_text l) ≡ length l
length-map [] = refl
length-map (n ∷ l) = ap suc (length-map l)

from-suc : (n k : ℕ) → from n (suc k) ≡ from n k ++ ((n + k) ∷ [])
from-suc n zero = ap (λ m. m ∷ []) (omega arith)
from-suc n (suc k) =
    ap (λ l. n ∷ l) (from-suc (n + 1) k ∙ ap (λ m. from (n + 1) k ++ (m ∷ [])) (omega arith))

Consecutive-Takes :
    (n m m' : ℕ) (l l' : List ℕ)
    → Consecutive n m l
    → Takes m m' l'
    → n + length (l ++ l') < u64_mod
    → Consecutive n m' (l ++ l')
Consecutive-Takes n m m' l l' (is, at) (inl (e, q)) lt =
    subst (Consecutive n m') (sym (append-nil l) ∙ ap (λ x. l ++ x) (sym e)) (is, q ∙ at)
Consecutive-Takes n m m' l l' (is, at) (inr (e, q)) lt =
    let longer : length (l ++ l') ≡ suc (length l) = omega (arith, length-++ l l', ap length e) in
    (
      ap (λ x. l ++ x) e
          ∙ ap₂ (λ a b. a ++ (b ∷ [])) is at
          ∙ sym (from-suc n (length l))
          ∙ ap (from n) (sym longer),
      omega (arith, q, at, longer, lt),
    )

module _ {D : Type 0} where
  record SameCounters (s t : MockTraderApi D) : Type 0 where
    ids : t.next_broker_order_id ≡ s.next_broker_order_id
    trades : t.next_trade_id ≡ s.next_trade_id

  adjust-SameCounters : (c : Setting) (s : MockTraderApi D) → SameCounters s (adjust c s)
  unfolding adjust
  adjust-SameCounters (registers_spi t) s = ground arith
  adjust-SameCounters _ s = ground arith

module _ {D : Type 0} ⦃sdk : Sdk D⦄ where
  -- The id that a step gives to an order whose request leaves it to the trader, and the number in the id of
  -- the trade that a step makes.
  abbrev pub id_taken : {s t : MockTraderApi D} → Step s t → List ℕ
  id_taken {s} (accepted r e) =
      if not (r.broker_order_id == 0) then [] else (accept_order r s).0.broker_order_id ∷ []
  id_taken _ = []

  abbrev pub trades_made : {s t : MockTraderApi D} → Step s t → List String
  trades_made {s} (traded r id e) = (make_trade r id s).0.trade_id ∷ []
  trades_made _ = []

  -- Steps in any order, with the ids that they gave to orders and to trades.
  pub data Handing (s : MockTraderApi D) : MockTraderApi D → List ℕ → List String → Type 0 where
    none_yet : Handing s s [] []
    hands :
        {t u : MockTraderApi D} {ids : List ℕ} {texts : List String}
        → Handing s t ids texts
        → (st : Step t u) → Handing s u (ids ++ id_taken st) (texts ++ trades_made st)

  taken_or_not :
      (r : OrderRequest D) (s : MockTraderApi D)
      → Takes s.next_broker_order_id
          (accept_order r s).1.next_broker_order_id
          (if not (r.broker_order_id == 0) then [] else (accept_order r s).0.broker_order_id ∷ [])
  unfolding accept_order new_order chosen_id counter_after
  taken_or_not r s = elim (Bool-cases (r.broker_order_id == 0)) [
    | inl e ↦ simp e (inr (refl, refl))
    | inr e ↦ simp e (inl (refl, refl))
  ]

  fill_found-SameCounters :
      (id : ℕ) (tr : Trade D) (s t : MockTraderApi D) (o : Option (Order D))
      → fill_found id tr s o ≡ some t
      → SameCounters s t
  fill_found-SameCounters id tr s t none e = cc
  fill_found-SameCounters id tr s t (some o) e =
      rw (← some-injective _ _ e) (record { ids = refl; trades = refl })

  cancel_found-SameCounters :
      (r : CancelOrderRequest) (s t : MockTraderApi D) (c : Order D) (o : Option (Order D))
      → cancel_found r s o ≡ done c t
      → SameCounters s t
  cancel_found-SameCounters r s t c none e = cc
  cancel_found-SameCounters r s t c (some o) e = ground arith

  -- What a step does to the counter of ids.
  id-Takes :
      {s t : MockTraderApi D} (st : Step s t)
      → Takes s.next_broker_order_id t.next_broker_order_id (id_taken st)
  unfolding make_trade fill_order cancel_stored
  id-Takes {s} (accepted r e) = rw e (taken_or_not r s)
  id-Takes {s} (traded r id e) = rw e (inl (refl, refl))
  id-Takes {s} {t} (filled r id i e) = inl (refl, (fill_found-SameCounters id _ s t _ e).ids)
  id-Takes {s} {t} (cancelled r o e) = inl (refl, (cancel_found-SameCounters r s t o _ e).ids)
  id-Takes {s} (adjusted c e) = rw e (inl (refl, (adjust-SameCounters c s).ids))

  -- The trades that a step makes have the number that the counter stands at.
  trade-Takes :
      {s t : MockTraderApi D} (st : Step s t)
      → (l : List ℕ) × (trades_made st ≡ map trade_text l) × Takes s.next_trade_id t.next_trade_id l
  unfolding make_trade new_trade accept_order fill_order cancel_stored
  trade-Takes {s} (accepted r e) = ([], refl, rw e (inl (refl, refl)))
  trade-Takes {s} (traded r id e) = (s.next_trade_id ∷ [], refl, rw e (inr (refl, refl)))
  trade-Takes {s} {t} (filled r id i e) =
      ([], refl, inl (refl, (fill_found-SameCounters id _ s t _ e).trades))
  trade-Takes {s} {t} (cancelled r o e) =
      ([], refl, inl (refl, (cancel_found-SameCounters r s t o _ e).trades))
  trade-Takes {s} (adjusted c e) = ([], refl, rw e (inl (refl, (adjust-SameCounters c s).trades)))

  -- The counters stand behind the numbers that were given.
  abbrev Given : (s t : MockTraderApi D) → List ℕ → List String → Type 0
  Given s t ids texts =
      Consecutive s.next_broker_order_id t.next_broker_order_id ids
      × ((l : List ℕ) × (texts ≡ map trade_text l) × Consecutive s.next_trade_id t.next_trade_id l)

  Handing-Given :
      {s t : MockTraderApi D} {ids : List ℕ} {texts : List String}
      → Handing s t ids texts
      → s.next_broker_order_id + length ids < u64_mod
      → s.next_trade_id + length texts < u64_mod
      → Given s t ids texts
  Handing-Given none_yet lt lt' = ((refl, omega arith), ([], refl, (refl, omega arith)))
  Handing-Given (hands {ids} {texts} h st) lt lt' =
      let (at, (l, made, at')) =
        Handing-Given h (omega (arith, lt, length-++ ids (id_taken st)))
          (omega (arith, lt', length-++ texts (trades_made st))) in
      let (l', made', takes) = trade-Takes st in
      let joined : texts ++ trades_made st ≡ map trade_text (l ++ l') =
        ap₂ (λ a b. a ++ b) made made' ∙ sym (map-++ l l') in
      (
        Consecutive-Takes _ _ _ ids (id_taken st) at (id-Takes st) lt,
        (
          l ++ l',
          joined,
          Consecutive-Takes _ _ _ l l' at' takes
              (omega (arith, lt', ap length joined, length-map (l ++ l'))),
        ),
      )

  -- In whatever order steps come, as long as neither counter comes to 2 ^ 64: the ids that the trader chose
  -- for orders are the consecutive numbers from its counter on, and the trades that it made have the
  -- consecutive numbers from theirs on, so that none is given twice.
  pub Handing-Consecutive :
      (s t : MockTraderApi D) (ids : List ℕ) (texts : List String)
      → Handing s t ids texts
      → s.next_broker_order_id + length ids < u64_mod
      → s.next_trade_id + length texts < u64_mod
      → (ids ≡ from s.next_broker_order_id (length ids))
        × (texts ≡ map trade_text (from s.next_trade_id (length texts)))
  Handing-Consecutive s t ids texts h lt lt' =
      let (at, (l, made, at')) = Handing-Given h lt lt' in
      let same : length l ≡ length texts = sym (ap length made ∙ length-map l) in
      (at.0, made ∙ ap (map trade_text) (at'.0 ∙ ap (from s.next_trade_id) same))
