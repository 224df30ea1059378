-- ===== src/MockTrader/TradeIds.antt =====
-- src/adapters/mock/trader/mock_trader_api.cpp: the ids of the trades that a trader makes.
use qtrade_client.Common.{
  ℕ, suc, ◌+◌, ◌%◌, ◌≤◌, ◌<◌, ◌<>◌, List, [], ◌∷◌, ◌≡◌, ◌≢◌, refl, sym, ◌∙◌, arith, subst,
}
use text.Mathlib.TextLemmas.{append_cancel_left}
use qtrade_client.Common.Lists.{length}
use qtrade_client.Sdk.Trader.{Sdk, Trade, OrderRequest}
use qtrade_client.MockTrader.{MockTraderApi}
use qtrade_client.MockTrader.Orders.{make_trade, new_trade, to_string, u64_mod}
use qtrade_client.MockTrader.Texts.{to_string_injective}

abbrev pub All : {A : Type 0} → (A → Type 0) → List A → Type 0
All P [] = Unit
All P (a ∷ rest) = P a × All P rest

after : (n m : ℕ) → n + suc m < u64_mod → (n + 1) % u64_mod ≡ n + 1
after n m lt = omega (arith, lt)

module _ {D : Type 0} where
  -- No two of the trades have the same id.
  abbrev pub DistinctIds : List (Trade D) → Type 0
  DistinctIds [] = Unit
  DistinctIds (t ∷ ts) = All (λ u. t.trade_id ≢ u.trade_id) ts × DistinctIds ts

  -- The id of the trade is made from a counter in these bounds.
  abbrev Numbered : ℕ → Trade D → Type 0
  Numbered lo t = (k : ℕ) × (lo ≤ k) × (k < u64_mod) × (t.trade_id ≡ "MOCK-TRADE-" <> to_string k)

module _ {D : Type 0} ⦃sdk : Sdk D⦄ where
  -- The trades of requests that are filled one after the other.
  unfoldable pub make_trades : List (OrderRequest D × ℕ) → MockTraderApi D → List (Trade D)
  unfolding make_trade
  make_trades [] s = []
  make_trades ((r, id) ∷ rs) s = let (t, s') = make_trade r id s in t ∷ make_trades rs s'

  below :
      (lo lo' : ℕ) (ts : List (Trade D)) → lo ≤ lo' → All (Numbered lo') ts → All (Numbered lo) ts
  below lo lo' [] le all = tt
  below lo lo' (t ∷ ts) le ((k, from, to, id), all) =
      ((k, omega (arith, le, from), to, id), below lo lo' ts le all)

  make_trades-Numbered :
      (rs : List (OrderRequest D × ℕ)) (s : MockTraderApi D)
      → s.next_trade_id + length rs < u64_mod
      → All (Numbered s.next_trade_id) (make_trades rs s)
  unfolding make_trades new_trade
  make_trades-Numbered [] s lt = tt
  make_trades-Numbered ((r, id) ∷ rs) s lt =
      let next = after s.next_trade_id (length rs) lt in
      let rest = make_trades-Numbered rs (make_trade r id s).1 (omega (arith, lt, next)) in
      (
        (s.next_trade_id, omega arith, omega (arith, lt), refl),
        below s.next_trade_id (s.next_trade_id + 1) _ (omega arith)
            (subst (λ n. All (Numbered n) (make_trades rs (make_trade r id s).1)) next rest),
      )

  unlike :
      (n : ℕ) (t : Trade D) (ts : List (Trade D))
      → n < u64_mod
      → t.trade_id ≡ "MOCK-TRADE-" <> to_string n
      → All (Numbered (n + 1)) ts
      → All (λ u. t.trade_id ≢ u.trade_id) ts
  unlike n t [] lt id all = tt
  unlike n t (u ∷ us) lt id ((k, from, to, id'), all) = (
    λ same.
        let texts =
          append_cancel_left "MOCK-TRADE-" (to_string n) (to_string k) (sym id ∙ same ∙ id') in
        absurd (omega (arith, from, to_string_injective n k lt to texts)),
    unlike n t us lt id all,
  )

  -- As long as the counter of trades does not come to 2 ^ 64, all trades that a trader makes one after the
  -- other, for any requests and orders, have different ids.
  pub make_trades-DistinctIds :
      (rs : List (OrderRequest D × ℕ)) (s : MockTraderApi D)
      → s.next_trade_id + length rs < u64_mod
      → DistinctIds (make_trades rs s)
  unfolding make_trades new_trade
  make_trades-DistinctIds [] s lt = tt
  make_trades-DistinctIds ((r, id) ∷ rs) s lt =
      let next = after s.next_trade_id (length rs) lt in
      let fits : (make_trade r id s).1.next_trade_id + length rs < u64_mod =
        omega (arith, lt, next) in
      (
        unlike s.next_trade_id (make_trade r id s).0 _ (omega (arith, lt)) refl (
            subst (λ n. All (Numbered n) (make_trades rs (make_trade r id s).1)) next
              (make_trades-Numbered rs (make_trade r id s).1 fits)),
        make_trades-DistinctIds rs (make_trade r id s).1 fits,
      )
