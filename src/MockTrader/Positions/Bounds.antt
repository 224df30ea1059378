-- ===== src/MockTrader/Positions/Bounds.antt =====
-- `QueryPositions` of src/adapters/mock/trader/mock_trader_api.cpp adds volumes without a test for
-- overflow: how large its running totals and its answer can become.
use qtrade_client.Common.{
  ℕ, ◌+◌, ◌≤◌, String, true, List, [], ◌∷◌, ◌++◌, ◌≡◌, refl, ap, ◌∙◌, arith, string_Eq, ◌==◌,
  if◌then◌else◌, Bool-cases, inl, inr,
}
use qtrade_client.Common.Int.{ℤ, pos, ◌+ℤ◌, neg, abs, zero-+ℤ}
use qtrade_client.Common.Dict.{lookup}
use qtrade_client.Sdk.Trader.{Sdk, Trade, Position, SideType, PositionDirectionType}
use qtrade_client.MockTrader.{MockTraderApi}
use qtrade_client.MockTrader.Queries.{signed_volume, position_at, net_positions, query_positions}
use qtrade_client.MockTrader.Responses.{Listed}
use qtrade_client.MockTrader.Positions.{asks, net_volume, signed, total_at, net_positions-total}
use qtrade_client.MockTrader.Positions.Answer.{query_positions-IsNet}

abs-neg : (v : ℤ) → abs (neg v) ≡ abs v
unfolding neg
abs-neg v = ground arith

abs-+ℤ : (a b : ℤ) → abs (a +ℤ b) ≤ abs a + abs b
unfolding ◌+ℤ◌
abs-+ℤ a b = ground arith

abs-signed : (p : Position) → abs (signed p) ≡ abs p.total_volume
abs-signed p =
    elim p.direction
      as (λ d.
        abs (elim d [ PositionDirectionType.short ↦ neg p.total_volume | _ ↦ p.total_volume ])
        ≡ abs p.total_volume) [
          | PositionDirectionType.short ↦ abs-neg p.total_volume
          | PositionDirectionType.net ↦ refl
          | PositionDirectionType.long ↦ refl
          | PositionDirectionType.other n ↦ refl
        ]

module _ {D : Type 0} where
  -- The sizes of all traded volumes of an instrument together.
  abbrev pub gross_volume : String → List (Trade D) → ℕ
  gross_volume i [] = 0
  gross_volume i (t ∷ ts) =
      if t.instrument == i then abs t.volume + gross_volume i ts else gross_volume i ts

  abs-signed_volume : (t : Trade D) → abs (signed_volume t) ≡ abs t.volume
  unfolding signed_volume
  abs-signed_volume t =
      elim t.side
        as (λ d.
          abs (elim d [ SideType.buy ↦ t.volume | SideType.other n ↦ neg t.volume ])
          ≡ abs t.volume) [ SideType.buy ↦ refl | SideType.other n ↦ abs-neg t.volume ]

  net_volume-bound : (i : String) (ts : List (Trade D)) → abs (net_volume i ts) ≤ gross_volume i ts
  net_volume-bound i [] = omega arith
  net_volume-bound i (t ∷ ts) = elim (Bool-cases (t.instrument == i)) [
    | inl q ↦ simp q (
        omega (
          arith,
          net_volume-bound i ts,
          abs-signed_volume t,
          abs-+ℤ (signed_volume t) (net_volume i ts),
        ))
    | inr q ↦ simp q (net_volume-bound i ts)
  ]

  gross_volume-prefix :
      (i : String) (ts us : List (Trade D)) → gross_volume i ts ≤ gross_volume i (ts ++ us)
  gross_volume-prefix i [] us = omega arith
  gross_volume-prefix i (t ∷ ts) us = elim (Bool-cases (t.instrument == i)) [
    | inl q ↦ simp q (omega (arith, gross_volume-prefix i ts us))
    | inr q ↦ simp q (gross_volume-prefix i ts us)
  ]

module _ {D : Type 0} ⦃sdk : Sdk D⦄ where
  running-bound :
      (instrument i : String) (ts us : List (Trade D))
      → sdk.position_default.total_volume ≡ pos 0
      → asks instrument i ≡ true
      → abs (total_at sdk.position_default i (net_positions sdk.position_default instrument ts []))
        ≤ gross_volume i (ts ++ us)
  unfolding position_at ◌+ℤ◌ lookup
  running-bound instrument i ts us z asked =
      let total =
        net_positions-total sdk.position_default instrument i ts [] asked
        ∙ ap (λ x. x +ℤ net_volume i ts) z
        ∙ zero-+ℤ (net_volume i ts) in
      rw total (omega (arith, net_volume-bound i ts, gross_volume-prefix i ts us))

  -- For every position in the answer of `QueryPositions`, and at every point of the loop that adds up its
  -- instrument: the running total is at most the gross volume of the instrument's trades in size, and so is
  -- the volume in the answer. No addition and no negation overflows in a type that holds the gross volume.
  -- The volume of a `Position` that nobody wrote to is 0.
  pub query_positions-bound :
      (instrument : String) (s : MockTraderApi D) (p : Position) (ts us : List (Trade D))
      → sdk.position_default.total_volume ≡ pos 0
      → Listed p (query_positions instrument s).1
      → s.trades ≡ ts ++ us
      → let running = net_positions sdk.position_default instrument ts [] in
        (abs (total_at sdk.position_default p.instrument running)
          ≤ gross_volume p.instrument s.trades)
        × (abs p.total_volume ≤ gross_volume p.instrument s.trades)
  query_positions-bound instrument s p ts us z listed e =
      let net = query_positions-IsNet instrument s p z listed in
      let prefix = running-bound instrument p.instrument ts us z net.0 in
      (
        rw e prefix,
        omega (arith, net_volume-bound p.instrument s.trades, ap abs net.2, abs-signed p),
      )
