-- ===== src/MockTrader/Positions.antt =====
-- The first loop of `QueryPositions`, in src/adapters/mock/trader/mock_trader_api.cpp.
pub mod Answer
pub mod Bounds
use qtrade_client.Common.{
  ℕ, String, Bool, true, false, not, ◌&&◌, ◌||◌, Option, none, some, List, [], ◌∷◌, ◌≡◌, ◌≢◌, ◌⊎◌,
  inl, inr, refl, sym, subst, ap, arith, string_Eq, ◌==◌, is_empty, is_some, if◌then◌else◌,
  Bool-cases, ◌∙◌, Option-cases, equals_refl,
}
use text.Mathlib.TextEquality.{eq_iff}
use qtrade_client.Common.Int.{
  ℤ, pos, negsuc, ◌+ℤ◌, neg, is_negative, +ℤ_assoc, +ℤ-zero, zero-+ℤ, int_laws, neg-negsuc,
}
use qtrade_client.Common.Dict.{
  Dict, lookup, insert, NodupKeys, insert-NodupKeys, lookup-insert, insert_cases, Holds, Holds-iff,
}
use qtrade_client.Sdk.{ErrorCode}
use qtrade_client.Sdk.Trader.{Sdk, Trade, Position, SideType, PositionDirectionType}
use qtrade_client.MockTrader.{MockTraderApi}
use qtrade_client.MockTrader.Queries.{
  signed_volume, add_trade, close_position, close_positions, position_at, skips_position,
  net_positions, query_positions,
}
use qtrade_client.MockTrader.Responses.{Listed}

-- The request's instrument is empty, or is this one.
abbrev pub asks : String → String → Bool
asks instrument i = is_empty instrument || (instrument == i)

module _ {D : Type 0} where
  -- The bought volumes of an instrument less the other volumes.
  abbrev pub net_volume : String → List (Trade D) → ℤ
  net_volume i [] = pos 0
  net_volume i (t ∷ ts) =
      if t.instrument == i then signed_volume t +ℤ net_volume i ts else net_volume i ts

  abbrev pub is_traded : String → List (Trade D) → Bool
  is_traded i [] = false
  is_traded i (t ∷ ts) = (t.instrument == i) || is_traded i ts

-- A position as a signed volume.
abbrev pub signed : Position → ℤ
signed p = elim p.direction [
  | PositionDirectionType.short ↦ neg p.total_volume
  | _ ↦ p.total_volume
]

position_at-insert :
    (fresh : Position) (i k : String) (p : Position) (d : Dict String Position)
    → position_at fresh i (insert k p d) ≡ (if k == i then p else position_at fresh i d)
unfolding position_at
position_at-insert fresh i k p d =
    rw (lookup-insert, position_at) (elim (Bool-cases (k == i)) [ inl q ↦ simp q | inr q ↦ simp q ])

abbrev pub total_at : Position → String → Dict String Position → ℤ
total_at fresh i d = (position_at fresh i d).total_volume

add_volume :
    (b : Bool) (x v n : ℤ) → (if b then x +ℤ v else x) +ℤ n ≡ x +ℤ (if b then v +ℤ n else n)
add_volume true x v n = +ℤ_assoc x v n
add_volume false x v n = refl

-- Each entry stands under its own instrument.
abbrev pub OwnName : String → Option Position → Type 0
OwnName i none = Unit
OwnName i (some p) = p.instrument ≡ i

or_and : (x a b c : Bool) → (x || (a && b) || (a && c)) ≡ (x || (a && (b || c)))
or_and x a b c = ground arith

module _ {D : Type 0} where
  total_at-add_trade :
      (fresh : Position) (t : Trade D) (i : String) (d : Dict String Position)
      → total_at fresh i (insert t.instrument (add_trade t (position_at fresh t.instrument d)) d)
        ≡ (if t.instrument == i then total_at fresh i d +ℤ signed_volume t else total_at fresh i d)
  unfolding add_trade
  total_at-add_trade fresh t i d =
      ap (λ (p : Position). p.total_volume) (position_at-insert fresh i t.instrument _ d)
      ∙ elim (Bool-cases (t.instrument == i)) [
        | inl q ↦
            simp q (ap (λ k. total_at fresh k d +ℤ signed_volume t) ((eq_iff t.instrument i).0 q))
        | inr q ↦ simp q
      ]

  skipped-ne :
      (instrument i : String) (t : Trade D)
      → skips_position instrument t ≡ true
      → asks instrument i ≡ true
      → (t.instrument == i) ≡ false
  unfolding skips_position
  skipped-ne instrument i t h k =
      ground (arith, eq_iff instrument t.instrument, eq_iff instrument i, eq_iff t.instrument i)

  -- The first loop adds up the signed volumes.
  pub net_positions-total :
      (fresh : Position) (instrument i : String) (ts : List (Trade D)) (d : Dict String Position)
      → asks instrument i ≡ true
      → total_at fresh i (net_positions fresh instrument ts d)
        ≡ total_at fresh i d +ℤ net_volume i ts
  unfolding net_positions
  net_positions-total fresh instrument i [] d h = sym (+ℤ-zero _)
  net_positions-total fresh instrument i (t ∷ ts) d h =
      elim (Bool-cases (skips_position instrument t)) [
        | inl q ↦
            simp (q, skipped-ne instrument i t q h) (net_positions-total fresh instrument i ts d h)
        | inr q ↦ simp q (
            net_positions-total fresh instrument i ts _ h
            ∙ ap (λ x. x +ℤ net_volume i ts) (total_at-add_trade fresh t i d)
            ∙ add_volume (t.instrument == i) _ _ _)
      ]

  -- The table behind one round.
  abbrev step : Position → String → Trade D → Dict String Position → Dict String Position
  step fresh instrument t d =
      if skips_position instrument t
      then d
      else insert t.instrument (add_trade t (position_at fresh t.instrument d)) d

  step-has :
      (fresh : Position) (instrument i : String) (t : Trade D) (d : Dict String Position)
      → is_some (lookup i (step fresh instrument t d))
        ≡ (is_some (lookup i d) || (asks instrument i && (t.instrument == i)))
  unfolding skips_position
  step-has fresh instrument i t d = ground (
    arith,
    eq_iff instrument t.instrument,
    eq_iff instrument i,
    eq_iff t.instrument i,
    lookup-insert i t.instrument (add_trade t (position_at fresh t.instrument d)) d,
  )

  -- Which instruments it has an entry for.
  pub net_positions-has :
      (fresh : Position) (instrument i : String) (ts : List (Trade D)) (d : Dict String Position)
      → is_some (lookup i (net_positions fresh instrument ts d))
        ≡ (is_some (lookup i d) || (asks instrument i && is_traded i ts))
  unfolding net_positions
  net_positions-has fresh instrument i [] d = ground arith
  net_positions-has fresh instrument i (t ∷ ts) d =
      net_positions-has fresh instrument i ts _
      ∙ ap (λ x. x || (asks instrument i && is_traded i ts)) (step-has fresh instrument i t d)
      ∙ or_and _ (asks instrument i) (t.instrument == i) (is_traded i ts)

  pub net_positions-OwnName :
      (fresh : Position) (instrument : String) (ts : List (Trade D)) (d : Dict String Position)
      → ((i : String) → OwnName i (lookup i d))
      → (i : String) → OwnName i (lookup i (net_positions fresh instrument ts d))
  unfolding net_positions
  net_positions-OwnName fresh instrument [] d h = h
  net_positions-OwnName fresh instrument (t ∷ ts) d h =
      net_positions-OwnName fresh instrument ts _ (elim (Bool-cases (skips_position instrument t)) [
        | inl q ↦ simp q h
        | inr q ↦ simp q (insert_cases OwnName t.instrument _ d refl h)
      ])

  pub net_positions-NodupKeys :
      (fresh : Position) (instrument : String) (ts : List (Trade D)) (d : Dict String Position)
      → NodupKeys d
      → NodupKeys (net_positions fresh instrument ts d)
  unfolding net_positions
  net_positions-NodupKeys fresh instrument [] d h = h
  net_positions-NodupKeys fresh instrument (t ∷ ts) d h =
      net_positions-NodupKeys fresh instrument ts _
        (elim (Bool-cases (skips_position instrument t)) [
          | inl q ↦ simp q h
          | inr q ↦ simp q (insert-NodupKeys t.instrument _ d h)
        ])
