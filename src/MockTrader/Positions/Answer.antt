-- ===== src/MockTrader/Positions/Answer.antt =====
-- `QueryPositions` as a whole, against the sum of the signed volumes of each instrument.
use qtrade_client.Common.{
  String, Bool, true, false, ◌&&◌, Option, none, some, List, [], ◌∷◌, ◌≡◌, inl, inr, refl, sym,
  subst, ap, ◌∙◌, arith, string_Eq, is_some, if◌then◌else◌, Bool-cases,
}
use qtrade_client.Common.Int.{ℤ, pos, negsuc, ◌+ℤ◌, neg, is_negative, zero-+ℤ, int_laws, neg-negsuc}
use qtrade_client.Common.Dict.{Dict, lookup, Holds, Holds-iff}
use qtrade_client.Sdk.Trader.{Sdk, Trade, Position, PositionDirectionType}
use qtrade_client.MockTrader.{MockTraderApi}
use qtrade_client.MockTrader.Queries.{
  close_position, close_positions, position_at, net_positions, query_positions,
}
use qtrade_client.MockTrader.Responses.{Listed}
use qtrade_client.MockTrader.Positions.{
  asks, net_volume, is_traded, signed, total_at, OwnName, net_positions-total, net_positions-has,
  net_positions-OwnName, net_positions-NodupKeys,
}

neg-neg : (v : ℤ) → neg (neg v) ≡ v
neg-neg v = omega int_laws

is_negative-neg : (v : ℤ) → is_negative v ≡ true → is_negative (neg v) ≡ false
is_negative-neg (pos n) h = cc
is_negative-neg (negsuc n) h = rw neg-negsuc

-- A closed position: its name and value are those of the entry, and its volume has no sign.
abbrev pub IsClosed : Position → Position → Type 0
IsClosed q p =
    (p.instrument ≡ q.instrument)
    × (signed p ≡ q.total_volume)
    × (is_negative p.total_volume ≡ false)
    × (p.direction ≡ (
        if is_negative q.total_volume
        then PositionDirectionType.short
        else PositionDirectionType.long))

close_position-IsClosed : (q : Position) → IsClosed q (close_position q)
unfolding close_position
close_position-IsClosed q = elim (Bool-cases (is_negative q.total_volume)) [
  | inl e ↦ simp e (refl, neg-neg q.total_volume, is_negative-neg q.total_volume e, refl)
  | inr e ↦ simp e (refl, refl, refl, refl)
]

close_positions-Holds :
    (p : Position) (d : Dict String Position)
    → Listed p (close_positions d)
    → (i : String) × (q : Position) × Holds i q d × IsClosed q p
unfolding close_positions
close_positions-Holds p [] h = elim h [ ]
close_positions-Holds p ((i, q) ∷ d) (inl e) =
    (i, q, inl (refl, refl), subst (IsClosed q) e (close_position-IsClosed q))
close_positions-Holds p ((i, q) ∷ d) (inr h) =
    let (j, q', found, closed) = close_positions-Holds p d h in (j, q', inr found, closed)

Holds-close_positions :
    (i : String) (q : Position) (d : Dict String Position)
    → Holds i q d
    → (p : Position) × Listed p (close_positions d) × IsClosed q p
unfolding close_positions
Holds-close_positions i q [] h = elim h [ ]
Holds-close_positions i q ((j, q') ∷ d) (inl (e, e')) = (
  close_position q',
  inl refl,
  subst (λ x. IsClosed x (close_position q')) e' (close_position-IsClosed q'),
)
Holds-close_positions i q ((j, q') ∷ d) (inr h) =
    let (p, listed, closed) = Holds-close_positions i q d h in (p, inr listed, closed)

position_at_of :
    (fresh q : Position) (i : String) (d : Dict String Position)
    → lookup i d ≡ some q
    → position_at fresh i d ≡ q
unfolding position_at
position_at_of fresh q i d h = rw (h, position_at)

both_true : (a b : Bool) → (a && b) ≡ true → (a ≡ true) × (b ≡ true)
both_true a b h = ground arith

is_some_inv : (o : Option Position) → is_some o ≡ true → (q : Position) × (o ≡ some q)
is_some_inv none h = cc
is_some_inv (some q) h = (q, refl)

module _ {D : Type 0} where
  -- What a listed position says of the instrument `i`: the request asks for it and it was traded; the
  -- volume is the size of the net volume, and the direction is short exactly if that is negative.
  abbrev pub IsNet : String → List (Trade D) → String → Position → Type 0
  IsNet instrument ts i p =
      (asks instrument i ≡ true)
      × (is_traded i ts ≡ true)
      × (signed p ≡ net_volume i ts)
      × (is_negative p.total_volume ≡ false)
      × (p.direction ≡ (
          if is_negative (net_volume i ts)
          then PositionDirectionType.short
          else PositionDirectionType.long))

  module _ (fresh : Position) (instrument : String) (ts : List (Trade D)) where
    abbrev table : Dict String Position
    table = net_positions fresh instrument ts []

    table-has : (i : String) → is_some (lookup i table) ≡ (asks instrument i && is_traded i ts)
    unfolding lookup
    table-has i = net_positions-has fresh instrument i ts []

    table-OwnName : (i : String) → OwnName i (lookup i table)
    unfolding lookup
    table-OwnName = net_positions-OwnName fresh instrument ts [] (λ i. tt)

    table-total :
        (i : String)
        → fresh.total_volume ≡ pos 0
        → asks instrument i ≡ true
        → total_at fresh i table ≡ net_volume i ts
    unfolding position_at lookup
    table-total i z asked =
        net_positions-total fresh instrument i ts [] asked
        ∙ ap (λ x. x +ℤ net_volume i ts) z
        ∙ zero-+ℤ _

    entry-IsNet :
        (i : String) (q p : Position)
        → fresh.total_volume ≡ pos 0
        → lookup i table ≡ some q
        → IsClosed q p
        → IsNet instrument ts i p
    entry-IsNet i q p z found (_, value, sign, dir) =
        let (asked, dealt) = both_true _ _ (sym (table-has i) ∙ ap is_some found) in
        let total : q.total_volume ≡ net_volume i ts =
          sym (ap (λ (x : Position). x.total_volume) (position_at_of fresh q i table found))
          ∙ table-total i z asked in
        (
          asked,
          dealt,
          value ∙ total,
          sign,
          dir
              ∙ ap
                  (λ v.
                    if is_negative v
                    then PositionDirectionType.short
                    else PositionDirectionType.long)
                  total,
        )

    Listed-IsNet :
        (p : Position)
        → fresh.total_volume ≡ pos 0
        → Listed p (close_positions table)
        → IsNet instrument ts p.instrument p
    Listed-IsNet p z listed =
        let (i, q, holds, closed) = close_positions-Holds p table listed in
        let found =
          (Holds-iff i q table (net_positions-NodupKeys fresh instrument ts [] tt)).0 holds in
        let own : q.instrument ≡ i = subst (OwnName i) found (table-OwnName i) in
        subst (λ j. IsNet instrument ts j p) (sym (closed.0 ∙ own))
          (entry-IsNet i q p z found closed)

    traded-Listed :
        (i : String)
        → asks instrument i ≡ true
        → is_traded i ts ≡ true
        → (p : Position) × Listed p (close_positions table) × (p.instrument ≡ i)
    traded-Listed i asked dealt =
        let (q, found) = is_some_inv _ (table-has i ∙ simp (asked, dealt)) in
        let own : q.instrument ≡ i = subst (OwnName i) found (table-OwnName i) in
        let holds =
          (Holds-iff i q table (net_positions-NodupKeys fresh instrument ts [] tt)).1 found in
        let (p, listed, closed) = Holds-close_positions i q table holds in
        (p, listed, closed.0 ∙ own)

module _ {D : Type 0} ⦃sdk : Sdk D⦄ where
  -- Every position that `query_positions` lists is the net of the trades of its instrument, which the
  -- request asks for and which was traded: its volume is not negative, and signed by its direction it is
  -- the bought less the other volumes; it is short exactly if that is negative, and else long. The volume
  -- of a `Position` that nobody wrote to is 0.
  pub query_positions-IsNet :
      (instrument : String) (s : MockTraderApi D) (p : Position)
      → sdk.position_default.total_volume ≡ pos 0
      → Listed p (query_positions instrument s).1
      → IsNet instrument s.trades p.instrument p
  unfolding query_positions
  query_positions-IsNet instrument s p z listed =
      Listed-IsNet sdk.position_default instrument s.trades p z listed

  -- An instrument that was traded and that the request asks for has a position in the answer.
  pub query_positions_complete :
      (instrument i : String) (s : MockTraderApi D)
      → asks instrument i ≡ true
      → is_traded i s.trades ≡ true
      → (p : Position) × Listed p (query_positions instrument s).1 × (p.instrument ≡ i)
  unfolding query_positions
  query_positions_complete instrument i s = traded-Listed sdk.position_default instrument s.trades i
