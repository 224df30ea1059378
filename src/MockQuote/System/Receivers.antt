-- ===== src/MockQuote/System/Receivers.antt =====
-- src/adapters/mock/quote/mock_quote_api.cpp: what each of the two receivers of the ticks gets.
use qtrade_client.Common.{ℕ, String, Option, none, some, List, [], ◌∷◌, ◌++◌, ◌≡◌, refl, sym, ap}
use mathlib.Core.List.{append-nil, append_assoc}
use qtrade_client.Sdk.Quote.{QuoteSdk, MarketTick}
use qtrade_client.MockQuote.Ticks.{Delivery, to_spi, to_callback, sink}

-- The instruments of the ticks that reached the callback, and those that reached the SPI, in order.
abbrev pub at_callback : {D : Type 0} → List (Delivery D) → List String
at_callback [] = []
at_callback (to_callback n tick ∷ ds) = tick.instrument ∷ at_callback ds
at_callback (to_spi n tick ∷ ds) = at_callback ds

abbrev pub at_spi : {D : Type 0} → List (Delivery D) → List String
at_spi [] = []
at_spi (to_spi n tick ∷ ds) = tick.instrument ∷ at_spi ds
at_spi (to_callback n tick ∷ ds) = at_spi ds

-- What a receiver gets of these instruments.
abbrev pub received : Option ℕ → List String → List String
received none is = []
received (some n) is = is

pub at_callback-++ :
    {D : Type 0} (ds es : List (Delivery D))
    → at_callback (ds ++ es) ≡ at_callback ds ++ at_callback es
at_callback-++ [] es = refl
at_callback-++ (to_callback n tick ∷ ds) es = ap (λ x. tick.instrument ∷ x) (at_callback-++ ds es)
at_callback-++ (to_spi n tick ∷ ds) es = at_callback-++ ds es

pub at_spi-++ :
    {D : Type 0} (ds es : List (Delivery D)) → at_spi (ds ++ es) ≡ at_spi ds ++ at_spi es
at_spi-++ [] es = refl
at_spi-++ (to_spi n tick ∷ ds) es = ap (λ x. tick.instrument ∷ x) (at_spi-++ ds es)
at_spi-++ (to_callback n tick ∷ ds) es = at_spi-++ ds es

pub received_cons :
    (o : Option ℕ) (i : String) (is : List String)
    → received o (i ∷ is) ≡ received o (i ∷ []) ++ received o is
received_cons none i is = refl
received_cons (some n) i is = refl

pub joined_up :
    (xs ys zs : List String) (o : Option ℕ) (i : String) (is : List String)
    → ys ≡ xs ++ received o (i ∷ [])
    → zs ≡ ys ++ received o is
    → zs ≡ xs ++ received o (i ∷ is)
joined_up xs ys zs o i is first rest = simp (rest, first, received_cons o i is, append_assoc)

pub received_nil : (xs : List String) (o : Option ℕ) → xs ≡ xs ++ received o []
received_nil xs none = sym (append-nil xs)
received_nil xs (some n) = sym (append-nil xs)

module _ {D : Type 0} ⦃sdk : QuoteSdk D⦄ where
  pub sinks :
      (o c : Option ℕ) (tick : MarketTick D)
      → let out = sink to_spi o tick ++ sink to_callback c tick in
        (at_spi out ≡ received o (tick.instrument ∷ []))
        × (at_callback out ≡ received c (tick.instrument ∷ []))
  sinks none none tick = (refl, refl)
  sinks none (some m) tick = (refl, refl)
  sinks (some n) none tick = (refl, refl)
  sinks (some n) (some m) tick = (refl, refl)
