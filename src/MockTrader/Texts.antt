-- ===== src/MockTrader/Texts.antt =====
-- src/adapters/mock/trader/mock_trader_api.cpp: the decimal texts in the ids of trades.
use qtrade_client.Common.{
  ℕ, zero, suc, ◌+◌, ◌/◌, ◌%◌, ◌^◌, ◌≤◌, ◌<◌, String, ◌<>◌, true, false, ltb, ◌≡◌, ◌≢◌, refl, sym,
  ap, ◌∙◌, arith, string_Eq, ◌==◌, if◌then◌else◌, Bool-cases, inl, inr,
}
use Prim.Native.String.{count}
use text.Mathlib.TextLemmas.{length-append, append_inj}
use qtrade_client.MockTrader.Orders.{digit, decimal, to_string, u64_mod}

-- The number of a digit.
abbrev digit_of : String → ℕ
digit_of s =
    if s == "0"
    then 0
    else if s == "1"
    then 1
    else if s == "2"
    then 2
    else if s == "3"
    then 3
    else if s == "4"
    then 4
    else if s == "5"
    then 5
    else if s == "6"
    then 6
    else if s == "7"
    then 7
    else if s == "8"
    then 8
    else 9

digit_of-digit : (d : ℕ) → d < 10 → (digit_of (digit d) ≡ d) × (count (digit d) ≡ 1)
unfolding digit
digit_of-digit zero lt = (refl, refl)
digit_of-digit (suc zero) lt = (refl, refl)
digit_of-digit (suc (suc zero)) lt = (refl, refl)
digit_of-digit (suc (suc (suc zero))) lt = (refl, refl)
digit_of-digit (suc (suc (suc (suc zero)))) lt = (refl, refl)
digit_of-digit (suc (suc (suc (suc (suc zero))))) lt = (refl, refl)
digit_of-digit (suc (suc (suc (suc (suc (suc zero)))))) lt = (refl, refl)
digit_of-digit (suc (suc (suc (suc (suc (suc (suc zero))))))) lt = (refl, refl)
digit_of-digit (suc (suc (suc (suc (suc (suc (suc (suc zero)))))))) lt = (refl, refl)
digit_of-digit (suc (suc (suc (suc (suc (suc (suc (suc (suc zero))))))))) lt = (refl, refl)
digit_of-digit (suc (suc (suc (suc (suc (suc (suc (suc (suc (suc n)))))))))) lt =
    absurd (omega (arith, lt))

digit_injective : (c d : ℕ) → c < 10 → d < 10 → digit c ≡ digit d → c ≡ d
digit_injective c d lt lt' e =
    sym (digit_of-digit c lt).0 ∙ ap digit_of e ∙ (digit_of-digit d lt').0

ltb-true : (a b : ℕ) → ltb a b ≡ true → a < b
ltb-true a b e = ground arith

ltb-false : (a b : ℕ) → ltb a b ≡ false → b ≤ a
ltb-false a b e = ground arith

short : (fuel n : ℕ) → ltb n 10 ≡ true → decimal (suc fuel) n ≡ digit n
unfolding decimal
short fuel n e = simp e

long :
    (fuel n : ℕ) → ltb n 10 ≡ false → decimal (suc fuel) n ≡ decimal fuel (n / 10) <> digit (n % 10)
unfolding decimal
long fuel n e = simp e

last_digit : (n : ℕ) → n % 10 < 10
last_digit n = omega arith

count-long : (rest : String) (n : ℕ) → count (rest <> digit (n % 10)) ≡ count rest + 1
count-long rest n =
    length-append rest (digit (n % 10))
    ∙ ap (λ k. count rest + k) (digit_of-digit (n % 10) (last_digit n)).1

count-decimal : (fuel n : ℕ) → 1 ≤ count (decimal (suc fuel) n)
count-decimal fuel n = elim (Bool-cases (ltb n 10)) [
  | inl q ↦ rw (short fuel n q) (omega (arith, (digit_of-digit n (ltb-true n 10 q)).1))
  | inr q ↦ rw (long fuel n q) (omega (arith, count-long (decimal fuel (n / 10)) n))
]

-- The text before the last digit is not empty.
count-rest : (fuel n : ℕ) → 10 ≤ n → n < 10 ^ suc fuel → 1 ≤ count (decimal fuel (n / 10))
count-rest zero n le lt = absurd (omega (arith, le, lt))
count-rest (suc fuel) n le lt = count-decimal fuel (n / 10)

short-long :
    (fuel m n : ℕ)
    → ltb m 10 ≡ true
    → ltb n 10 ≡ false
    → n < 10 ^ suc fuel
    → decimal (suc fuel) m ≢ decimal (suc fuel) n
short-long fuel m n p q lt e =
    let sizes : 1 ≡ count (decimal fuel (n / 10)) + 1 =
      sym (digit_of-digit m (ltb-true m 10 p)).1
      ∙ ap count (sym (short fuel m p) ∙ e ∙ long fuel n q)
      ∙ count-long (decimal fuel (n / 10)) n in
    omega (arith, sizes, count-rest fuel n (ltb-false n 10 q) lt)

ends :
    (fuel m n : ℕ)
    → decimal fuel (m / 10) <> digit (m % 10) ≡ decimal fuel (n / 10) <> digit (n % 10)
    → (decimal fuel (m / 10) ≡ decimal fuel (n / 10)) × (m % 10 ≡ n % 10)
ends fuel m n same =
    let sizes : count (decimal fuel (m / 10)) ≡ count (decimal fuel (n / 10)) = omega (
      arith,
      ap count same,
      count-long (decimal fuel (m / 10)) m,
      count-long (decimal fuel (n / 10)) n,
    ) in
    let (front, back) = append_inj same sizes in
    (front, digit_injective (m % 10) (n % 10) (last_digit m) (last_digit n) back)

decimal_injective :
    (fuel m n : ℕ) → m < 10 ^ fuel → n < 10 ^ fuel → decimal fuel m ≡ decimal fuel n → m ≡ n
decimal_injective zero m n lt lt' e = omega (arith, lt, lt')
decimal_injective (suc fuel) m n lt lt' e = elim (Bool-cases (ltb m 10)) [
  | inl p ↦ elim (Bool-cases (ltb n 10)) [
    | inl q ↦
        digit_injective m n (ltb-true m 10 p) (ltb-true n 10 q)
          (sym (short fuel m p) ∙ e ∙ short fuel n q)
    | inr q ↦ absurd (short-long fuel m n p q lt' e)
  ]
  | inr p ↦ elim (Bool-cases (ltb n 10)) [
    | inl q ↦ absurd (short-long fuel n m q p lt (sym e))
    | inr q ↦
        let (front, low) = ends fuel m n (sym (long fuel m p) ∙ e ∙ long fuel n q) in
        let high =
          decimal_injective fuel (m / 10) (n / 10) (omega (arith, lt)) (omega (arith, lt')) front in
        omega (arith, high, low)
  ]
]

-- Different uint64 have different decimal texts.
pub to_string_injective : (m n : ℕ) → m < u64_mod → n < u64_mod → to_string m ≡ to_string n → m ≡ n
unfolding to_string
to_string_injective m n lt lt' e =
    decimal_injective 20 m n (omega (arith, lt)) (omega (arith, lt')) e
