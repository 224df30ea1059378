-- ===== src/Common/Dict.antt =====
-- `std::unordered_map` as an association list. The order of the list stands for the iteration order,
-- which C++ leaves open: no theorem of this library depends on it.
use mathlib.Core.Path.{◌≡◌, refl}
use mathlib.Core.Option
use mathlib.Core.Option.{Option, none, some, some-injective}
use mathlib.Core.List.{List, [], ◌∷◌}
use native.Mathlib.Omega.{arith}
use mathlib.Core.Path.{subst, ap}
use mathlib.Core.Logic.{inl, inr, ◌⊎◌, ◌↔◌, ◌≢◌}
use mathlib.Core.Bool.{true}
use qtrade_client.Common.Tests.{KeyEq, ◌==◌, equals_refl, is_some, Bool-cases, if◌then◌else◌}

abbrev pub Dict {ℓ κ} : Type ℓ → Type κ → Type (ℓ ⊔ κ)
Dict K V = List (K × V)

module _ {ℓ κ} {K : Type ℓ} {V : Type κ} ⦃e : KeyEq K⦄ where
  -- `m.find(k)`: `none` is `m.end()`.
  unfoldable pub lookup : K → Dict K V → Option V
  lookup k [] = none
  lookup k ((j, v) ∷ d) = if j == k then some v else lookup k d

  -- `m[k] = v`
  unfoldable pub insert : K → V → Dict K V → Dict K V
  insert k v [] = (k, v) ∷ []
  insert k v ((j, w) ∷ d) = if j == k then (j, v) ∷ d else (j, w) ∷ insert k v d

  -- No key occurs twice.
  abbrev pub NodupKeys : Dict K V → Type κ
  NodupKeys [] = Unit
  NodupKeys ((k, _) ∷ d) = (lookup k d ≡ none) × NodupKeys d

  pub lookup-insert :
      (j k : K) (v : V) (d : Dict K V)
      → lookup j (insert k v d) ≡ (if k == j then some v else lookup j d)
  unfolding lookup insert
  lookup-insert j k v [] = refl
  lookup-insert j k v ((i, w) ∷ d) =
      ground (arith, e.equals_iff i k, e.equals_iff i j, e.equals_iff k j, lookup-insert j k v d)

  pub lookup-insert_self : (k : K) (v : V) (d : Dict K V) → lookup k (insert k v d) ≡ some v
  lookup-insert_self k v d = simp (lookup-insert, equals_refl)

  pub insert-NodupKeys : (k : K) (v : V) (d : Dict K V) → NodupKeys d → NodupKeys (insert k v d)
  unfolding insert lookup
  insert-NodupKeys k v [] n = (refl, tt)
  insert-NodupKeys k v ((j, w) ∷ d) (fresh, n) =
      ground
        (arith, e.equals_iff j k, e.equals_iff k j, insert-NodupKeys k v d n, lookup-insert j k v d)

  -- A fact of every entry, absent ones too, holds behind a write if it holds of what is written.
  pub insert_cases {μ} :
      (P : K → Option V → Type μ) (k : K) (v : V) (d : Dict K V)
      → P k (some v)
      → ((j : K) → P j (lookup j d))
      → (j : K) → P j (lookup j (insert k v d))
  insert_cases P k v d new old j = rw (lookup-insert j k v d) (elim (Bool-cases (k == j)) [
    | inl q ↦ rw q (subst (λ i. P i (some v)) ((e.equals_iff k j).0 q) new)
    | inr q ↦ rw q (old j)
  ])

  -- No write takes a key away.
  pub insert-keeps :
      (j k : K) (v : V) (d : Dict K V)
      → is_some (lookup j d) ≡ true
      → is_some (lookup j (insert k v d)) ≡ true
  insert-keeps j k v d h = ground (arith, lookup-insert j k v d)

  -- A write over a present entry, as a change of that entry.
  pub lookup-modify :
      (f : V → V) (k : K) (v : V) (d : Dict K V)
      → lookup k d ≡ some v
      → (j : K)
      → lookup j (insert k (f v) d) ≡ (if k == j then Option.map f (lookup j d) else lookup j d)
  lookup-modify f k v d h j = elim (Bool-cases (k == j)) [
    | inl q ↦
        simp (lookup-insert, q)
          (subst (λ i. some (f v) ≡ Option.map f (lookup i d)) ((e.equals_iff k j).0 q) (simp h))
    | inr q ↦ simp (lookup-insert, q)
  ]

module _ {K V : Type 0} ⦃e : KeyEq K⦄ where
  -- `k` stands beside `v` in the list.
  abbrev pub Holds : K → V → Dict K V → Type 0
  Holds k v [] = ⊥
  Holds k v ((j, w) ∷ d) = ((j ≡ k) × (w ≡ v)) ⊎ Holds k v d

  lookup-Holds : (k : K) (v : V) (d : Dict K V) → lookup k d ≡ some v → Holds k v d
  unfolding lookup
  lookup-Holds k v [] h = cc
  lookup-Holds k v ((j, w) ∷ d) h = elim (Bool-cases (j == k)) [
    | inl q ↦ inl ((e.equals_iff j k).0 q, some-injective _ _ (simp q at h))
    | inr q ↦ inr (lookup-Holds k v d (simp q at h))
  ]

  Holds-ne-none : (k : K) (v : V) (d : Dict K V) → Holds k v d → lookup k d ≢ none
  unfolding lookup
  Holds-ne-none k v [] p h = elim p [ ]
  Holds-ne-none k v ((j, w) ∷ d) (inl (p, q)) h = cc (simp ((e.equals_iff j k).1 p) at h)
  Holds-ne-none k v ((j, w) ∷ d) (inr p) h = ground (arith, Holds-ne-none k v d p)

  Holds-lookup : (k : K) (v : V) (d : Dict K V) → NodupKeys d → Holds k v d → lookup k d ≡ some v
  unfolding lookup
  Holds-lookup k v [] n p = elim p [ ]
  Holds-lookup k v ((j, w) ∷ d) n (inl (p, q)) = simp ((e.equals_iff j k).1 p) (ap some q)
  Holds-lookup k v ((j, w) ∷ d) (fresh, n) (inr p) = elim (Bool-cases (j == k)) [
    | inl q ↦
        absurd
          (Holds-ne-none k v d p (subst (λ i. lookup i d ≡ none) ((e.equals_iff j k).0 q) fresh))
    | inr q ↦ simp q (Holds-lookup k v d n p)
  ]

  -- In a map with no key twice, iteration meets just the entries that `find` finds.
  pub Holds-iff : (k : K) (v : V) (d : Dict K V) → NodupKeys d → Holds k v d ↔ (lookup k d ≡ some v)
  Holds-iff k v d n = (Holds-lookup k v d n, lookup-Holds k v d)
