-- ===== src/Bridge/Races.antt =====
-- src/bridge/grpc_account_bridge.cpp and grpc_account_risk_bridge.cpp: queries of a bridge with a cache on
-- several threads. The remote call runs outside the mutex, so that other threads come in between it and the
-- critical section that ends the query. A bridge takes part through the interface `CachedQuery`.
pub mod Genuine
use qtrade_client.Common.{
  ℕ, String, Option, none, some, List, [], ◌∷◌, ◌≡◌, ◌⊎◌, string_Eq, nat_Eq, ◌==◌, if◌then◌else◌,
}
use qtrade_client.Common.Dict.{Dict, lookup}
use qtrade_client.Sdk.{ErrorCode, Result, is_success}

-- What the remote call gave to a query, `none` if the bridge was not initialised.
abbrev pub Answer : Type 0 → Type 0
Answer P = Option (ErrorCode × P)

-- The value that an answer holds.
abbrev pub value_of : {P V : Type 0} → (P → V) → Answer P → Option V
value_of read none = none
value_of read (some (rc, response)) = if is_success rc then some (read response) else none

-- What the cache finds for `k`, once `account` has got the value, if any.
abbrev pub learned : {V : Type 0} → String → Option V → Option V → String → Option V
learned account none old k = old
learned account (some v) old k = if account == k then some v else old

-- A bridge `B` whose queries take a `Q` and are answered with a `P`, which it caches as a `V`: its
-- operations, with the query in two parts, and how they treat the cache.
pub record CachedQuery (B Q P V : Type 0) : Type 0 where
  pub account : Q → String
  pub ask : Q → B → Answer P
  pub end_query : Q → Answer P → B → Result V × B
  pub init : B → B
  pub shutdown : B → B
  pub read : P → V
  pub cache : B → Dict String V
  pub end_query-cache :
      (q : Q) (a : Answer P) (b : B) (k : String)
      → lookup k (cache (end_query q a b).1)
        ≡ learned (account q) (value_of read a) (lookup k (cache b)) k
  pub end_query-value :
      (q : Q) (a : Answer P) (b : B) (v : V)
      → (end_query q a b).0.value ≡ some v
      → (value_of read a ≡ some v) ⊎ (lookup (account q) (cache b) ≡ some v)
  pub init-cache : (b : B) → cache (init b) ≡ cache b
  pub shutdown-cache : (b : B) → cache (shutdown b) ≡ cache b

-- A query between its two parts.
pub record Pending (Q P : Type 0) : Type 0 where
  pub query : Q
  pub answer : Answer P

-- The bridge and the threads that are in a query, by their number, with what the service sent so far and
-- what the queries returned, the last first.
pub record Threads (B Q P V : Type 0) : Type 0 where
  pub bridge : B
  pub pending : ℕ → Option (Pending Q P)
  pub received : List (String × V)
  pub returned : List (String × Result V)

pub data Event (Q : Type 0) : Type 0 where
  asks : ℕ → Q → Event Q
  settles : ℕ → Event Q
  inits shuts_down : Event Q

abbrev pub put : {A : Type 0} → ℕ → Option A → (ℕ → Option A) → ℕ → Option A
put n a f m = if n == m then a else f m

abbrev pub note : {V : Type 0} → String → Option V → List (String × V) → List (String × V)
note account none l = l
note account (some v) l = (account, v) ∷ l

module _ {B Q P V : Type 0} (c : CachedQuery B Q P V) where
  -- A bridge that no thread has called.
  abbrev pub fresh_threads : B → Threads B Q P V
  fresh_threads b = record { bridge = b; pending = λ n. none; received = []; returned = [] }

  abbrev pub asked : ℕ → Q → Threads B Q P V → Option (Pending Q P) → Option (Threads B Q P V)
  asked n q s none =
      let answer = c.ask q s.bridge in
      some (record s {
        pending = put n (some (record { query = q; answer = answer })) s.pending;
        received = note (c.account q) (value_of c.read answer) s.received;
      })
  asked n q s (some p) = none

  abbrev pub after_settle : ℕ → Pending Q P → Threads B Q P V → Threads B Q P V
  after_settle n p s =
      let (result, b) = c.end_query p.query p.answer s.bridge in
      record s {
        bridge = b;
        pending = put n none s.pending;
        returned = (c.account p.query, result) ∷ s.returned;
      }

  abbrev pub settled : ℕ → Threads B Q P V → Option (Pending Q P) → Option (Threads B Q P V)
  settled n s none = none
  settled n s (some p) = some (after_settle n p s)

  -- `none` is an event that cannot come now.
  unfoldable pub happen : Event Q → Threads B Q P V → Option (Threads B Q P V)
  happen (asks n q) s = asked n q s (s.pending n)
  happen (settles n) s = settled n s (s.pending n)
  happen Event.inits s = some (record s { bridge = c.init s.bridge })
  happen Event.shuts_down s = some (record s { bridge = c.shutdown s.bridge })

  abbrev pub then_run :
      (Threads B Q P V → Option (Threads B Q P V))
      → Option (Threads B Q P V)
      → Option (Threads B Q P V)
  then_run f none = none
  then_run f (some s) = f s

  unfoldable pub run : List (Event Q) → Threads B Q P V → Option (Threads B Q P V)
  unfolding happen
  run [] s = some s
  run (e ∷ es) s = then_run (run es) (happen e s)
