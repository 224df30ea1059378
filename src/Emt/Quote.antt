-- ===== src/Emt/Quote.antt =====
-- src/adapters/emt/quote/emt_quote_api.{hpp,cpp} and emt_quote_spi.hpp. Callbacks and callback targets are
-- known by a number.
pub mod Requests
use qtrade_client.Common.{
  ℕ, String, Bool, true, false, not, Option, none, some, List, [], ◌∷◌, ◌≡◌, refl, arith,
  if◌then◌else◌,
}
use qtrade_client.Sdk.{ErrorCode}
use qtrade_client.Sdk.Quote.{ConnectRequest}

-- `EmtQuoteApi`; `target` is that of `emt_spi_`.
pub record EmtQuoteApi : Type 0 where
  pub target : Option ℕ
  pub quote_spi : Option ℕ
  pub on_tick : Option ℕ
  pub on_bar : Option ℕ
  pub config : ConnectRequest
  pub connected : Bool
  pub instruments : List String

unfoldable pub create_emt_quote_api : ConnectRequest → EmtQuoteApi
create_emt_quote_api blank = record {
  target = none;
  quote_spi = none;
  on_tick = none;
  on_bar = none;
  config = blank;
  connected = false;
  instruments = [];
}

unfoldable pub register_spi : ℕ → EmtQuoteApi → EmtQuoteApi
register_spi spi s = record s { quote_spi = some spi; target = some spi }

unfoldable pub unregister_spi : EmtQuoteApi → EmtQuoteApi
unregister_spi s = record s { quote_spi = none; target = none }

unfoldable pub connect : ConnectRequest → EmtQuoteApi → ErrorCode × EmtQuoteApi
connect request s =
    if s.connected
    then (ErrorCode.success, s)
    else (ErrorCode.not_supported, record s { config = request; connected = true })

unfoldable pub disconnect : EmtQuoteApi → EmtQuoteApi
disconnect s = if not s.connected then s else record s { connected = false }

unfoldable pub is_connected : EmtQuoteApi → Bool
is_connected s = s.connected

unfoldable pub logout : EmtQuoteApi → EmtQuoteApi
unfolding disconnect
logout s = disconnect s

unfoldable pub subscribe : List String → EmtQuoteApi → ErrorCode × EmtQuoteApi
subscribe instruments s = (ErrorCode.not_supported, record s { instruments = instruments })

unfoldable pub unsubscribe : EmtQuoteApi → ErrorCode × EmtQuoteApi
unsubscribe s = (ErrorCode.not_supported, record s { instruments = [] })

-- The response is cleared whatever was asked for.
unfoldable pub query_snapshot : {A : Type 0} → EmtQuoteApi → ErrorCode × List A
query_snapshot s = (ErrorCode.not_supported, [])

unfoldable pub set_tick_callback : Option ℕ → EmtQuoteApi → EmtQuoteApi
set_tick_callback cb s = record s { on_tick = cb }

unfoldable pub set_bar_callback : Option ℕ → EmtQuoteApi → EmtQuoteApi
set_bar_callback cb s = record s { on_bar = cb }

unfoldable pub get_supported_instruments : EmtQuoteApi → List String
get_supported_instruments s = []

-- The calls of a user that change the adapter.
pub data Call : Type 0 where
  registers_spi : ℕ → Call
  unregisters_spi disconnects logs_out unsubscribes : Call
  connects : ConnectRequest → Call
  subscribes : List String → Call
  sets_tick_callback sets_bar_callback : Option ℕ → Call

unfoldable pub step : Call → EmtQuoteApi → EmtQuoteApi
unfolding register_spi unregister_spi connect disconnect logout subscribe unsubscribe
    set_tick_callback set_bar_callback
step (registers_spi spi) s = register_spi spi s
step unregisters_spi s = unregister_spi s
step disconnects s = disconnect s
step logs_out s = logout s
step unsubscribes s = (unsubscribe s).1
step (connects request) s = (connect request s).1
step (subscribes instruments) s = (subscribe instruments s).1
step (sets_tick_callback cb) s = set_tick_callback cb s
step (sets_bar_callback cb) s = set_bar_callback cb s

unfoldable pub run : List Call → EmtQuoteApi → EmtQuoteApi
run [] s = s
run (c ∷ cs) s = run cs (step c s)

-- What the calls ask for: whether the last of `Connect` and `Disconnect` or `Logout` was a `Connect`, and the
-- request of the first `Connect` since then.
abbrev pub asked : List Call → Option ConnectRequest → Option ConnectRequest
asked [] session = session
asked (connects request ∷ cs) none = asked cs (some request)
asked (connects request ∷ cs) (some old) = asked cs (some old)
asked (disconnects ∷ cs) session = asked cs none
asked (logs_out ∷ cs) session = asked cs none
asked (registers_spi spi ∷ cs) session = asked cs session
asked (unregisters_spi ∷ cs) session = asked cs session
asked (unsubscribes ∷ cs) session = asked cs session
asked (subscribes instruments ∷ cs) session = asked cs session
asked (sets_tick_callback cb ∷ cs) session = asked cs session
asked (sets_bar_callback cb ∷ cs) session = asked cs session

-- The adapter is in this session, and its own target and that of the forwarder agree.
abbrev pub Holds : EmtQuoteApi → Option ConnectRequest → Type 0
Holds s none = (s.connected ≡ false) × (s.target ≡ s.quote_spi)
Holds s (some request) = (s.connected ≡ true) × (s.config ≡ request) × (s.target ≡ s.quote_spi)

run-Holds :
    (cs : List Call) (s : EmtQuoteApi) (session : Option ConnectRequest)
    → Holds s session
    → Holds (run cs s) (asked cs session)
unfolding run step
run-Holds [] s session v = v
run-Holds (connects request ∷ cs) s none v = run-Holds cs _ (some request) (ground arith)
run-Holds (connects request ∷ cs) s (some old) v = run-Holds cs _ (some old) (ground arith)
run-Holds (disconnects ∷ cs) s none v = run-Holds cs _ none (ground arith)
run-Holds (disconnects ∷ cs) s (some old) v = run-Holds cs _ none (ground arith)
run-Holds (logs_out ∷ cs) s none v = run-Holds cs _ none (ground arith)
run-Holds (logs_out ∷ cs) s (some old) v = run-Holds cs _ none (ground arith)
run-Holds (registers_spi spi ∷ cs) s none v = run-Holds cs _ none (v.0, refl)
run-Holds (registers_spi spi ∷ cs) s (some old) v = run-Holds cs _ (some old) (v.0, v.1, refl)
run-Holds (unregisters_spi ∷ cs) s none v = run-Holds cs _ none (v.0, refl)
run-Holds (unregisters_spi ∷ cs) s (some old) v = run-Holds cs _ (some old) (v.0, v.1, refl)
run-Holds (unsubscribes ∷ cs) s none v = run-Holds cs _ none v
run-Holds (unsubscribes ∷ cs) s (some old) v = run-Holds cs _ (some old) v
run-Holds (subscribes instruments ∷ cs) s none v = run-Holds cs _ none v
run-Holds (subscribes instruments ∷ cs) s (some old) v = run-Holds cs _ (some old) v
run-Holds (sets_tick_callback cb ∷ cs) s none v = run-Holds cs _ none v
run-Holds (sets_tick_callback cb ∷ cs) s (some old) v = run-Holds cs _ (some old) v
run-Holds (sets_bar_callback cb ∷ cs) s none v = run-Holds cs _ none v
run-Holds (sets_bar_callback cb ∷ cs) s (some old) v = run-Holds cs _ (some old) v

abbrev pub connect_code : Option ConnectRequest → ErrorCode
connect_code none = ErrorCode.not_supported
connect_code (some old) = ErrorCode.success

connect_code-Holds :
    (request : ConnectRequest) (s : EmtQuoteApi) (session : Option ConnectRequest)
    → Holds s session
    → (connect request s).0 ≡ connect_code session
unfolding connect
connect_code-Holds request s none v = simp v.0
connect_code-Holds request s (some old) v = simp v.0

-- After any calls on a new adapter it holds the session that the calls ask for, and its two marks of the
-- callback target agree. A `Connect` answers not supported if there was no session, which it opens all the
-- same, and success without connecting anything if there was one.
pub emt_quote_sessions :
    (blank request : ConnectRequest) (cs : List Call)
    → let s = run cs (create_emt_quote_api blank) in
      Holds s (asked cs none) × ((connect request s).0 ≡ connect_code (asked cs none))
unfolding create_emt_quote_api
emt_quote_sessions blank request cs =
    let held = run-Holds cs (create_emt_quote_api blank) none (refl, refl) in
    (held, connect_code-Holds request _ _ held)
