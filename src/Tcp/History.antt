-- ===== src/Tcp/History.antt =====
-- What happens to a server's end of lib/serverprotocolinstancetcp.cpp, one step after another.
use qt_rpc.Base.{
  ℕ, String, Bool, true, false, not, ◌&&◌, ◌||◌, Option, none, some, List, [], ◌∷◌, str_eq,
}
use qt_rpc.Qt.{Qt, Bytes}
use qt_rpc.Instance.{Services}
use qt_rpc.Tcp.{
  SslMode, ssl_forced, ssl_of_number, Tcp, Done, handle, set_property, ping, disconnect, encrypted,
}

-- A frame arrives, a property is set, the timer ends, the connection is closed, or the handshake of
-- encryption ends.
pub data Event (V : Type 0) : Type 0 where
  frame : Bytes → Event V
  property : String → V → Event V
  tick : Event V
  close : Event V
  secured : Event V

abbrev pub is_forced : SslMode → Bool
is_forced ssl_forced = true
is_forced _ = false

module _ {V : Type 0} (q : Qt V) where
  -- the events that end the handshake, or set another mode than SslForced
  abbrev pub opens_one : Event V → Bool
  opens_one secured = true
  opens_one (property prop val) =
      str_eq prop "sslmode" && not (is_forced (ssl_of_number (q.to_int val)))
  opens_one _ = false

  unfoldable pub opens : List (ℕ × Event V) → Bool
  opens [] = false
  opens ((now, e) ∷ es) = opens_one e || opens es

  module _ (exists : String → Bool) (services : Services V) where
    -- one event at the time `now`
    unfoldable pub step : ℕ → Event V → Tcp V → Option (Done V)
    unfolding handle set_property ping disconnect encrypted
    step now (frame body) t = handle q exists services now t body
    step now (property prop val) t = some (set_property q now t prop val)
    step now tick t = some (ping q now t)
    step now close t = some (disconnect t)
    step now secured t = some (encrypted q exists t)

    unfoldable pub run : List (ℕ × Event V) → Tcp V → Option (Tcp V)
    unfolding step
    run [] t = some t
    run ((now, e) ∷ es) t = elim (step now e t) [ none ↦ none | some (u, done) ↦ run es u ]
