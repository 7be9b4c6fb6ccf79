-- ===== src/Tcp/Listener.antt =====
-- lib/serverprotocollistenertcp.cpp: the listener that makes the server's end of each connection over
-- TCP. The thread that the instance moves to is Server's. Locks are left out.
use qt_rpc.Base.{ℕ, ◌<◌, ◌^◌, ◌≡◌, refl, String, Bool, false, List, some, arith}
use qt_rpc.Qt.{Qt, IsQt}
use qt_rpc.Instance.{Services, Instance}
use qt_rpc.Device.{Device, device}
use qt_rpc.Tcp.{SslMode, ssl_enabled, ssl_forced, ssl_number, Tcp, tcp, set_property, init}
use qt_rpc.Tcp.History.{Event, opens, run}
use qt_rpc.Tcp.Guard.{IsGuarded, run-IsGuarded}

-- ServerProtocolListenerTcpPrivate
pub record Listener : Type 0 where
  pub ssl_mode : SslMode
  pub certificate : String

-- ServerProtocolListenerTcp(Server *)
abbrev pub listener : Listener
listener = record { ssl_mode = ssl_enabled; certificate = "" }

abbrev pub set_ssl_mode : SslMode → Listener → Listener
set_ssl_mode mode l = record l { ssl_mode = mode }

abbrev pub set_certificate : String → Listener → Listener
set_certificate cert l = record l { certificate = cert }

module _ {V : Type 0} (q : Qt V) where
  -- incomingConnection: the instance for a socket, on a new device at the time `now`
  unfoldable pub incoming_connection : ℕ → Device V → ℕ → Listener → Tcp V
  unfolding set_property tcp
  incoming_connection now d descriptor l =
      let t = (set_property q now (tcp d now) "descriptor" (q.of_int descriptor)).0 in
      let t = (set_property q now t "sslmode" (q.of_int (ssl_number l.ssl_mode))).0 in
      (set_property q now t "certificate" (q.of_text l.certificate)).0

  -- A listener passes on its certificate and the descriptor, an int.
  incoming-certificate :
      IsQt q
      → (now : ℕ) (d : Device V) (descriptor : ℕ) (l : Listener) → descriptor < 2 ^ 32
      → ((incoming_connection now d descriptor l).certificate ≡ l.certificate)
        × ((incoming_connection now d descriptor l).descriptor ≡ descriptor)
  unfolding incoming_connection set_property tcp
  incoming-certificate is now d descriptor l int =
      (is.to_text-of_text l.certificate, is.to_int-of_int descriptor int)

  -- An instance of a listener that forces encryption starts in its first state and, once it is
  -- initialized, does not leave it, whatever frames arrive and whatever else happens to it, as long
  -- as the handshake of encryption does not end and no other mode is set on it.
  pub forced-IsGuarded :
      IsQt q
      → (exists : String → Bool) (services : Services V) (now : ℕ) (s : Instance V) (descriptor : ℕ)
        (l : Listener) (es : List (ℕ × Event V)) (u : Tcp V)
      → opens q es ≡ false
      → run q exists services es
          (init q (incoming_connection now (device s) descriptor (set_ssl_mode ssl_forced l))).0
        ≡ some u
      → IsGuarded u
  unfolding incoming_connection set_property tcp init device
  forced-IsGuarded is exists services now s descriptor l es u keeps h =
      run-IsGuarded q exists services es _ u keeps
        (ground (arith, is.to_int-of_int 2 (omega arith)), refl) h
