-- ===== src/Gday/ServerConnector.antt =====
-- gday/src/server_connector.rs, and the constants of gday/src/main.rs that it is called with. What the
-- system and rustls answer is an argument. A Line is a connection to the server behind its TLS
-- handshake.
use gday_old.Base.{ℕ, ◌+◌, ◌*◌, Bool, true, false, Option, none, some}
use gday_old.Base.Outcome.{Outcome, returns, panics, Result, ok, err}
use gday_old.HolePunch.Contact.{SocketAddr, V4, V6}
use gday_old.HolePunch.Client.{Line}

-- SERVER_V6 and SERVER_V4.
abbrev pub server_v6 : SocketAddr
server_v6 = V6 (record {
  ip = 0x2603_c024_c00c_b17e_fce5_f16d_4207_b22d;
  port = 49_870;
  flowinfo = 0;
  scope_id = 0;
})

abbrev pub server_v4 : SocketAddr
server_v4 = V4 (record { ip = ((146 * 256 + 235) * 256 + 206) * 256 + 20; port = 49_870 })

-- How the system opens sockets and connects to an address, and how the handshake comes out.
pub record Route : Type 0 where
  pub new_v6 : Option ℕ
  pub new_v4 : Option ℕ
  pub tcp_connect : SocketAddr → Option ℕ
  pub tls_connect : SocketAddr → Result ℕ Line

-- `cert_added` is how the certificate store takes the certificate.
unfoldable pub get_tls_connector : Option ℕ → Result ℕ (Unit {0})
get_tls_connector none = ok tt
get_tls_connector (some e) = err e

-- The socket of the address's family.
abbrev pub new_socket : Route → SocketAddr → Option ℕ
new_socket route (V6 addr) = route.new_v6
new_socket route (V4 addr) = route.new_v4

-- `server_name.try_into().unwrap()` and the handshake.
abbrev pub handshake : Bool → Result ℕ Line → Outcome (Result ℕ Line)
handshake true tls = returns tls
handshake false tls = panics

abbrev pub connected : Bool → Option ℕ → Option ℕ → Result ℕ Line → Outcome (Result ℕ Line)
connected valid_name (some e) tcp tls = returns (err e)
connected valid_name none (some e) tls = returns (err e)
connected valid_name none none tls = handshake valid_name tls

-- The options of the socket are ones whose errors are dropped.
unfoldable pub connect : Bool → Route → SocketAddr → Outcome (Result ℕ Line)
connect valid_name route server_addr =
    connected valid_name (new_socket route server_addr) (route.tcp_connect server_addr)
      (route.tls_connect server_addr)
