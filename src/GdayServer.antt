-- ===== src/GdayServer.antt =====
-- gday_server/src/main.rs: what the program does before it serves. What the system and rustls answer is
-- an argument, and so are the arguments once they are parsed; messages are left out.
use gday_old.Base.{ℕ, Option, none, some, List}
use gday_old.Base.Outcome.{Outcome, returns, exits, panics, ◌>>=◌, Result, ok, err}
use gday_old.Base.Text.{Bytes}
use gday_old.HolePunch.Service.{Service, Event, run, new_service}

pub record Cli : Type 0 where
  pub key : Bytes
  pub certificate : Bytes

-- `with_single_cert` takes a certificate and a key, and the acceptor is made from the result.
pub record System : Type 0 where
  pub bind : Option ℕ
  pub set_tcp_keepalive : Option ℕ
  pub read : Bytes → Result ℕ Bytes
  pub with_single_cert : Bytes → Bytes → Option ℕ
  pub try_from : Option ℕ

-- `unwrap_or_else` with `exit(1)`.
abbrev pub exit_if_failed : Option ℕ → Outcome (Unit {0})
exit_if_failed none = returns tt
exit_if_failed (some e) = exits 1

abbrev pub read_or_exit : Result ℕ Bytes → Outcome Bytes
read_or_exit (ok s) = returns s
read_or_exit (err e) = exits 1

-- `unwrap`.
abbrev pub unwrapped : Option ℕ → Outcome (Unit {0})
unwrapped none = returns tt
unwrapped (some e) = panics

unfoldable pub get_tls_acceptor : System → Cli → Outcome (Unit {0})
get_tls_acceptor system cli = read_or_exit (system.read cli.key) >>= λ key.
    read_or_exit (system.read cli.certificate) >>= λ certificate.
    unwrapped (system.with_single_cert certificate key) >>= λ _. exit_if_failed system.try_from

-- `main`, and where the server stands after some events; `server::run` does not end.
unfoldable pub main : System → Cli → List Event → Outcome Service
main system cli events = exit_if_failed system.bind >>= λ _.
    exit_if_failed system.set_tcp_keepalive >>= λ _.
    get_tls_acceptor system cli >>= λ _. returns (run events new_service)
