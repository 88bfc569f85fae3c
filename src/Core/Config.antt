-- ===== src/Core/Config.antt =====
-- The configuration: include/gateway/core/config.h and src/core/config.cpp.
use api_gateway.Prelude.{List, [], ◌∷◌, Bytes, bytes}
use api_gateway.Prelude.Int.{ℤ, pos}

pub record Backend : Type 0 where
  pub host : Bytes
  pub port : ℤ

pub record Route : Type 0 where
  pub prefix : Bytes
  pub backends : List Backend

pub record GatewayConfig : Type 0 where
  pub listen_port : ℤ
  pub keep_alive_timeout_sec : ℤ
  pub thread_count : ℤ
  pub backend_timeout_ms : ℤ
  pub max_request_size : ℤ
  pub max_epoll_events : ℤ
  pub idle_cleanup_interval_sec : ℤ
  pub pool_max_idle_per_host : ℤ
  pub pool_idle_timeout_sec : ℤ
  pub max_connections : ℤ
  pub max_queue_size : ℤ
  pub max_deferred_per_round : ℤ
  pub routes : List Route

-- `GatewayConfig cfg;`, with the members' initialisers.
abbrev pub initial_config : GatewayConfig
initial_config = record {
  listen_port = pos 8080;
  keep_alive_timeout_sec = pos 10;
  thread_count = pos 4;
  backend_timeout_ms = pos 3000;
  max_request_size = pos 65536;
  max_epoll_events = pos 512;
  idle_cleanup_interval_sec = pos 5;
  pool_max_idle_per_host = pos 10;
  pool_idle_timeout_sec = pos 60;
  max_connections = pos 10000;
  max_queue_size = pos 2048;
  max_deferred_per_round = pos 256;
  routes = [];
}

abbrev pub load_default_config : GatewayConfig
load_default_config = record initial_config {
  routes =
      record {
        prefix = bytes "/api/user";
        backends = record { host = bytes "127.0.0.1"; port = pos 9001 } ∷ [];
      }
      ∷ record {
        prefix = bytes "/api/order";
        backends = record { host = bytes "127.0.0.1"; port = pos 9002 } ∷ [];
      }
      ∷ [];
}
