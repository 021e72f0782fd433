-- ===== src/ConnectionPool/Clients.antt =====
-- The clients of middleware/connectionpool/pool.go, and the functions of
-- middleware/connectionpool/middleware.go that pass them on. A transport and a client of net/http are
-- their settings, times in nanoseconds; what a request gets is a parameter.
use gateway_a.Prelude.{
  ℕ, nat_eq, ℤ, pos, Text, text_eq, codes, Bool, true, false, Option, none, some, List, [], ◌∷◌,
  lookup, insert, if◌then◌else◌, ◌==◌, String, Error, message, Result, ok, err, ◌≡◌, lookup-insert,
  ap,
}
use gateway_a.ConnectionPool.{Stats, new_stats}

pub record PoolConfig : Type 0 where
  pub max_idle_conns : ℤ
  pub max_idle_conns_per_host : ℤ
  pub max_conns_per_host : ℤ
  pub max_conns : ℤ
  pub conn_max_lifetime : ℤ
  pub conn_max_idle_time : ℤ
  pub disable_compression : Bool
  pub keep_alive : ℤ

abbrev pub default_pool_config : PoolConfig
default_pool_config = record {
  max_idle_conns = pos 100;
  max_idle_conns_per_host = pos 10;
  max_conns_per_host = pos 50;
  max_conns = pos 1000;
  conn_max_lifetime = pos 300000000000;
  conn_max_idle_time = pos 30000000000;
  disable_compression = false;
  keep_alive = pos 30000000000;
}

-- http.Transport, with its dialer.
pub record Transport : Type 0 where
  pub max_idle_conns : ℤ
  pub max_idle_conns_per_host : ℤ
  pub max_conns_per_host : ℤ
  pub disable_compression : Bool
  pub idle_conn_timeout : ℤ
  pub dial_timeout : ℤ
  pub keep_alive : ℤ
  pub force_attempt_http2 : Bool

pub record Client : Type 0 where
  -- nil for http.DefaultTransport
  pub transport : Option Transport
  -- zero for none
  pub timeout : ℤ

-- HTTPTransport, whose literal is also that of NewTransportPool.
abbrev pub http_transport : PoolConfig → Transport
http_transport c = record {
  max_idle_conns = c.max_idle_conns;
  max_idle_conns_per_host = c.max_idle_conns_per_host;
  max_conns_per_host = c.max_conns_per_host;
  disable_compression = c.disable_compression;
  idle_conn_timeout = c.conn_max_idle_time;
  dial_timeout = pos 30000000000;
  keep_alive = c.keep_alive;
  force_attempt_http2 = true;
}

pub record TransportPool : Type 0 where
  pub transport : Transport
  pub config : PoolConfig
  pub stats : Stats

abbrev pub new_transport_pool : PoolConfig → TransportPool
new_transport_pool c = record { transport = http_transport c; config = c; stats = new_stats }

abbrev pub client_with_timeout : TransportPool → ℤ → Client
client_with_timeout p timeout = record { transport = some p.transport; timeout = timeout }

-- TransportPool.Client.
abbrev pub client_of : TransportPool → Client
client_of p = client_with_timeout p (pos 30000000000)

-- UpstreamClient.
abbrev pub upstream_client : PoolConfig → Client
upstream_client c = record { transport = some (http_transport c); timeout = pos 60000000000 }

-- http.DefaultClient.
abbrev pub default_client : Client
default_client = record { transport = none; timeout = pos 0 }

-- WithPoolWrapper, where `fn` is what the wrapped function makes.
abbrev pub with_pool_wrapper : Option TransportPool → (fn : Client) → Client
with_pool_wrapper none fn = fn
with_pool_wrapper (some p) fn = client_of p

-- Stats of the pool, less the time of the last update, which is never set.
abbrev pub stats_of : TransportPool → List (String × ℤ)
stats_of p =
    ("max_idle_conns", p.config.max_idle_conns)
    ∷ ("max_idle_per_host", p.config.max_idle_conns_per_host)
    ∷ ("max_conns_per_host", p.config.max_conns_per_host)
    ∷ ("max_total_conns", p.config.max_conns)
    ∷ ("total_requests", p.stats.total_req)
    ∷ ("total_responses", p.stats.total_resp)
    ∷ ("total_errors", p.stats.total_err)
    ∷ ("pending_requests", p.stats.pending)
    ∷ ("active_connections", p.stats.used_conns)
    ∷ []

-- The values of a Go context that this code tells apart.
pub data ContextValue : Type 0 where
  client : Client → ContextValue
  pool : TransportPool → ContextValue
  other : ContextValue

abbrev pub Context : Type 0
Context = List (Text × ContextValue)

abbrev as_client : Option ContextValue → Client
as_client (some (client c)) = c
as_client _ = default_client

-- GetClient; a nil context is `none`.
unfoldable pub get_client : Option Context → Client
get_client none = default_client
get_client (some c) = as_client (lookup (codes "upstream_client") c)

abbrev as_pool : Option ContextValue → Option TransportPool
as_pool (some (pool p)) = some p
as_pool _ = none

-- PoolFromContext.
unfoldable pub pool_from_context : Option Context → Option TransportPool
pool_from_context none = none
pool_from_context (some c) = as_pool (lookup (codes "upstream_pool") c)

-- The context that WithPoolContext hands on.
unfoldable pub with_pool_context : TransportPool → Context → Context
with_pool_context p c = insert (codes "upstream_client") (client (client_of p)) c

-- Behind WithPoolContext, GetClient finds the client of the pool, but PoolFromContext finds what it
-- found before: the pool itself is never stored.
pub with_pool_context-get_client :
    (p : TransportPool) (c : Context)
    → (get_client (some (with_pool_context p c)) ≡ client_of p)
      × (pool_from_context (some (with_pool_context p c)) ≡ pool_from_context (some c))
unfolding get_client pool_from_context with_pool_context
with_pool_context-get_client p c =
    let stored = client (client_of p) in
    (
      ap as_client (lookup-insert (codes "upstream_client") (codes "upstream_client") stored c),
      ap as_pool (lookup-insert (codes "upstream_client") (codes "upstream_pool") stored c),
    )

-- A response, of which HealthCheck looks at the status only.
abbrev health_of : Result ℕ → Option Error
health_of (err e) = some e
health_of (ok status) = if status == 200 then none else some (message (codes "HTTP error: "))

abbrev checked_request : Result (Unit {0}) → Result ℕ → Option Error
checked_request (err e) sent = some e
checked_request (ok _) sent = health_of sent

-- HealthCheck: the error of NewRequestWithContext, and what the client's Do returns. The body of an
-- HTTPError is never set.
unfoldable pub health_check :
    (built : Result (Unit {0})) → (sent : Client → Result ℕ) → Option Client → Option Error
health_check built sent none = checked_request built (sent default_client)
health_check built sent (some c) = checked_request built (sent c)
