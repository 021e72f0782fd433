-- ===== src/Connections/Laws.antt =====
-- pkg/database/database.go and pkg/redis/redis.go: what a failed start leaves behind.
use gateway_a.Prelude.{
  Bool, true, false, ◌&&◌, Option, none, some, List, Result, ok, err, ℤ, ◌≡◌, ◌↔◌, if◌then◌else◌,
  arith,
}
use gateway_a.Config.{DatabaseConfig, RedisConfig}
use gateway_a.Connections.{
  Postgres, RedisServer, Setting, is_nil, dsn, init_db, is_connected, health_check, client_of,
  init_client, is_redis_connected, redis_health_check,
}

module _ {D : Type 0} (P : Postgres D) where
  abbrev pub parses : Result ℤ → Bool
  parses (ok n) = true
  parses (err e) = false

  -- The steps behind the opening.
  abbrev pub works : DatabaseConfig → D → Bool
  works c d =
      is_nil (P.no_pool d)
      && parses (P.parse_duration c.conn_max_lifetime)
      && is_nil (P.migrate d)
      && is_nil (P.ping d)

  abbrev pub Outcome : DatabaseConfig → D → Option D × List Setting × Result D → Type 0
  Outcome c d r = (r.0 ≡ some d) × ((r.2 ≡ ok d) ↔ (works c d ≡ true))

  -- Once the database is opened, InitDB stores it in DB whatever follows, and returns it exactly
  -- if its pool can be had, the lifetime is a duration, and the migrations and the ping work.
  -- So after an InitDB that failed behind the opening IsConnected is true wherever the pool
  -- can be had and the ping works, as after a bad lifetime or a failed migration.
  pub init_db-is_connected :
      (previous : Option D) (c : DatabaseConfig) (d : D)
      → P.open_dsn (dsn c) ≡ ok d
      → Outcome c d (init_db P previous c)
        × (is_connected P (init_db P previous c).0 ≡ (is_nil (P.no_pool d) && is_nil (P.ping d)))
  unfolding init_db is_connected
  init_db-is_connected previous c d h = ((ground arith, (ground arith, ground arith)), ground arith)

  -- HealthCheck has no error exactly where IsConnected holds.
  pub health_check-is_connected :
      (db : Option D) → (health_check P db ≡ none) ↔ (is_connected P db ≡ true)
  unfolding health_check is_connected
  health_check-is_connected none = (λ h. cc, λ h. cc)
  health_check-is_connected (some d) = (ground arith, ground arith)

module _ {C : Type 0} (S : RedisServer C) where
  -- InitClient stores its client exactly if the ping works: after a failure Client is as before.
  pub init_client-is_redis_connected :
      (previous : Option C) (c : RedisConfig)
      → (init_client S previous c).0
        ≡ (if is_nil (S.ping (client_of S c)) then some (client_of S c) else previous)
  unfolding init_client
  init_client-is_redis_connected previous c = ground arith

  pub redis_health_check-is_redis_connected :
      (client : Option C)
      → (redis_health_check S client ≡ none) ↔ (is_redis_connected S client ≡ true)
  unfolding redis_health_check is_redis_connected
  redis_health_check-is_redis_connected none = (λ h. cc, λ h. cc)
  redis_health_check-is_redis_connected (some c) = (ground arith, ground arith)
