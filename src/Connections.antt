-- ===== src/Connections.antt =====
-- pkg/database/database.go, pkg/redis/redis.go and NewTaskQueue of pkg/queue/queue.go: the connections
-- and the package variables `DB` and `Client` that hold them. The calls of gorm, go-redis and
-- time.ParseDuration are parameters; those of one definition are made in a fixed state of the world.
pub mod Laws
mod Tests
use gateway_a.Prelude.{
  ℤ, String, Text, codes, Bool, true, false, Option, none, some, List, [], ◌∷◌, ◌++◌, Error,
  message, wrapped, Result, ok, err,
}
use gateway_a.Config.{DatabaseConfig, RedisConfig}
use gateway_a.Queue.{QueueConfig}

-- gorm and database/sql, on handles of type D.
pub record Postgres (D : Type 0) : Type 0 where
  pub open_dsn : Text → Result D
  -- the error of DB.DB()
  pub no_pool : D → Option Error
  pub parse_duration : Text → Result ℤ
  pub migrate : D → Option Error
  pub ping : D → Option Error

-- redis.NewClient, on clients of type C.
pub record RedisServer (C : Type 0) : Type 0 where
  pub new_client : (addr password : Text) → (db : ℤ) → C
  pub ping : C → Option Error

-- The settings of the connection pool that InitDB makes, in order.
pub data Setting : Type 0 where
  max_open_conns max_idle_conns conn_max_lifetime : ℤ → Setting

abbrev pub is_nil : Option Error → Bool
is_nil none = true
is_nil (some e) = false

-- A wrapped error, or none.
abbrev pub because : String → Option Error → Option Error
because prefix none = none
because prefix (some e) = some (wrapped (codes prefix) e)

abbrev pub address : Text → Text → Text
address host port = host ++ (b':' ∷ port)

abbrev pub dsn : DatabaseConfig → Text
dsn c =
    codes "host="
    ++ (c.host
        ++ (codes " port="
            ++ (c.port
                ++ (codes " user="
                    ++ (c.user
                        ++ (codes " password="
                            ++ (c.password
                                ++ (codes " dbname="
                                    ++ (c.db_name ++ (codes " sslmode=" ++ c.ssl_mode))))))))))

module _ {D : Type 0} (P : Postgres D) where
  -- What InitDB leaves in DB, the settings, and the handle or the error that it returns.
  abbrev pub Initialized : Type 0
  Initialized = Option D × List Setting × Result D

  abbrev pub ping_opened : D → List Setting → Option Error → Initialized
  ping_opened d settings (some e) =
      (some d, settings, err (wrapped (codes "database ping failed: ") e))
  ping_opened d settings none = (some d, settings, ok d)

  abbrev pub migrate_opened : D → List Setting → Option Error → Initialized
  migrate_opened d settings (some e) =
      (some d, settings, err (wrapped (codes "failed to run migrations: ") e))
  migrate_opened d settings none = ping_opened d settings (P.ping d)

  abbrev pub limited : DatabaseConfig → List Setting
  limited c = max_open_conns c.max_open_conns ∷ max_idle_conns c.max_idle_conns ∷ []

  abbrev pub with_lifetime : DatabaseConfig → D → Result ℤ → Initialized
  with_lifetime c d (err e) =
      (some d, limited c, err (wrapped (codes "invalid conn_max_lifetime: ") e))
  with_lifetime c d (ok lifetime) =
      migrate_opened d (limited c ++ conn_max_lifetime lifetime ∷ []) (P.migrate d)

  abbrev pub with_pool : DatabaseConfig → D → Option Error → Initialized
  with_pool c d (some e) = (some d, [], err (wrapped (codes "failed to get underlying sql.DB: ") e))
  with_pool c d none = with_lifetime c d (P.parse_duration c.conn_max_lifetime)

  abbrev pub with_opened : Option D → DatabaseConfig → Result D → Initialized
  with_opened previous c (err e) =
      (previous, [], err (wrapped (codes "failed to connect to database: ") e))
  with_opened previous c (ok d) = with_pool c d (P.no_pool d)

  -- InitDB, where DB holds `previous`.
  unfoldable pub init_db : Option D → DatabaseConfig → Initialized
  init_db previous c = with_opened previous c (P.open_dsn (dsn c))

  -- IsConnected and HealthCheck, on what DB holds.
  unfoldable pub is_connected : Option D → Bool
  is_connected none = false
  is_connected (some d) = elim (P.no_pool d) [ some e ↦ false | none ↦ is_nil (P.ping d) ]

  unfoldable pub health_check : Option D → Option Error
  health_check none = some (message (codes "database connection not initialized"))
  health_check (some d) = elim (P.no_pool d) [
    | some e ↦ some (wrapped (codes "failed to get underlying sql.DB: ") e)
    | none ↦ because "database ping failed: " (P.ping d)
  ]

module _ {C : Type 0} (S : RedisServer C) where
  abbrev pub pinged : Option C → C → Option Error → Option C × Result C
  pinged previous c (some e) = (previous, err (wrapped (codes "failed to connect to Redis: ") e))
  pinged previous c none = (some c, ok c)

  abbrev pub client_of : RedisConfig → C
  client_of c = S.new_client (address c.host c.port) c.password c.db

  -- InitClient, where Client holds `previous`.
  unfoldable pub init_client : Option C → RedisConfig → Option C × Result C
  init_client previous c = pinged previous (client_of c) (S.ping (client_of c))

  unfoldable pub is_redis_connected : Option C → Bool
  is_redis_connected none = false
  is_redis_connected (some c) = is_nil (S.ping c)

  unfoldable pub redis_health_check : Option C → Option Error
  redis_health_check none = some (message (codes "Redis client not initialized"))
  redis_health_check (some c) = because "Redis ping failed: " (S.ping c)

  -- NewTaskQueue: a client of its own, and the settings of the operations.
  unfoldable pub new_task_queue : RedisConfig → QueueConfig → Result (C × QueueConfig)
  new_task_queue c q = elim (S.ping (client_of c)) [
    | some e ↦ err (wrapped (codes "failed to connect to Redis: ") e)
    | none ↦ ok (client_of c, q)
  ]
