-- ===== src/Server/Closing.antt =====
-- What main of cmd/main.go does on a signal: Shutdown, then the connections that InitDB and
-- InitClient returned.
use gateway_a.Prelude.{Option, none, some, List, [], ◌∷◌, ◌++◌, Error, Result, ok, err, ◌≡◌, ap}
use gateway_a.Config.{DatabaseConfig}
use gateway_a.Queue.Client.{Redis}
use gateway_a.Queue.Worker.{Worker}
use gateway_a.Connections.{Postgres, dsn, init_db}
use gateway_a.Connections.Laws.{init_db-is_connected}
use gateway_a.Server.Lifecycle.{ShutdownResult, Closing}

pub data ConnectionClosing : Type 0 where
  database_closed redis_closed : ConnectionClosing

module _ {D : Type 0} (P : Postgres D) where
  abbrev pub database_closing : Result D → List ConnectionClosing
  database_closing (err e) = []
  database_closing (ok d) = elim (P.no_pool d) [ some e ↦ [] | none ↦ database_closed ∷ [] ]

  abbrev pub redis_closing : {C : Type 0} → Result C → List ConnectionClosing
  redis_closing (err e) = []
  redis_closing (ok c) = redis_closed ∷ []

  -- The goroutine of main, for what Shutdown does; an error of it is only logged, and `none` is its
  -- panic.
  unfoldable pub on_signal :
      {R : Redis} {Q C : Type 0}
      → ShutdownResult R Q
      → Result D
      → Result C
      → Option (List ConnectionClosing)
  on_signal none db client = none
  on_signal (some r) db client = some (database_closing db ++ redis_closing client)

  -- A database that was opened by an InitDB that failed behind the opening stays in DB, and main
  -- does not close it: on a signal only the client of Redis may be closed.
  pub on_signal-init_db :
      {R : Redis} {Q C : Type 0} (r : Option (Worker R Q) × List Closing × Option Error)
      (previous : Option D) (c : DatabaseConfig) (d : D) (e : Error) (client : Result C)
      → P.open_dsn (dsn c) ≡ ok d
      → (init_db P previous c).2 ≡ err e
      → ((init_db P previous c).0 ≡ some d)
        × (on_signal {R = R} {Q = Q} (some r) (init_db P previous c).2 client
            ≡ some (redis_closing client))
  unfolding on_signal
  on_signal-init_db r previous c d e client opened failed = (
    (init_db-is_connected P previous c d opened).0.0,
    ap (λ x. some (database_closing x ++ redis_closing client)) failed,
  )
