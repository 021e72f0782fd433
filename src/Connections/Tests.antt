-- ===== src/Connections/Tests.antt =====
-- The theorem on the connection of the database at a migration that fails.
use gateway_a.Prelude.{Text, codes, pos, none, some, ok, message, ◌≡◌, ◌&&◌, refl}
use gateway_a.Config.{DatabaseConfig}
use gateway_a.Connections.{Postgres, dsn, init_db, is_connected, is_nil}
use gateway_a.Connections.Laws.{Outcome, init_db-is_connected}

-- A database that answers but refuses the migrations.
abbrev refusing : Postgres Text
refusing = record {
  open_dsn = λ d. ok d;
  no_pool = λ d. none;
  parse_duration = λ t. ok (pos 60);
  migrate = λ d. some (message (codes "permission denied"));
  ping = λ d. none;
}

abbrev settings : DatabaseConfig
settings = record {
  host = codes "db";
  port = codes "5432";
  user = codes "u";
  password = codes "p";
  db_name = codes "gateway";
  ssl_mode = codes "disable";
  max_open_conns = pos 25;
  max_idle_conns = pos 5;
  conn_max_lifetime = codes "1m";
}

dsn_lem : dsn settings ≡ codes "host=db port=5432 user=u password=p dbname=gateway sslmode=disable"
dsn_lem = refl

init_db-is_connected_example :
    Outcome refusing settings (dsn settings) (init_db refusing none settings)
    × (is_connected refusing (init_db refusing none settings).0
        ≡ (is_nil (refusing.no_pool (dsn settings)) && is_nil (refusing.ping (dsn settings))))
init_db-is_connected_example = init_db-is_connected refusing none settings (dsn settings) refl
