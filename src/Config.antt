-- ===== src/Config.antt =====
-- config/config.go: the settings and where they come from. `Scanner` is fmt.Sscanf with %d, which
-- leaves its variable as it is where it fails, and time.ParseDuration; the package viper, which
-- reads a file, is a parameter.
use gateway_a.Prelude.{
  ℤ, pos, Text, codes, Option, none, some, String, [], ◌∷◌, Error, wrapped, Result, ok, err, Bool,
  true, false,
}

pub record ServerConfig : Type 0 where
  pub host : Text
  pub port : Text

pub record RedisConfig : Type 0 where
  pub host : Text
  pub port : Text
  pub password : Text
  pub db : ℤ

pub record DatabaseConfig : Type 0 where
  pub host : Text
  pub port : Text
  pub user : Text
  pub password : Text
  pub db_name : Text
  pub ssl_mode : Text
  pub max_open_conns : ℤ
  pub max_idle_conns : ℤ
  pub conn_max_lifetime : Text

pub record LlmConfig : Type 0 where
  pub upstream_url : Text
  pub api_key : Text
  pub max_retries : ℤ
  -- in nanoseconds
  pub timeout : ℤ

pub record Config : Type 0 where
  pub server : ServerConfig
  pub logging_level : Text
  pub redis : RedisConfig
  pub database : DatabaseConfig
  pub llm : LlmConfig

abbrev pub default_config : Config
default_config = record {
  server = record { host = codes "0.0.0.0"; port = codes "8080" };
  logging_level = codes "info";
  redis = record { host = codes "localhost"; port = codes "6379"; password = []; db = pos 0 };
  database = record {
    host = codes "localhost";
    port = codes "5432";
    user = codes "postgres";
    password = [];
    db_name = codes "gateway_a";
    ssl_mode = codes "disable";
    max_open_conns = pos 25;
    max_idle_conns = pos 5;
    conn_max_lifetime = codes "5m";
  };
  llm = record {
    upstream_url = codes "https://api.openai.com/v1";
    api_key = [];
    max_retries = pos 2;
    timeout = pos 120000000000;
  };
}

pub record Scanner : Type 0 where
  pub scan_int : Text → Option ℤ
  pub parse_duration : Text → Option ℤ

-- os.Getenv
abbrev pub Environment : Type 0
Environment = String → Text

-- The value of a variable that is set and not empty, else the value held.
abbrev pub or_kept : Text → Text → Text
or_kept [] kept = kept
or_kept (c ∷ value) kept = c ∷ value

abbrev pub read_or_kept : Option ℤ → ℤ → ℤ
read_or_kept none kept = kept
read_or_kept (some n) kept = n

abbrev pub number_or_kept : (Text → Option ℤ) → Text → ℤ → ℤ
number_or_kept read [] kept = kept
number_or_kept read (c ∷ value) kept = read_or_kept (read (c ∷ value)) kept

-- loadFromEnv.
unfoldable pub load_from_env : Scanner → Environment → Config
load_from_env scanner env =
    let c = default_config in
    record {
      server = record {
        host = or_kept (env "SERVER_HOST") c.server.host;
        port = or_kept (env "PORT") c.server.port;
      };
      logging_level = or_kept (env "LOG_LEVEL") c.logging_level;
      redis = record {
        host = or_kept (env "REDIS_HOST") c.redis.host;
        port = or_kept (env "REDIS_PORT") c.redis.port;
        password = or_kept (env "REDIS_PASSWORD") c.redis.password;
        db = number_or_kept scanner.scan_int (env "REDIS_DB") c.redis.db;
      };
      database = record {
        host = or_kept (env "DB_HOST") c.database.host;
        port = or_kept (env "DB_PORT") c.database.port;
        user = or_kept (env "DB_USER") c.database.user;
        password = or_kept (env "DB_PASSWORD") c.database.password;
        db_name = or_kept (env "DB_NAME") c.database.db_name;
        ssl_mode = or_kept (env "DB_SSLMODE") c.database.ssl_mode;
        max_open_conns = c.database.max_open_conns;
        max_idle_conns = c.database.max_idle_conns;
        conn_max_lifetime = c.database.conn_max_lifetime;
      };
      llm = record {
        upstream_url = or_kept (env "LLM_UPSTREAM_URL") c.llm.upstream_url;
        api_key = or_kept (env "LLM_API_KEY") c.llm.api_key;
        max_retries = number_or_kept scanner.scan_int (env "LLM_MAX_RETRIES") c.llm.max_retries;
        timeout = number_or_kept scanner.parse_duration (env "LLM_TIMEOUT") c.llm.timeout;
      };
    }

-- What the file system and viper make of a path: whether os.Stat says that there is no such file,
-- the error of ReadInConfig, and Unmarshal into a configuration, with its environment.
pub record Files : Type 0 where
  pub missing : Text → Bool
  pub read_error : Text → Option Error
  pub unmarshal : Text → Config → Result Config

abbrev pub path_or_default : Text → Text
path_or_default [] = codes "config.yaml"
path_or_default (c ∷ path) = c ∷ path

abbrev pub unmarshalled : Result Config → Result Config
unmarshalled (ok c) = ok c
unmarshalled (err e) = err (wrapped (codes "failed to unmarshal config: ") e)

abbrev pub load_file : Scanner → Environment → Files → Text → Option Error → Result Config
load_file scanner env files path (some e) = ok (load_from_env scanner env)
load_file scanner env files path none = unmarshalled (files.unmarshal path default_config)

abbrev pub load_path : Scanner → Environment → Files → Text → Bool → Result Config
load_path scanner env files path true = ok (load_from_env scanner env)
load_path scanner env files path false = load_file scanner env files path (files.read_error path)

-- LoadConfig.
unfoldable pub load_config : Scanner → Environment → Files → Text → Result Config
unfolding load_from_env
load_config scanner env files config_path =
    let path = path_or_default config_path in load_path scanner env files path (files.missing path)
