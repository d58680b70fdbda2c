-- ===== src/Model/Config.antt =====
-- model/config.go with the limits of model/constants.go: the configuration and its validation.
-- Fields that hold a Go `int` are signed; their width is not modelled, since no sum is formed.
pub mod Bounds
pub mod Tests
use git_sync_core.Prelude.{String, Bool, not, ◌||◌, ◌&&◌, ◌=ˢ◌, if◌then◌else◌, zero, suc, ℕ}
use git_sync_core.Prelude.Int.{ℤ, pos, negsuc, leb_ℤ}

pub record ServerConfig : Type 0 where
  pub host : String
  pub port : ℤ
  pub mode : String

pub record DatabaseConfig : Type 0 where
  pub driver : String
  pub dsn : String
  pub max_idle_conns : ℤ
  pub max_open_conns : ℤ
  pub conn_max_life_sec : ℤ
  pub conn_max_idle_sec : ℤ

pub record RedisConfig : Type 0 where
  pub addr : String
  pub password : String
  pub db : ℤ
  pub pool_size : ℤ
  pub min_idle_conns : ℤ
  pub dial_timeout_sec : ℤ
  pub read_timeout_sec : ℤ
  pub write_timeout_sec : ℤ

pub record GitConfig : Type 0 where
  pub backend : String
  pub temp_dir : String

pub record SyncConfig : Type 0 where
  pub max_concurrent : ℤ
  pub default_timeout : ℤ
  pub retry_count : ℤ

pub record WebhookConfig : Type 0 where
  pub rate_limit : ℤ
  pub max_body_size : ℤ

pub record LogConfig : Type 0 where
  pub level : String
  pub format : String

pub record Config : Type 0 where
  pub server : ServerConfig
  pub database : DatabaseConfig
  pub redis : RedisConfig
  pub git : GitConfig
  pub sync : SyncConfig
  pub webhook : WebhookConfig
  pub log : LogConfig

-- The three errors that `Validate` returns.
pub data ConfigError : Type 0 where
  driver_required dsn_required : ConfigError
  unsupported_driver : String → ConfigError

pub data Validated : Type 0 where
  valid : Config → Validated
  invalid : ConfigError → Validated

-- `if x <= 0 { x = d }`
unfoldable pub or_default : ℤ → ℕ → ℤ
or_default x d = if leb_ℤ x (pos 0) then pos d else x

-- `if x > top { x = top }`
unfoldable pub at_most : ℤ → ℕ → ℤ
at_most x top = if leb_ℤ x (pos top) then x else pos top

-- `if s == "" { s = d }`
unfoldable pub or_text : String → String → String
or_text s d = if s =ˢ "" then d else s

-- `if port <= 0 || port > 65535 { port = DefaultPort }`
unfoldable pub port_or_default : ℤ → ℤ
port_or_default p = if leb_ℤ p (pos 0) || not (leb_ℤ p (pos 65535)) then pos 8890 else p

-- The three tests on the database section, in the order of the source.
unfoldable pub supported_driver : String → Bool
supported_driver d = d =ˢ "mysql" || d =ˢ "sqlite"

unfoldable pub fill_server : ServerConfig → ServerConfig
fill_server s = record s { host = or_text s.host "0.0.0.0"; port = port_or_default s.port }

unfoldable pub fill_database : DatabaseConfig → DatabaseConfig
fill_database d = record d {
  max_idle_conns = or_default d.max_idle_conns 10;
  max_open_conns = at_most (or_default d.max_open_conns 100) 200;
  conn_max_life_sec = or_default d.conn_max_life_sec 300;
  conn_max_idle_sec = or_default d.conn_max_idle_sec 120;
}

-- The timeouts are set only where an address is configured.
unfoldable pub fill_redis : RedisConfig → RedisConfig
fill_redis r = if r.addr =ˢ "" then r else record r {
  dial_timeout_sec = or_default r.dial_timeout_sec 5;
  read_timeout_sec = or_default r.read_timeout_sec 3;
  write_timeout_sec = or_default r.write_timeout_sec 3;
}

unfoldable pub fill_sync : SyncConfig → SyncConfig
fill_sync s = record s {
  max_concurrent = at_most (or_default s.max_concurrent 5) 100;
  default_timeout = or_default s.default_timeout 300;
  retry_count = or_default s.retry_count 3;
}

-- The body sizes are `10 << 20` and `100 << 20`.
unfoldable pub fill_webhook : WebhookConfig → WebhookConfig
fill_webhook w = record w {
  rate_limit = at_most (or_default w.rate_limit 10) 10000;
  max_body_size = at_most (or_default w.max_body_size 10485760) 104857600;
}

unfoldable pub fill : Config → Config
fill c = record c {
  server = fill_server c.server;
  database = fill_database c.database;
  redis = fill_redis c.redis;
  git = record c.git { temp_dir = or_text c.git.temp_dir "/tmp/git-sync" };
  sync = fill_sync c.sync;
  webhook = fill_webhook c.webhook;
}

-- `Validate` also writes the server section before it returns an error; the callers drop the
-- configuration then, so an error carries none here.
unfoldable pub validate : Config → Validated
validate c =
    if c.database.driver =ˢ ""
    then invalid driver_required
    else if c.database.dsn =ˢ ""
    then invalid dsn_required
    else if supported_driver c.database.driver
    then valid (fill c)
    else invalid (unsupported_driver c.database.driver)
