-- ===== src/Model/Config/Tests.antt =====
-- Configurations of the repository's own tests, and the theorems at them.
use git_sync_core.Prelude.{◌≡◌, refl}
use git_sync_core.Prelude.Int.{pos, negsuc}
use git_sync_core.Model.Config.{
  Config, valid, invalid, unsupported_driver, or_default, at_most, or_text, port_or_default,
  supported_driver, fill_server, fill_database, fill_redis, fill_sync, fill_webhook, fill, validate,
}
use git_sync_core.Model.Config.Bounds.{IsUsable, validate-IsUsable}

-- A file that names a driver, a DSN and too many workers; the port is negative.
abbrev sparse : Config
sparse = record {
  server = record { host = ""; port = negsuc 0; mode = "" };
  database = record {
    driver = "sqlite";
    dsn = ":memory:";
    max_idle_conns = pos 0;
    max_open_conns = pos 500;
    conn_max_life_sec = pos 0;
    conn_max_idle_sec = pos 0;
  };
  redis = record {
    addr = "";
    password = "";
    db = pos 0;
    pool_size = pos 0;
    min_idle_conns = pos 0;
    dial_timeout_sec = pos 0;
    read_timeout_sec = pos 0;
    write_timeout_sec = pos 0;
  };
  git = record { backend = ""; temp_dir = "" };
  sync = record { max_concurrent = pos 1000; default_timeout = pos 0; retry_count = negsuc 4 };
  webhook = record { rate_limit = pos 0; max_body_size = pos 0 };
  log = record { level = ""; format = "" };
}

abbrev filled : Config
filled = record {
  server = record { host = "0.0.0.0"; port = pos 8890; mode = "" };
  database = record {
    driver = "sqlite";
    dsn = ":memory:";
    max_idle_conns = pos 10;
    max_open_conns = pos 200;
    conn_max_life_sec = pos 300;
    conn_max_idle_sec = pos 120;
  };
  redis = sparse.redis;
  git = record { backend = ""; temp_dir = "/tmp/git-sync" };
  sync = record { max_concurrent = pos 100; default_timeout = pos 300; retry_count = pos 3 };
  webhook = record { rate_limit = pos 10; max_body_size = pos 10485760 };
  log = record { level = ""; format = "" };
}

sparse_valid : validate sparse ≡ valid filled
unfolding validate fill fill_server fill_database fill_redis fill_sync fill_webhook or_default
    at_most or_text port_or_default supported_driver
sparse_valid = refl

bad_driver :
    validate (record sparse { database = record sparse.database { driver = "oracle" } })
    ≡ invalid (unsupported_driver "oracle")
unfolding validate supported_driver
bad_driver = refl

validate-IsUsable_example : IsUsable filled
validate-IsUsable_example = validate-IsUsable sparse sparse_valid
