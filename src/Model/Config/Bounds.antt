-- ===== src/Model/Config/Bounds.antt =====
-- What a configuration satisfies once `Validate` has accepted it.
use git_sync_core.Prelude.{
  ℕ, ◌≤◌, ◌≡◌, refl, String, true, false, ◌↔◌, ◌⊎◌, inl, inr, ◌≢◌, arith, ◌=ˢ◌, eq_iff, Bool-cases,
  subst, ap, ◌∙◌,
}
use git_sync_core.Prelude.Int.{ℤ, pos, negsuc}
use git_sync_core.Model.Config.{
  RedisConfig, Config, valid, invalid, ConfigError, driver_required, dsn_required,
  unsupported_driver, or_default, at_most, or_text, port_or_default, supported_driver, fill_server,
  fill_database, fill_redis, fill_sync, fill_webhook, fill, validate,
}

-- `Between lo hi x`: the integer `x` is a number from `lo` to `hi`.
abbrev pub Between : ℕ → ℕ → ℤ → Type 0
Between lo hi (pos n) = (lo ≤ n) × (n ≤ hi)
Between lo hi (negsuc n) = ⊥

abbrev pub IsPositive : ℤ → Type 0
IsPositive (pos n) = 1 ≤ n
IsPositive (negsuc n) = ⊥

or_default-IsPositive : (x : ℤ) (d : ℕ) → 1 ≤ d → IsPositive (or_default x d)
unfolding or_default
or_default-IsPositive (pos n) d h = ground arith
or_default-IsPositive (negsuc n) d h = h

or_default-Between :
    (x : ℤ) (d top : ℕ) → 1 ≤ d → d ≤ top → Between 1 top (at_most (or_default x d) top)
unfolding or_default at_most
or_default-Between (pos n) d top h k = ground arith
or_default-Between (negsuc n) d top h k = ground arith

port-Between : (x : ℤ) → Between 1 65535 (port_or_default x)
unfolding port_or_default
port-Between (pos n) = ground arith
port-Between (negsuc n) = ground arith

or_text-ne : (s d : String) → d ≢ "" → or_text s d ≢ ""
unfolding or_text
or_text-ne s d h e = ground (arith, eq_iff s "")

-- The values in range stay as they are.
or_default_keeps : (x : ℤ) (d : ℕ) → IsPositive x → or_default x d ≡ x
unfolding or_default
or_default_keeps (pos n) d h = ground arith
or_default_keeps (negsuc n) d h = absurd h

at_most_keeps : (x : ℤ) (d top : ℕ) → Between 1 top x → at_most (or_default x d) top ≡ x
unfolding or_default at_most
at_most_keeps (pos n) d top h = ground arith
at_most_keeps (negsuc n) d top h = absurd h

port_keeps : (x : ℤ) → Between 1 65535 x → port_or_default x ≡ x
unfolding port_or_default
port_keeps (pos n) h = ground arith
port_keeps (negsuc n) h = absurd h

or_text_keeps : (s d : String) → s ≢ "" → or_text s d ≡ s
unfolding or_text
or_text_keeps s d h = ground (arith, eq_iff s "")

=ˢ_false : (s t : String) → (s =ˢ t) ≡ false → s ≢ t
=ˢ_false s t h e = cc ((eq_iff s t).1 e)

-- Every limit that the program relies on later.
pub record IsUsable (c : Config) : Type 0 where
  pub host : c.server.host ≢ ""
  pub port : Between 1 65535 c.server.port
  pub driver : (c.database.driver ≡ "mysql") ⊎ (c.database.driver ≡ "sqlite")
  pub dsn : c.database.dsn ≢ ""
  pub max_idle_conns : IsPositive c.database.max_idle_conns
  pub max_open_conns : Between 1 200 c.database.max_open_conns
  pub conn_max_life_sec : IsPositive c.database.conn_max_life_sec
  pub conn_max_idle_sec : IsPositive c.database.conn_max_idle_sec
  pub timeouts :
      c.redis.addr ≢ ""
      → IsPositive c.redis.dial_timeout_sec
        × IsPositive c.redis.read_timeout_sec
        × IsPositive c.redis.write_timeout_sec
  pub temp_dir : c.git.temp_dir ≢ ""
  pub max_concurrent : Between 1 100 c.sync.max_concurrent
  pub default_timeout : IsPositive c.sync.default_timeout
  pub retry_count : IsPositive c.sync.retry_count
  pub rate_limit : Between 1 10000 c.webhook.rate_limit
  pub max_body_size : Between 1 104857600 c.webhook.max_body_size

redis_timeouts :
    (r : RedisConfig)
    → (fill_redis r).addr ≢ ""
    → IsPositive (fill_redis r).dial_timeout_sec
      × IsPositive (fill_redis r).read_timeout_sec
      × IsPositive (fill_redis r).write_timeout_sec
unfolding fill_redis
redis_timeouts r h = ground (
  arith,
  eq_iff r.addr "",
  or_default-IsPositive r.dial_timeout_sec 5 (omega arith),
  or_default-IsPositive r.read_timeout_sec 3 (omega arith),
  or_default-IsPositive r.write_timeout_sec 3 (omega arith),
)

redis_keeps :
    (r : RedisConfig)
    → (r.addr ≢ ""
        → IsPositive r.dial_timeout_sec
          × IsPositive r.read_timeout_sec
          × IsPositive r.write_timeout_sec)
    → fill_redis r ≡ r
unfolding fill_redis
redis_keeps r h = elim (Bool-cases (r.addr =ˢ "")) [
  | inl e ↦ rw e refl
  | inr e ↦
      let t = h (λ q. cc ((eq_iff r.addr "").1 q)) in
      rw
        (
          e,
          or_default_keeps r.dial_timeout_sec 5 t.0,
          or_default_keeps r.read_timeout_sec 3 t.1,
          or_default_keeps r.write_timeout_sec 3 t.2,
        )
        refl
]

fill-IsUsable :
    (c : Config)
    → (c.database.driver ≡ "mysql") ⊎ (c.database.driver ≡ "sqlite")
    → c.database.dsn ≢ ""
    → IsUsable (fill c)
unfolding fill fill_server fill_database fill_sync fill_webhook
fill-IsUsable c d n = record {
  host = or_text-ne c.server.host _ (=ˢ_false "0.0.0.0" "" refl);
  port = port-Between c.server.port;
  driver = d;
  dsn = n;
  max_idle_conns = or_default-IsPositive c.database.max_idle_conns _ (omega arith);
  max_open_conns = or_default-Between c.database.max_open_conns _ _ (omega arith) (omega arith);
  conn_max_life_sec = or_default-IsPositive c.database.conn_max_life_sec _ (omega arith);
  conn_max_idle_sec = or_default-IsPositive c.database.conn_max_idle_sec _ (omega arith);
  timeouts = redis_timeouts c.redis;
  temp_dir = or_text-ne c.git.temp_dir _ (=ˢ_false "/tmp/git-sync" "" refl);
  max_concurrent = or_default-Between c.sync.max_concurrent _ _ (omega arith) (omega arith);
  default_timeout = or_default-IsPositive c.sync.default_timeout _ (omega arith);
  retry_count = or_default-IsPositive c.sync.retry_count _ (omega arith);
  rate_limit = or_default-Between c.webhook.rate_limit _ _ (omega arith) (omega arith);
  max_body_size = or_default-Between c.webhook.max_body_size _ _ (omega arith) (omega arith);
}

abbrev Accepted : Config → Type 0
Accepted c =
    ((c.database.driver ≡ "mysql") ⊎ (c.database.driver ≡ "sqlite")) × (c.database.dsn ≢ "")

supported_iff : (d : String) → (supported_driver d ≡ true) ↔ ((d ≡ "mysql") ⊎ (d ≡ "sqlite"))
unfolding supported_driver
supported_iff d = ground (arith, eq_iff d "mysql", eq_iff d "sqlite")

named : (d : String) → (d ≡ "mysql") ⊎ (d ≡ "sqlite") → (d =ˢ "") ≡ false
named d (inl e) = rw e
named d (inr e) = rw e

validate-cases :
    (c : Config)
    → (Accepted c × (validate c ≡ valid (fill c)))
      ⊎ ((¬ Accepted c) × (e : ConfigError) × (validate c ≡ invalid e))
unfolding validate
validate-cases c = elim (Bool-cases (c.database.driver =ˢ "")) [
  | inl e ↦ inr (λ a. cc (named c.database.driver a.0), driver_required, rw e)
  | inr n ↦ elim (Bool-cases (c.database.dsn =ˢ "")) [
    | inl e ↦ inr (λ a. a.1 ((eq_iff c.database.dsn "").0 e), dsn_required, rw (n, e))
    | inr m ↦ elim (Bool-cases (supported_driver c.database.driver)) [
      | inl e ↦ inl (((supported_iff _).0 e, =ˢ_false c.database.dsn "" m), rw (n, m, e))
      | inr w ↦ inr (
        λ a. cc ((supported_iff c.database.driver).1 a.0),
        unsupported_driver c.database.driver,
        rw (n, m, w),
      )
    ]
  ]
]

fill_keeps : (c : Config) → IsUsable c → fill c ≡ c
unfolding fill fill_server fill_database fill_sync fill_webhook
fill_keeps c u = rw (
  or_text_keeps c.server.host "0.0.0.0" u.host,
  port_keeps c.server.port u.port,
  or_default_keeps c.database.max_idle_conns 10 u.max_idle_conns,
  at_most_keeps c.database.max_open_conns 100 200 u.max_open_conns,
  or_default_keeps c.database.conn_max_life_sec 300 u.conn_max_life_sec,
  or_default_keeps c.database.conn_max_idle_sec 120 u.conn_max_idle_sec,
  redis_keeps c.redis u.timeouts,
  or_text_keeps c.git.temp_dir "/tmp/git-sync" u.temp_dir,
  at_most_keeps c.sync.max_concurrent 5 100 u.max_concurrent,
  or_default_keeps c.sync.default_timeout 300 u.default_timeout,
  or_default_keeps c.sync.retry_count 3 u.retry_count,
  at_most_keeps c.webhook.rate_limit 10 10000 u.rate_limit,
  at_most_keeps c.webhook.max_body_size 10485760 104857600 u.max_body_size,
)

-- A configuration that `Validate` accepts comes back with every limit in range: the port, the
-- pool sizes, the concurrency limit of 1 to 100, the retries, the webhook limits, and the redis
-- timeouts where an address is set.
pub validate-IsUsable : (c : Config) {c' : Config} → validate c ≡ valid c' → IsUsable c'
validate-IsUsable c {c'} h = elim (validate-cases c) [
  | inl (a, e) ↦ subst IsUsable (ground (arith, e)) (fill-IsUsable c a.0 a.1)
  | inr (_, _, e) ↦ cc
]

-- A configuration that is usable already is accepted and comes back unchanged.
pub validate_keeps : (c : Config) → IsUsable c → validate c ≡ valid c
validate_keeps c u = elim (validate-cases c) [
  | inl (a, e) ↦ e ∙ ap valid (fill_keeps c u)
  | inr (n, _, e) ↦ absurd (n (u.driver, u.dsn))
]
