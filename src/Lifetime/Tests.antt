-- ===== src/Lifetime/Tests.antt =====
-- A start without the address of the broker.
use node_b2b_orders.Base.{◌≡◌, refl, none, some}
use node_b2b_orders.Lifetime.{Settings, missing_setting}

abbrev settings : Settings
settings = record {
  node_env = "production";
  rabbitmq_url = none;
  redis_url = some "redis://cache";
  retention_days = 90;
}

refused_start :
    missing_setting settings ≡ some "RABBITMQ_URL environment variable is required in production"
unfolding missing_setting
refused_start = refl
