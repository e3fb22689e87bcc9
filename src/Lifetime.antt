-- ===== src/Lifetime.antt =====
-- src/worker/main.ts: the life of the worker's process: `main`, `setupChannelsAndConsumers`,
-- `reconnect` and `gracefulShutdown`. What the process holds is named by its kind; the calls on it are
-- listed in their order. The attempts of `connectRabbitMQ` are in Connection.antt.
pub mod Shutdown
mod Tests
use node_b2b_orders.Base.{
  ℕ, String, Bool, true, false, not, ◌&&◌, Option, none, some, List, [], ◌∷◌, ◌++◌, map, ltb,
  str_eq, if◌then◌else◌,
}
use node_b2b_orders.Connection.{Connection, connected, gave_up, stopped, trying}
use node_b2b_orders.Guards.{non_empty}

pub data Channel : Type 0 where
  dispatch_channel orders_channel payments_channel : Channel

-- What the process does, in order.
pub data Effect : Type 0 where
  write_heartbeat start_heartbeat stop_heartbeat remove_heartbeat : Effect
  connect_redis quit_redis disconnect_prisma close_connection : Effect
  create_channel close_channel : Channel → Effect
  assert_exchange : (name : String) → Effect
  assert_queue : (name dead_letters : String) → Effect
  assert_plain_queue : (name : String) → Effect
  bind_queue : (queue exchange pattern : String) → Effect
  start_dispatcher start_cleanup stop_cleanup : Effect
  prefetch : Channel → ℕ → Effect
  consume_queue : Channel → (queue : String) → Effect
  exit : ℕ → Effect

pub record Names : Type 0 where
  pub exchange : String
  pub queue : String
  pub dlq : String
  pub payments_exchange : String
  pub payments_queue : String
  pub payments_dlq : String

-- The variables of the module.
pub record Process : Type 0 where
  pub shutdown_requested : Bool
  pub connection : Bool
  pub channels : List Channel
  pub prisma : Bool
  pub redis : Bool
  pub heartbeat : Bool
  pub cleanup : Bool

abbrev pub idle_process : Process
idle_process = record {
  shutdown_requested = false;
  connection = false;
  channels = [];
  prisma = false;
  redis = false;
  heartbeat = false;
  cleanup = false;
}

abbrev when : Bool → Effect → List Effect
when true e = e ∷ []
when false e = []

-- `gracefulShutdown`, where every error is ignored.
unfoldable pub graceful_shutdown : Process → List Effect × Process
graceful_shutdown p = if p.shutdown_requested then ([], p) else (
  when p.heartbeat stop_heartbeat
      ++ (when p.cleanup stop_cleanup
          ++ (remove_heartbeat
              ∷ (map close_channel p.channels
                  ++ (when p.connection close_connection
                      ++ (when p.prisma disconnect_prisma
                          ++ (when p.redis quit_redis ++ exit 0 ∷ [])))))),
  record p {
    shutdown_requested = true;
    channels = [];
    connection = false;
    prisma = false;
    redis = false;
  },
)

-- `ensureOrdersTopology` and `ensurePaymentsTopology`
abbrev topology : (exchange queue dlq pattern : String) → List Effect
topology exchange queue dlq pattern =
    assert_exchange exchange
    ∷ assert_plain_queue dlq
    ∷ assert_queue queue dlq
    ∷ bind_queue queue exchange pattern
    ∷ []

unfoldable pub ensure_orders_topology : Names → List Effect
ensure_orders_topology n = topology n.exchange n.queue n.dlq "#"

unfoldable pub ensure_payments_topology : Names → List Effect
ensure_payments_topology n =
    topology n.payments_exchange n.payments_queue n.payments_dlq "payment.settled"

-- `setupChannelsAndConsumers`
unfoldable pub setup_channels : Names → Process → List Effect × Process
unfolding ensure_orders_topology ensure_payments_topology
setup_channels n p = (
  create_channel dispatch_channel
      ∷ create_channel orders_channel
      ∷ create_channel payments_channel
      ∷ (ensure_orders_topology n
          ++ (ensure_orders_topology n
              ++ (ensure_payments_topology n
                  ++ (ensure_payments_topology n
                      ++ start_dispatcher
                        ∷ prefetch orders_channel 10
                        ∷ consume_queue orders_channel n.queue
                        ∷ prefetch payments_channel 10
                        ∷ consume_queue payments_channel n.payments_queue
                        ∷ [])))),
  record p { channels = dispatch_channel ∷ orders_channel ∷ payments_channel ∷ [] },
)

-- How the attempts to connect end for `reconnect`: where they give up the process ends, unless a
-- shutdown was requested meanwhile; `trying` is not the end yet.
abbrev reconnected : Names → Process → Connection → List Effect × Process
reconnected n p connected = setup_channels n (record p { connection = true })
reconnected n p gave_up = (exit 1 ∷ [], p)
reconnected n p stopped = ([], p)
reconnected n p trying = ([], p)

unfoldable pub reconnect : Names → Connection → Process → List Effect × Process
unfolding setup_channels
reconnect n attempts p = if p.shutdown_requested then ([], p) else reconnected n p attempts

-- The variables that `main` reads.
pub record Settings : Type 0 where
  pub node_env : String
  pub rabbitmq_url : Option String
  pub redis_url : Option String
  pub retention_days : ℕ

abbrev is_set : Option String → Bool
is_set v = elim (non_empty v) [ none ↦ false | some s ↦ true ]

-- The checks at the top of `main`.
unfoldable pub missing_setting : Settings → Option String
missing_setting s =
    if not (str_eq s.node_env "production")
    then none
    else if not (is_set s.rabbitmq_url)
    then some "RABBITMQ_URL environment variable is required in production"
    else if not (is_set s.redis_url)
    then some "REDIS_URL environment variable is required in production"
    else none

abbrev started : Process
started = record idle_process { heartbeat = true; prisma = true; redis = true }

abbrev with_cleanup : ℕ → List Effect × Process → List Effect × Process
with_cleanup days (effects, p) =
    if ltb 0 days
    then (effects ++ start_cleanup ∷ [], record p { cleanup = true })
    else (effects, p)

abbrev prepended : List Effect → List Effect × Process → List Effect × Process
prepended before (effects, p) = (before ++ effects, p)

abbrev connected_main : Names → ℕ → Connection → List Effect × Process
connected_main n days connected =
    with_cleanup days (setup_channels n (record started { connection = true }))
connected_main n days gave_up = (exit 1 ∷ [], started)
connected_main n days stopped = (exit 1 ∷ [], started)
connected_main n days trying = ([], started)

-- `main`, given how the attempts to connect ended; a throw ends the process with the code 1.
unfoldable pub main : Names → Settings → Connection → List Effect × Process
unfolding setup_channels missing_setting
main n s attempts = elim (missing_setting s) [
  | some message ↦ (exit 1 ∷ [], idle_process)
  | none ↦
      prepended (write_heartbeat ∷ start_heartbeat ∷ connect_redis ∷ [])
        (connected_main n s.retention_days attempts)
]
