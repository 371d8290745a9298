-- ===== src/Startup/Storage.antt =====
-- What `buildInfrastructure` gives to the services.
use supply_chain_game.Prelude.{
  ◌≡◌, ◌↔◌, refl, true, false, Option, none, some, Bool-cases, inl, inr, subst,
}
use supply_chain_game.Result.{Result}
use supply_chain_game.Config.{App, RedisSettings}
use supply_chain_game.Domain.Session.{GameSession}
use supply_chain_game.Domain.Analytics.{Floats, SessionAnalytics}
use supply_chain_game.Usecase.Ports.{Surroundings, ExportedFile}
use supply_chain_game.Usecase.Contracts.{AreReliable}
use supply_chain_game.Memory.Stores.Laws.{in_memory-AreReliable}
use supply_chain_game.Redis.Stores.Server.{ClientLaws, CodecLaws}
use supply_chain_game.Redis.Stores.Laws.{in_redis-AreReliable}
use supply_chain_game.Startup.{Driver, Infrastructure, client_config, build_infrastructure}

-- The server of these settings: if it answers to Ping, it goes on answering, and no key expires
-- while the process runs. JSON is read back as it was written.
pub record DriverLaws {C P F : Type 0} (driver : Driver C P F) (redis : RedisSettings)
    : Type 0 where
  pub client :
      driver.ping (client_config redis) ≡ true
      → ClientLaws (driver.new_client (client_config redis) redis.key_ttl)
  pub codec : CodecLaws driver.codec

abbrev OnReliable : {F : Type 0} → Option (Infrastructure F) → Type 0
OnReliable none = Unit
OnReliable (some infrastructure) = AreReliable infrastructure.ports

module _ {C P F : Type 0} (driver : Driver C P F) (surroundings : Surroundings)
    (export_session : GameSession → SessionAnalytics F → Result ExportedFile) (floats : Floats F)
    (cfg : App) (laws : DriverLaws driver cfg.redis) where
  -- What is built for the configuration.
  abbrev built : Option (Infrastructure F)
  built = build_infrastructure driver surroundings export_session floats cfg

  stops :
      (built ≡ none)
      ↔ ((cfg.redis.enabled ≡ true) × (driver.ping (client_config cfg.redis) ≡ false))
  unfolding build_infrastructure
  stops = elim (Bool-cases cfg.redis.enabled) [
    | inr memory ↦ rw memory ((λ e. cc), (λ (e, p). cc))
    | inl redis ↦ elim (Bool-cases (driver.ping (client_config cfg.redis))) [
      | inl up ↦ rw (redis, up) ((λ e. cc), (λ (e, p). cc))
      | inr down ↦ rw (redis, down) ((λ e. (refl, refl)), (λ e. refl))
    ]
  ]

  built-AreReliable : OnReliable built
  unfolding build_infrastructure
  built-AreReliable = elim (Bool-cases cfg.redis.enabled) [
    | inr memory ↦ rw memory (in_memory-AreReliable surroundings export_session floats)
    | inl redis ↦ elim (Bool-cases (driver.ping (client_config cfg.redis))) [
      | inl up ↦
          rw (redis, up)
            (in_redis-AreReliable (driver.new_client (client_config cfg.redis) cfg.redis.key_ttl)
              driver.codec (laws.client up) laws.codec surroundings export_session floats)
      | inr down ↦ rw (redis, down) tt
    ]
  ]

  -- When the server of the configuration, if it answers to Ping, goes on answering and expires no
  -- key, and JSON is read back as written: wherever the services run, in memory or on Redis, they run
  -- on stores that answer and give back what was saved; and the process ends at the start exactly
  -- when Redis is enabled and does not answer to Ping.
  pub build_infrastructure-AreReliable :
      ((build_infrastructure driver surroundings export_session floats cfg ≡ none)
        ↔ ((cfg.redis.enabled ≡ true) × (driver.ping (client_config cfg.redis) ≡ false)))
      × ((infrastructure : Infrastructure F)
          → build_infrastructure driver surroundings export_session floats cfg ≡ some infrastructure
          → AreReliable infrastructure.ports)
  build_infrastructure-AreReliable =
      (stops, λ infrastructure e. subst OnReliable e built-AreReliable)
