-- ===== src/Startup/Tests.antt =====
-- A process that finds the Redis server of its configuration.
use supply_chain_game.Prelude.{◌≡◌, ◌↔◌, ℕ, true, false, [], ◌∷◌, none, some}
use supply_chain_game.Config.{App}
use supply_chain_game.Domain.Analytics.Tests.{whole}
use supply_chain_game.Usecase.Contracts.{AreReliable}
use supply_chain_game.Memory.Tests.{surroundings, no_file}
use supply_chain_game.Redis.Tests.{Server, Stored, client, codec, empty, client-laws, codec-laws}
use supply_chain_game.Startup.{Driver, Infrastructure, client_config, build_infrastructure}
use supply_chain_game.Startup.Storage.{DriverLaws, build_infrastructure-AreReliable}

abbrev driver : Driver Server Stored ℕ
driver = record {
  new_client = λ config ttl. client;
  ping = λ config. true;
  server = λ config. empty;
  codec = codec;
}

abbrev cfg : App
cfg = record {
  http_addr = ":8080";
  allowed_origins = "*" ∷ [];
  redis = record { enabled = true; addr = "redis:6379"; password = ""; db = 0; key_ttl = 0 };
}

driver-laws : DriverLaws driver cfg.redis
driver-laws = record { client = λ up. client-laws; codec = codec-laws }

build_infrastructure-AreReliable_example :
    ((build_infrastructure driver surroundings no_file whole cfg ≡ none)
      ↔ ((cfg.redis.enabled ≡ true) × (driver.ping (client_config cfg.redis) ≡ false)))
    × ((infrastructure : Infrastructure ℕ)
        → build_infrastructure driver surroundings no_file whole cfg ≡ some infrastructure
        → AreReliable infrastructure.ports)
build_infrastructure-AreReliable_example =
    build_infrastructure-AreReliable driver surroundings no_file whole cfg driver-laws
