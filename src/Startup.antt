-- ===== src/Startup.antt =====
-- cmd/api/main.go: what the process is put together from. The listener, the signals and the log are
-- left out.
pub mod Storage
mod Tests
use supply_chain_game.Prelude.{◌≡◌, Bool, true, List, [], Option, none, some, String, if◌then◌else◌}
use supply_chain_game.Word.{GoInt}
use supply_chain_game.Result.{Result}
use supply_chain_game.Config.{App, RedisSettings}
use supply_chain_game.Domain.Scenario.{Rand}
use supply_chain_game.Domain.Session.{GameSession}
use supply_chain_game.Domain.Analytics.{Floats, SessionAnalytics}
use supply_chain_game.Usecase.Ports.{Ports, World, Surroundings, ExportedFile}
use supply_chain_game.Memory.Stores.{
  Rooms, Sessions, Decisions, no_rooms, no_sessions, no_stored_decisions,
}
use supply_chain_game.Memory.Stores.Laws.{in_memory}
use supply_chain_game.Redis.Stores.{Client, Codec}
use supply_chain_game.Redis.Stores.Laws.{in_redis}
use supply_chain_game.Http.Answers.{Writer, Outcome}
use supply_chain_game.Http.Requests.{Decoder, Request}
use supply_chain_game.Http.Server.{Site}
use supply_chain_game.Http.Routing.{serve}
use supply_chain_game.Http.Middleware.{HttpHandler, api_handler}

-- `redisinfra.Config`
pub record ClientConfig : Type 0 where
  pub addr : String
  pub password : String
  pub db : GoInt

-- go-redis: the client of a configuration, whose keys live as long as told; whether the server answers
-- to Ping; and what it holds when the process starts.
pub record Driver (C P F : Type 0) : Type 0 where
  pub new_client : ClientConfig → GoInt → Client C P
  pub ping : ClientConfig → Bool
  pub server : ClientConfig → C
  pub codec : Codec P F

-- The stores and the publisher, over the world at the start.
pub record Infrastructure (F : Type 0) : Type 1 where
  pub R : Type 0
  pub S : Type 0
  pub D : Type 0
  pub ports : Ports R S D F
  pub world : World R S D F

unfoldable pub client_config : RedisSettings → ClientConfig
client_config redis = record { addr = redis.addr; password = redis.password; db = redis.db }

module _ {C P F : Type 0} (driver : Driver C P F) (surroundings : Surroundings)
    (export_session : GameSession → SessionAnalytics F → Result ExportedFile)
    (floats : Floats F) where
  -- The three stores and the bus are over one client.
  over_redis : RedisSettings → Infrastructure F
  over_redis redis = record {
    R = C;
    S = C;
    D = C;
    ports =
        in_redis (driver.new_client (client_config redis) redis.key_ttl) driver.codec surroundings
          export_session floats;
    world = record {
      rooms = driver.server (client_config redis);
      sessions = driver.server (client_config redis);
      decisions = driver.server (client_config redis);
      published = [];
      ids_read = 0;
      times_read = 0;
    };
  }

  over_memory : Infrastructure F
  over_memory = record {
    R = Rooms;
    S = Sessions;
    D = Decisions;
    ports = in_memory surroundings export_session floats;
    world = record {
      rooms = no_rooms;
      sessions = no_sessions;
      decisions = no_stored_decisions;
      published = [];
      ids_read = 0;
      times_read = 0;
    };
  }

  -- `none` stands for `log.Fatalf`, which ends the process.
  unfoldable pub build_infrastructure : App → Option (Infrastructure F)
  unfolding client_config over_redis over_memory
  build_infrastructure cfg =
      if cfg.redis.enabled
      then (if driver.ping (client_config cfg.redis) then some (over_redis cfg.redis) else none)
      else some over_memory

-- The server has the bus as its source of events.
abbrev with_events : {Body F : Type 0} → Site Body F → Site Body F
with_events site = record site { has_events = true }

-- The handler that `main` serves over what has been built.
unfoldable pub main_handler :
    {Body F : Type 0} (infrastructure : Infrastructure F) (rng : Rand) (site : Site Body F)
    (decoder : Decoder Body) (cfg : App)
    → HttpHandler (World infrastructure.R infrastructure.S infrastructure.D F) Body F
main_handler infrastructure rng site decoder cfg =
    api_handler (serve infrastructure.ports rng (with_events site) decoder) cfg.allowed_origins
