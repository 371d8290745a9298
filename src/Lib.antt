-- ===== src/Lib.antt =====
-- A multiplayer supply chain game (the beer game) on a server: four players run a factory, a
-- distributor, a wholesaler and a retailer, and order goods week by week.
--
-- The parts, and how they work together:
--   * internal/domain is the game itself. A room gathers four players and gives each a role; a
--     scenario says how a game begins and what the consumers ask for; a session is the game in
--     play, moved on by one week at a time.
--   * internal/usecase has the services that the HTTP handlers call. A call reads a room, a session
--     or the orders of a week from a store, applies an operation of the domain, saves the result and
--     publishes an event.
--   * internal/infrastructure/memory has the stores that keep their data in maps, and the event bus.
--     internal/infrastructure/redis has such stores and events over a Redis server, and
--     internal/infrastructure/export writes a game as a spreadsheet.
--   * internal/interface/http turns a request into a call of a service and its result into an answer.
--     cmd/api/main.go serves it with recovery, logging and CORS around it.
--
-- Where each part is:
--   * Word: Go's int, as the bit pattern of a 64-bit word. Addition, subtraction and multiplication
--     wrap round modulo 2 ^ 64, and comparison reads the top bit as the sign. Times are the numbers
--     of nanoseconds that UnixNano gives.
--   * Result: what a call ends in, which is a value, an error of the code or a panic.
--   * Domain/Role, Domain/RoleMap: Role of internal/domain/room.go, and map[Role]int.
--   * Domain/Room: internal/domain/room.go, NewRoom, AddPlayer, AssignRole, EnsureRolesAssigned,
--     Start and RoleOfPlayer as new_room, add_player, assign_role and so on. Below it, the
--     invariant (Invariant), how many players hold a role (Holders), what each operation does (Join;
--     Assign, with FindPlayer and WithRole; Ensure, with Used and HandOut), and the rooms that
--     sequences of calls lead to (Life). Which roles are free and that none is taken twice is in
--     Seats, and what an operation leaves as it was in Stays.
--   * Domain/Scenario: internal/domain/scenario.go, Validate, DemandForWeek and MaterializeDemand.
--     Below it, which scenarios are valid (Validity), reading and extending the demand (Demand),
--     random blocks (Fill, Blocks), and the whole of MaterializeDemand (Materialize).
--   * Domain/Session: internal/domain/state.go and game_session.go, NewGameSession as
--     new_game_session and AdvanceWeek as advance_week, with its loop over the roles in
--     advance_nodes and next_node and its queues in receive, ship_goods and place_orders. Below it,
--     one node (Node), one week without loops and maps (Queues, Week), the goods of the whole chain
--     (Totals), the invariant with its limits (Invariant), a week on a valid session (Bounds,
--     Advance, Game), what a week leaves as it was (Kept), the weeks of a game (Play), and a game
--     from its first week (Begin).
--   * Domain/Analytics: internal/domain/analytics.go, CalculateSessionAnalytics. Below it, the series
--     that its maps gather (Series), the whole without loops and maps (Report), and the costs of a
--     game (Costs).
--   * Usecase/Decisions: internal/usecase/decision_store.go, WeeklyDecisions and Snapshot. Below it,
--     when a snapshot is ready (Ready) and maps that have an order of each role (Filled).
--   * Usecase/Ports, Usecase/Contracts: the interfaces of internal/usecase, as records of operations
--     over a state, and what the services rely on. The world of a call is the state of the three
--     stores, the events published so far, and how many identifiers and times have been read.
--   * Usecase/Rooms: internal/usecase/room_service.go. Its AssignRole is assign_player_role.
--     Below it, what a player who joins finds saved (Joining).
--   * Usecase/Games: internal/usecase/game_service.go, with AdvanceWeek as advance_game_week. Below
--     it, each of StartGame, SubmitOrder and AdvanceWeek over any stores that keep their laws (Start,
--     Orders, Weeks), and GetPlayerState with player_state.go (PlayerStates, and PlayerStates/View on
--     what it shows). Games/Season plays rounds of SubmitOrder and AdvanceWeek: one round's orders
--     (Submissions), round after round (Rounds), and a game from its StartGame (Whole).
--     Games/Interleaved has SubmitOrder as two halves. Usecase/Reads: the calls that change nothing.
--   * Usecase/Failures: calls that fail, and what they have written by then; its Calls has those of
--     both services that check before they save.
--   * Usecase/Worlds: the calls of both services in any sequence, from empty stores, and what holds of
--     the stores between them. Below it, a save of each kind (Saves), the calls of the two services
--     (Rooms and Roles; Games and Weeks), and the worlds that are reached (Reachable).
--   * Memory/Stores: room_store.go, session_store.go, decision_store.go and scenario_repository.go
--     of internal/infrastructure/memory; Memory/Bus: its room_event_bus.go.
--   * Redis/Keys, Redis/Stores, Redis/Events: internal/infrastructure/redis, its keys, its three stores
--     and publisher, and the loop that passes messages on to one who watches a room. Below Redis/Stores,
--     the laws of a server (Server), the store of sessions (Sessions), that they are stores as the
--     services want them (Laws), and that they share a server (Shared). Redis/Events/Subscription is
--     Subscribe of room_event_bus.go as a step relation, with its goroutine, the channel and cancel;
--     below it, any run (Runs), and a cancel that meets a send (Races).
--   * Export: internal/infrastructure/export/xlsx_exporter.go, ExportSession as export_xlsx. Below it,
--     rows that are put one below the other (Rows), the headers and entries of the columns without
--     the loops (Columns), and which cell has what (Filled).
--   * Config: internal/infrastructure/config/config.go, Load and what it calls; Config/Origins: the
--     lists that splitCSV reads. System: NewID of internal/infrastructure/system/id.go; System/Hex: the
--     identifiers that it makes.
--   * Startup: buildInfrastructure and the handler of cmd/api/main.go; Startup/Storage: what it gives
--     to the services.
--   * Http/Paths: parseRoomPath of internal/interface/http/server.go, with strings.Trim and
--     strings.Split in Prelude/Trim; Http/Answers: writeJSON, writeError, writeFile and
--     writeDomainError, which write to a writer with headers and perhaps a Flush; Http/Requests,
--     Http/Server: what a request holds and the handlers of server.go, events.go and static.go;
--     Http/Streams: what writeSSEEvent of events.go writes, and its lines (Frames);
--     Http/Routing: the two switches on the action and registerRoutes, as serve; Http/Middleware:
--     WithCORS of middleware.go, WithRequestLogging and WithRecovery of logging.go, and the handler
--     that main builds of them, as api_handler.
--
-- Bounds and fuel. The loops of extendDemand and generateRandomBlockDemand run on fuel, the number of
-- weeks; as each round appends a week or more this is enough. The code bounds no order, so a
-- number can overflow. The theorems on weeks therefore take limits: a cap on the orders and demands,
-- the goods of the chain and the debt of a node, with room in a word for what the weeks left can add.
--
-- Sharing. A room read from the store in memory shares its players with the map, so a role that is
-- written to it shows in the store before the room is saved; write_players and share_players say so.
-- The queues of a session are shared as well, but AdvanceWeek writes them only when it goes on to
-- save the session, and a save in memory does not fail. The maps of orders are copied by their
-- store. A call is one step, and Usecase/Worlds has one call after the other. Only SubmitOrder is also
-- modelled as a read and a save, in Usecase/Games/Interleaved, between which other calls can come.
--
-- Parameters. math/rand is a source with the range that Intn documents; the identifiers of crypto/rand
-- and the clock are the n-th answers of functions from outside. The operations of float64 are a
-- record of functions of which nothing is assumed, so a claim on means and variances says which
-- operations are done on which numbers. The exporter is a function from a session and its analytics.
-- What encoding/json decodes a body to and makes of an event, what the mux of net/http answers where no route fits, and
-- its static files are functions too; a path is taken to be clean, as the mux redirects any other.
--
-- The Redis client is a record of commands, with laws that say what SET, GET and DEL do on a server that
-- answers and on which no key expires, and go-redis is a driver that makes such clients; that a server
-- keeps these laws is assumed only of the one in the configuration, and only if it answers to Ping.
-- encoding/json is a codec that reads back what it has written; what is written is finite data, also
-- the queues of a session, which are those of the four roles and a list of any other entries. excelize
-- is a record of what the exporter calls, with laws on its sheets and cells: a row is written on a
-- sheet of the file, and on no other.
--
-- os.Getenv, strconv.Atoi and time.ParseDuration are functions from a text.
--
-- In a claim on all sequences of calls no identifier is made twice, which crypto/rand makes likely and
-- does not promise, and a game has fewer than 2 ^ 62 weeks, as a longer one has no room in a memory.
--
-- Not modelled: the listener, the signals and the shutdown in main, which are calls of net/http and
-- os/signal; the bytes of an answer in JSON; the expiry of keys in Redis; logging.
pub mod Prelude
pub mod Word
pub mod Result
pub mod Domain
pub mod Usecase
pub mod Memory
pub mod Redis
pub mod Export
pub mod Config
pub mod System
pub mod Startup
pub mod Http
