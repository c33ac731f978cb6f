-- ===== src/Lib.antt =====
-- The core of the telecloud subscription renewal notifier: what a component's status is, what is
-- sent to whom and when it stops being sent, what the state store answers, how the portal is read,
-- and how a cycle and the loop of cycles end.
--
-- The parts, by the files of src/tele_scraper that they model:
--   * Platform: what the program takes from Python and the operating system (character tables,
--     hashing, ISO rendering, glob matching, time zones), a parameter of everything else.
--   * Models: models.py. Statuses, components, evaluations, events, results, reports; their keys
--     and fingerprints. A non-empty tuple of evaluations is its first one and the others.
--   * Domain.Rules: domain/rules.py. Durations, warning ladders, quiet hours, patterns.
--   * Domain.Status: domain/status.py. `resolve_expiry`, `derive_status`, `evaluate_all`; the inner
--     steps of the ladder are functions of their own (`ladder`, `dated`, `timed`, `warned`).
--   * Config: config.py. The routing table with its validators, and the settings that the other
--     parts read. Config.Loading has the checks and derived values of the settings, and `.env`;
--     Config.Startup the routing table's validation as a whole, and `load_settings`.
--   * Store: state/store.py. Store.Protocol is the interface `StateStore` as a record of actions.
--     Store.Database holds the four SQLite tables and what each method reads and writes;
--     Store.Sqlite puts the methods on a connection that may be missing or broken; Store.Memory is
--     `MemoryStateStore`. Store.Table has the statements on a table with a primary key.
--   * Notify.Plan and Notify.Router: notify/router.py, over any state store. `_deliver` is `deliver`:
--     `admit` (acknowledgements, or records of deliveries), then `release` (quiet hours, dry run,
--     sending switched off), then `transmit` (the notifier, and what is recorded of its answer).
--     `dispatch` takes the deliveries one after the other; Notify.Router.Steps has the same
--     deliveries as steps that may be taken in turns, as `asyncio.gather` does.
--   * Notify.Acks: notify/acks.py and the button payload of notify/telegram.py. Notify.Acks.Polling
--     reads what Telegram answers and has the loop of polls, Notify.Acks.Chats `discover_chats`.
--   * Notify.Sending, Notify.Channels and Notify.Mail: notify/base.py, slack.py, discord.py,
--     telegram.py, sms.py and email.py, over servers that answer as they like. Notify.Registry:
--     notify/registry.py, which notifiers are built, and the test messages. Notify.Rendering:
--     `MessageRenderer` of notify/base.py, which template a message takes, and with what.
--   * Scraper: scraper/parser.py and scraper/client.py. Scraper.Json is what `json.loads` gives,
--     Scraper.Stamp a timestamp, Scraper.Envelope and Scraper.Account the responses, Scraper.Listing
--     the entries of a listing. Scraper.Client has the requests of one run: the portal answers each
--     as it likes, going by all the requests before it.
--   * Runner: runner.py. `run_once` goes from the outcome of scraping to the report; Runner.Cycle
--     puts the client and the parser in front of it.
--   * Health: health.py. Liveness, readiness and the answers to requests.
--   * Scheduler: scheduler.py. The loop over cycles whose outcomes and durations are arbitrary, with
--     a stop request at an arbitrary moment.
--   * Cli: __main__.py. Confirming by hand, the other commands (Cli.Commands), `main` with the choice
--     of a command (Cli.Main), and the exit codes.
--   * Observability.Redaction: observability/logging.py. What is redacted in a log event.
--   * Tests: samples, and the theorems at samples.
--   * Base: numbers, results, lists and texts that the parts share.
--
-- How they meet: Scheduler runs cycles. A cycle fetches the listing with Scraper.Client and parses it
-- with Scraper.Listing. Runner evaluates components with Domain.Status and hands the evaluations to
-- Notify.Router.dispatch, which plans messages from the routing table of Config, asks a StateStore
-- whether each is still to be sent, sends it by a notifier and records it. A press of a button goes
-- through Notify.Acks into the same store, where the next cycle finds it.
--
-- Representation. An instant is a number of microseconds since the first one that `datetime` has, a
-- duration an integer number of microseconds, a time in the state store a number of whole seconds.
-- A method that may raise gives a result and the state that it leaves, also where it raises. The
-- readings of `time.time()` in a delivery come from a stream of readings, one for each call; a
-- method of the store that reads the clock itself takes the reading as an argument. No definition
-- has fuel, except four. The printing of a number has the number plus one, which is more than its
-- digits. The sleep between cycles has one round for each whole tick and one more, and
-- `run_forever` of the scheduler the moment of the stop plus one, as each round takes time; that of
-- the listener one more than the polls before the stop. JSON numbers are integers,
-- and the digits of a timestamp the ASCII ones.
--
-- Not modelled: the migration of old databases, and what other connections see of a transaction
-- (the tables are what the one connection sees; of deliveries with one time the first row counts
-- as the newest, the members of a digest stand by `ack_key` as in the index that SQLite reads them
-- through, and other rows without an order in that of the table); a failure of SQLite between two
-- statements of a method, or at its commit; the semaphore on sending;
-- log lines and metrics; the limit of `int` on the number of digits; the TLS context, the pauses and
-- the debug dumps of the portal client, the requests that httpx sends for redirects (a request of
-- the model stands for itself and those, and its response is the last one), and tenacity, of which the client takes what it documents of
-- its attempts; the Jinja templates; the reading of types, defaults and ranges by pydantic; that the
-- notifiers of a cycle, which are any functions here, are those of Notify.Registry; the HTTP
-- server; the cancellation of the listener; and of the command line the wiring of the service and
-- the parsing of arguments.
pub mod Base
pub mod Platform
pub mod Models
pub mod Domain
pub mod Config
pub mod Store
pub mod Notify
pub mod Scraper
pub mod Runner
pub mod Health
pub mod Scheduler
pub mod Cli
pub mod Observability
pub mod Tests
