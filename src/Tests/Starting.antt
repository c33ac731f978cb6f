-- ===== src/Tests/Starting.antt =====
-- Loading settings, the start of the program, and confirming by hand, at samples.
use telecloud_subscription_r.Base.{
  ℕ, ◌≡◌, refl, String, Bool, true, false, none, some, List, [], ◌∷◌, map, All, str_eq, Result,
  return, raise, state_store_error,
}
use telecloud_subscription_r.Cli.Main.{Args, Runtime, main}
use telecloud_subscription_r.Config.{Settings, repeats, targets}
use telecloud_subscription_r.Config.Settled.{IsLadder, IsQuiet, load_settings-IsSettled}
use telecloud_subscription_r.Config.Startup.{Fields, Outside, load_settings, derive}
use telecloud_subscription_r.Models.{ChannelTarget}
use telecloud_subscription_r.Scraper.Client.{Web, responded}
use telecloud_subscription_r.Scraper.Json.{Json, Elements}
use telecloud_subscription_r.Store.Database.{Database, empty_database, put_sent}
use telecloud_subscription_r.Store.Protocol.{Outstanding}
use telecloud_subscription_r.Store.Sqlite.{sqlite, new_store}
use telecloud_subscription_r.Tests.Samples.{
  ascii, confirming, machine_sent, no_environment, ops_route, world_of,
}

abbrev fields : Fields
fields = record {
  portal_base_url = "https://portal";
  warn_thresholds = "6h, 2h";
  credential_warn_thresholds = "2h";
  portal_suspended_tokens = "";
  app_timezone = "UTC";
  notify_routes_json = "[]";
  notify_routes_file = none;
  plain = confirming;
}

-- an outside where every document lists one route
abbrev outside : Outside
outside = record {
  read_environment = λ environ. some fields;
  read_routes = λ payload. some (ops_route ∷ []);
  decode = λ raw. some (Json.array Elements.no_elements);
  read_text = λ path. none;
  is_timezone = λ name. str_eq name "UTC";
}

loaded : (load_settings ascii outside true [] no_environment).0 ≡ return fields
unfolding load_settings
loaded = refl

load_settings-IsSettled_example :
    (s : Settings) × (derive ascii outside
        (load_settings ascii outside true [] no_environment).1
        fields
      ≡ return s)
    × IsLadder s.thresholds
    × IsLadder s.credential_thresholds
    × All IsQuiet s.routes
    × (repeats (map (λ r. r.recipient) s.routes) ≡ false)
    × All
        (λ r.
          (ts : List ChannelTarget) × (targets ascii
              (load_settings ascii outside true [] no_environment).1
              r
            ≡ return ts))
        s.routes
load_settings-IsSettled_example = load_settings-IsSettled ascii outside [] no_environment loaded

abbrev portal : Web
portal = record {
  loads = λ body. return Json.null;
  repr_of = λ v. "";
  shown = λ v. "";
  hashed = λ algo body. body;
  retrying = λ n act. act;
  answer = λ request before. responded 200 "";
}

-- a service that ends with 2, or with an unusable store if it is not dry
abbrev service : Settings → Bool → Result ℕ
service s once = elim s.dry_run [ true ↦ return 2 | false ↦ raise (state_store_error "disk") ]

abbrev runtime : Runtime
runtime = record {
  store = sqlite;
  opening = return tt;
  world = world_of new_store;
  shown = λ v. "";
  updates = none;
  test_results = λ s. return [];
  files = record {
    has_suffix = λ path. true;
    with_suffix = λ path suffix. path;
    can_write = λ path body. true;
  };
  web = portal;
  serve = λ path s. (responded 200 "", "");
  session = record { sent = []; token = none; account = none };
  run = service;
}

abbrev options : Bool → Bool → Args
options dry check = record {
  once = true;
  dry_run = dry;
  capture = "";
  url = none;
  ack = "";
  by = "cli";
  test_notify = false;
  telegram_chats = false;
  check_config = check;
}

dry_ends : main ascii outside runtime (options true false) [] no_environment ≡ return 2
unfolding main
dry_ends = refl

wet_ends : main ascii outside runtime (options false false) [] no_environment ≡ return 4
unfolding main
wet_ends = refl

-- the same situation was sent to two recipients, to one of them before its facts changed
abbrev two_sent : Database
two_sent =
    put_sent
      (record machine_sent {
        scope = "dev|slack|dev|vm-1";
        recipient = "dev";
        fingerprint = "30000000000|-";
      })
      900 (put_sent machine_sent 1000 empty_database)

abbrev row : String → Outstanding
row fingerprint = record {
  ack_key = "vm-1|EXPIRED|-";
  status = "EXPIRED";
  rung = "-";
  fingerprint = fingerprint;
}
