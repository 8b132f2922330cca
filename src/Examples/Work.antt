-- ===== src/Examples/Work.antt =====
-- Work beside the pages: a broadcast, limited bodies, a cycle of correlation and an action.
use open_sec_dash.Prelude.{
  ℕ, ◌+◌, ◌≤◌, ◌≡◌, refl, String, true, false, Option, none, some, List, [], ◌∷◌, ◌++◌, arith,
}
use open_sec_dash.Prelude.Text.{Text, codes, text_ltb}
use open_sec_dash.Broadcaster.{
  EventBroadcaster, poll_once, subscribe, run_round, broadcast, offer, put_nowait,
}
use open_sec_dash.Broadcaster.Delivery.{AllCurrent, IsSound}
use open_sec_dash.Broadcaster.Clients.{
  Client, polls, Reach, here, next, newcomer, IsInformed, Reach-IsInformed, Reach-run_round,
}
use open_sec_dash.BodyLimit.{
  App, receives, sends, finishes, Message, http_request, Scope, run, limit_for, request_body_limit,
  body_bytes,
}
use open_sec_dash.BodyLimit.Stream.{
  given, total, given-request_body_limit, request_body_limit-eq-run,
}
use open_sec_dash.Correlation.{
  InsightRule, Event, Store, run_anchors, run_rules, chain_rules, rules_after, anchors_after,
  new_cycle,
}
use open_sec_dash.Correlation.Pages.{drop, AllAfter, IsIncreasing}
use open_sec_dash.Correlation.Passes.{pass_batches}
use open_sec_dash.Correlation.Ticks.{run_ticks}
use open_sec_dash.Correlation.Completion.{run_ticks-pass_batches}
use open_sec_dash.Actions.Registry.{ActionPlugin, returned, Office, ActionRequest}
use open_sec_dash.Actions.{create_action}
use open_sec_dash.Actions.Safety.{IsLawful, create_action-IsLawful}
use open_sec_dash.Examples.{installation}

abbrev broadcaster : EventBroadcaster
broadcaster = record {
  state = record { enabled = true; last_event_id = 4 };
  ready = true;
  subscribers = [];
  next_queue = 0;
  is_running = true;
}

broadcaster-IsSound : IsSound broadcaster
unfolding AllCurrent
broadcaster-IsSound = record { current = tt; quiet = λ s r. tt }

-- A fifth event arrives while a websocket is subscribed.
abbrev told : Client
told = record {
  broadcaster = record broadcaster {
    state = record { enabled = true; last_event_id = 5 };
    subscribers = (0, record { enabled = true; last_event_id = 5 } ∷ []) ∷ [];
    next_queue = 1;
  };
  known = none;
}

told-Reach : Reach 0 (newcomer broadcaster) told
unfolding subscribe run_round poll_once broadcast offer put_nowait
told-Reach = next here (
    polls (newcomer broadcaster) told.broadcaster
      (some (record { enabled = true; last_event_id = 5 })) refl)

Reach-IsInformed_example : IsInformed 0 told
unfolding subscribe
Reach-IsInformed_example = Reach-IsInformed broadcaster told broadcaster-IsSound told-Reach

Reach-run_round_example :
    (b : EventBroadcaster) × (run_round told.broadcaster
        (some (record { enabled = false; last_event_id = 6 }))
      ≡ some b)
unfolding subscribe
Reach-run_round_example =
    Reach-run_round broadcaster told (some (record { enabled = false; last_event_id = 6 }))
      broadcaster-IsSound told-Reach

-- An application that reads two parts of the body and answers
abbrev reader : App
reader = receives (λ m. receives (λ n. sends 2 finishes))

abbrev upload : Scope
upload = record {
  is_http = true;
  method = codes "POST";
  path = codes "/views";
  content_length = some 10;
}

abbrev parts : List Message
parts = http_request 60 ∷ http_request 50 ∷ []

given-request_body_limit_example :
    (given (request_body_limit 100 upload reader parts) ≤ limit_for 100 (codes "/views"))
    × (limit_for 100 (codes "/views") ≤ 100)
given-request_body_limit_example = given-request_body_limit 100 upload reader parts refl refl

request_body_limit-eq-run_example : request_body_limit 200 upload reader parts ≡ run reader parts
unfolding limit_for total body_bytes
request_body_limit-eq-run_example =
    request_body_limit-eq-run 200 upload reader parts (omega arith) (omega arith)

-- The pairs of a rule and a ban that were looked at
abbrev look : List (Text × ℕ) → InsightRule → Event → Option (List (Text × ℕ))
look seen rule ban = some (seen ++ ((rule.id, ban.id) ∷ []))

abbrev scan : InsightRule
scan = record { id = codes "scan"; kind = "scan_ban_chain" }

abbrev ban : Event
ban = record { id = 7; event_type = "security.ban"; ip = some (codes "8.8.8.8"); created_at = 1950 }

abbrev untouched : Store (List (Text × ℕ))
untouched = record { world = []; cycle = none; completed_cutoff = none }

scan-IsIncreasing :
    IsIncreasing (λ (r : InsightRule). r.id) text_ltb (chain_rules (codes "scan" ∷ []) (scan ∷ []))
unfolding IsIncreasing AllAfter chain_rules
scan-IsIncreasing = (tt, tt)

run_ticks-pass_batches_example :
    run_ticks look (2000 ∷ 2060 ∷ []) (codes "scan" ∷ []) (scan ∷ []) (ban ∷ []) untouched
    ≡ some (record { world = (codes "scan", 7) ∷ []; cycle = none; completed_cutoff = some 2000 })
unfolding drop rules_after chain_rules text_ltb new_cycle anchors_after pass_batches run_anchors
    run_rules IsIncreasing AllAfter
run_ticks-pass_batches_example =
    run_ticks-pass_batches look (codes "scan" ∷ []) (scan ∷ []) (ban ∷ []) scan-IsIncreasing
      (tt, tt) 2000 (2060 ∷ []) untouched refl (omega arith)

abbrev ban_plugin : ActionPlugin String ℕ
ban_plugin = record {
  id = "crowdsec";
  action_definitions =
      record {
        action_type = "ip.ban";
        aliases = [];
        target_types = "ip" ∷ [];
        critical = true;
        user_invocable = true;
      }
      ∷ [];
  normalize_action_target = λ db kind target parameters dry. some target;
  validate_action = λ db kind target parameters dry. some parameters;
  prepare_parameters = λ db action. none;
  execute = λ bans kind target parameters. (bans + 1, returned none none);
  execute_internal = λ bans kind target parameters. (bans + 1, returned none none);
  after_execute = λ bans action. (bans, none);
  success_event_type = λ kind. some "security.ban";
}

abbrev office : Office String ℕ
office = record { db = installation; outside = 0; actions = []; events = []; running = [] }

abbrev ban_request : ActionRequest String
ban_request = record {
  action_type = "ip.ban";
  target = codes "8.8.8.8";
  target_type = "ip";
  parameters = "4h";
  confirmed = true;
  internal = false;
  manual = true;
  trigger = "manual";
}

create_action-IsLawful_example :
    IsLawful
      (ban_plugin ∷ [])
      (λ t. some true)
      office
      ban_request
      (create_action (ban_plugin ∷ []) (λ t. some true) office ban_request)
create_action-IsLawful_example =
    create_action-IsLawful (ban_plugin ∷ []) (λ t. some true) office ban_request
