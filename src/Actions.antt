-- ===== src/Actions.antt =====
-- backend/app/services/actions.py: actions that users start, with the registry of action plugins that
-- backend/app/plugins/manager.py keeps.
--
-- A plugin's own hooks are functions of its record. What validates gives `none` for a ValueError, and
-- `after_execute` gives the text of an exception. `Outside` is what plugins change when they execute, the world beyond the tables. The
-- table of events has the values that `store_event` is given.
pub mod Registry
pub mod Safety
use open_sec_dash.Prelude.{
  ℕ, ◌+◌, String, Bool, true, false, not, ◌&&◌, ◌||◌, Option, none, some, List, [], ◌∷◌, ◌++◌, ◌==◌,
  nat_eq, string_eq, contains, any, first, select, length, is_some, if◌then◌else◌,
}
use open_sec_dash.Prelude.Text.{Text, text_eq, codes, lower}
use open_sec_dash.Database.{Database, get_setting_value}
use open_sec_dash.Actions.Registry.{
  ActionDefinition, Action, ActionEvent, ActionPlugin, Executed, returned, raised, Refusal,
  unknown_action_type, internal_only, unsupported_target_type, invalid_target,
  confirmation_required, target_not_global, invalid_parameters, already_running, Result, ok,
  refused, ActionKey, Office, ActionRequest, same_flag, is_true, is_dry_run, names_type, is_running,
  release_action, action_definitions, action_plugin_for, is_critical, Admission, or_text,
}

-- `validate_ip_target`, with the address's `is_global`; a text that is no address or range gives
-- `none`, a ValueError too.
unfoldable pub validate_ip_target : (Text → Option Bool) → Text → Bool
validate_ip_target is_global_target target = is_true (is_global_target target)

module _ {Parameters Outside : Type 0} (plugins : List (ActionPlugin Parameters Outside))
    (is_global_target : Text → Option Bool) where
  admit_parameters :
      ActionPlugin Parameters Outside
      → Text
      → Bool
      → Option Parameters
      → Result (Admission Parameters Outside)
  admit_parameters plugin target critical none = refused invalid_parameters
  admit_parameters plugin target critical (some parameters) = ok (record {
    plugin = plugin;
    target = target;
    parameters = parameters;
    requires_confirmation = critical;
  })

  admit_target :
      Database
      → ActionRequest Parameters
      → ActionPlugin Parameters Outside
      → Option Text
      → Result (Admission Parameters Outside)
  unfolding admit_parameters
  admit_target db request plugin none = refused invalid_target
  admit_target db request plugin (some target) =
      let critical = is_critical plugins request.action_type in
      if critical && not request.confirmed
      then refused confirmation_required
      else if critical
          && request.target_type == "ip"
          && not (validate_ip_target is_global_target target)
      then refused target_not_global
      else admit_parameters plugin target critical
          (plugin.validate_action db request.action_type target request.parameters (is_dry_run db))

  admit_definition :
      Database
      → ActionRequest Parameters
      → ActionPlugin Parameters Outside
      → Option ActionDefinition
      → Result (Admission Parameters Outside)
  unfolding admit_target
  admit_definition db request plugin none = refused unknown_action_type
  admit_definition db request plugin (some definition) =
      if same_flag request.internal definition.user_invocable
      then refused internal_only
      else if not (contains request.target_type definition.target_types)
      then refused unsupported_target_type
      else admit_target db request plugin (
          plugin.normalize_action_target db request.action_type request.target request.parameters
            (is_dry_run db))

  admit_plugin :
      Database
      → ActionRequest Parameters
      → Option (ActionPlugin Parameters Outside)
      → Result (Admission Parameters Outside)
  unfolding admit_definition
  admit_plugin db request none = refused unknown_action_type
  admit_plugin db request (some plugin) =
      admit_definition db request plugin
        (first (names_type request.action_type) (action_definitions plugins))

  -- The checks of `_create_action`, up to the lock
  unfoldable pub admit : Database → ActionRequest Parameters → Result (Admission Parameters Outside)
  unfolding admit_plugin
  admit db request = admit_plugin db request (action_plugin_for plugins request.action_type)

  finish_after : Outside × Option String → Action Parameters → Outside × Action Parameters
  finish_after (outside, none) action = (outside, action)
  finish_after (outside, some error) action =
      (outside, record action { status = "failed"; result = error })

  finish_executed :
      ActionPlugin Parameters Outside
      → Outside × Executed
      → Action Parameters
      → Outside × Action Parameters
  unfolding finish_after
  finish_executed plugin (outside, raised error) action =
      (outside, record action { status = "failed"; result = error })
  finish_executed plugin (outside, returned status result) action =
      let action' = record action {
        status = or_text status "completed";
        result = or_text result "action plugin execution completed";
      } in
      if action'.status == "completed"
      then finish_after (plugin.after_execute outside action') action'
      else (outside, action')

  -- `execute_action`, up to its event
  unfoldable pub execute_action :
      ActionPlugin Parameters Outside
      → ActionRequest Parameters
      → Database
      → Outside
      → Action Parameters
      → Outside × Action Parameters
  unfolding finish_executed
  execute_action plugin request db outside action =
      if is_dry_run db
      then (
        outside,
        record action {
          status = "completed";
          result = "dry-run: action was recorded but not executed";
        },
      )
      else finish_executed plugin
          (if request.internal
            then plugin.execute_internal outside action.action_type action.target action.parameters
            else plugin.execute outside action.action_type action.target action.parameters)
          action

  abbrev pub event_of :
      ActionPlugin Parameters Outside → ActionRequest Parameters → Action Parameters → ActionEvent
  event_of plugin request action =
      let done = action.status == "completed" in
      record {
        event_type =
            if done
            then or_text (plugin.success_event_type action.action_type) "action.executed"
            else "action.failed";
        severity = if done then "info" else "error";
        ip = if action.target_type == "ip" then some action.target else none;
        action_id = action.id;
        status = action.status;
        manual = request.manual;
        trigger = request.trigger;
      }

  prepared : Option Parameters → Action Parameters → Action Parameters
  prepared none action = action
  prepared (some parameters) action = record action { parameters = parameters }

  abbrev pub key_of : ActionRequest Parameters → Admission Parameters Outside → ActionKey
  key_of request admission = (request.action_type, request.target_type, admission.target)

  -- `_acquire_action`
  unfoldable pub begin :
      Office Parameters Outside
      → ActionRequest Parameters
      → Admission Parameters Outside
      → Option (Office Parameters Outside)
  begin office request admission =
      let key = key_of request admission in
      if is_running key office.running
      then none
      else some (record office { running = key ∷ office.running })

  unfoldable pub new_action :
      Office Parameters Outside
      → ActionRequest Parameters
      → Admission Parameters Outside
      → Action Parameters
  unfolding prepared
  new_action office request admission =
      let action : Action Parameters = record {
        id = length office.actions + 1;
        action_type = request.action_type;
        plugin_id = admission.plugin.id;
        target_type = request.target_type;
        target = admission.target;
        parameters = admission.parameters;
        status = "pending";
        result = "";
        requires_confirmation = admission.requires_confirmation;
      } in
      prepared (admission.plugin.prepare_parameters office.db action) action

  -- The action runs and its event is stored; then the lock is released.
  unfoldable pub end :
      Office Parameters Outside
      → ActionRequest Parameters
      → Admission Parameters Outside
      → Office Parameters Outside × Action Parameters
  end office request admission =
      let (outside, action) =
        execute_action admission.plugin request office.db office.outside
          (new_action office request admission) in
      (
        record office {
          outside = outside;
          actions = office.actions ++ action ∷ [];
          events = office.events ++ event_of admission.plugin request action ∷ [];
          running = release_action (key_of request admission) office.running;
        },
        action,
      )

  after_begin :
      Office Parameters Outside
      → ActionRequest Parameters
      → Admission Parameters Outside
      → Option (Office Parameters Outside)
      → Office Parameters Outside × Result (Action Parameters)
  after_begin office request admission none = (office, refused already_running)
  after_begin office request admission (some office') =
      let (office'', action) = end office' request admission in (office'', ok action)

  after_admit :
      Office Parameters Outside
      → ActionRequest Parameters
      → Result (Admission Parameters Outside)
      → Office Parameters Outside × Result (Action Parameters)
  unfolding after_begin
  after_admit office request (refused e) = (office, refused e)
  after_admit office request (ok admission) =
      after_begin office request admission (begin office request admission)

  -- `_create_action`
  unfoldable pub create_action :
      Office Parameters Outside
      → ActionRequest Parameters
      → Office Parameters Outside × Result (Action Parameters)
  unfolding after_admit
  create_action office request = after_admit office request (admit office.db request)
