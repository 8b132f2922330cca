-- ===== src/Actions/Registry.antt =====
-- The registry of backend/app/plugins/manager.py for actions, the records of backend/app/plugins/base.py
-- that it holds, and the rows of backend/app/models/core.py that actions leave.
use open_sec_dash.Prelude.{
  ℕ, String, Bool, true, false, not, ◌&&◌, ◌||◌, Option, none, some, List, [], ◌∷◌, ◌++◌, ◌==◌,
  nat_eq, string_eq, contains, any, first, select, if◌then◌else◌,
}
use open_sec_dash.Prelude.Text.{Text, text_eq, codes, lower}
use open_sec_dash.Database.{Database, get_setting_value}

pub record ActionDefinition : Type 0 where
  pub action_type : String
  pub aliases : List String
  pub target_types : List String
  pub critical : Bool
  pub user_invocable : Bool

-- A row of the table of actions
pub record Action (Parameters : Type 0) : Type 0 where
  pub id : ℕ
  pub action_type : String
  pub plugin_id : String
  pub target_type : String
  pub target : Text
  pub parameters : Parameters
  pub status : String
  pub result : String
  pub requires_confirmation : Bool

pub record ActionEvent : Type 0 where
  pub event_type : String
  pub severity : String
  pub ip : Option Text
  pub action_id : ℕ
  pub status : String
  pub manual : Bool
  pub trigger : String

-- The dictionary that a plugin returns, with its `status` and its `result`, or an exception
pub data Executed : Type 0 where
  returned : Option String → Option String → Executed
  raised : String → Executed

pub record ActionPlugin (Parameters Outside : Type 0) : Type 0 where
  pub id : String
  pub action_definitions : List ActionDefinition
  pub normalize_action_target : Database → String → Text → Parameters → Bool → Option Text
  pub validate_action : Database → String → Text → Parameters → Bool → Option Parameters
  pub prepare_parameters : Database → Action Parameters → Option Parameters
  pub execute : Outside → String → Text → Parameters → Outside × Executed
  pub execute_internal : Outside → String → Text → Parameters → Outside × Executed
  pub after_execute : Outside → Action Parameters → Outside × Option String
  pub success_event_type : String → Option String

-- Why a request for an action is refused; the last is ActionAlreadyRunning, the others ValueError.
pub data Refusal : Type 0 where
  unknown_action_type internal_only unsupported_target_type invalid_target : Refusal
  confirmation_required target_not_global invalid_parameters already_running : Refusal

pub data Result (A : Type 0) : Type 0 where
  ok : A → Result A
  refused : Refusal → Result A

-- (action_type, target_type, target)
abbrev pub ActionKey : Type 0
ActionKey = String × String × Text

abbrev pub same_key : ActionKey → ActionKey → Bool
same_key (a, b, c) (d, e, f) = a == d && b == e && c == f

-- _RUNNING_ACTION_KEYS is `running`.
pub record Office (Parameters Outside : Type 0) : Type 0 where
  pub db : Database
  pub outside : Outside
  pub actions : List (Action Parameters)
  pub events : List ActionEvent
  pub running : List ActionKey

pub record ActionRequest (Parameters : Type 0) : Type 0 where
  pub action_type : String
  pub target : Text
  pub target_type : String
  pub parameters : Parameters
  pub confirmed : Bool
  pub internal : Bool
  pub manual : Bool
  pub trigger : String

abbrev pub same_flag : Bool → Bool → Bool
same_flag true b = b
same_flag false b = not b

abbrev pub is_true : Option Bool → Bool
is_true none = false
is_true (some b) = b

unfoldable pub is_dry_run : Database → Bool
is_dry_run db = lower (codes (get_setting_value db "action_dry_run" "true")) == codes "true"

abbrev pub names_type : String → ActionDefinition → Bool
names_type action_type d = action_type == d.action_type || contains action_type d.aliases

abbrev pub shares_type : ActionDefinition → ActionDefinition → Bool
shares_type d e = names_type d.action_type e || any (λ a. names_type a e) d.aliases

-- Definitions in order, without those that name a type of an earlier one
unfoldable pub without_collisions :
    List ActionDefinition → List ActionDefinition → List ActionDefinition
without_collisions seen [] = []
without_collisions seen (d ∷ definitions) =
    let kept = d ∷ without_collisions (d ∷ seen) definitions in
    let skipped = without_collisions seen definitions in
    if any (shares_type d) seen then skipped else kept

unfoldable pub is_running : ActionKey → List ActionKey → Bool
is_running key running = any (same_key key) running

-- _RUNNING_ACTION_KEYS.discard
unfoldable pub release_action : ActionKey → List ActionKey → List ActionKey
release_action key = select (λ k. not (same_key key k))

module _ {Parameters Outside : Type 0} where
  abbrev all_definitions : List (ActionPlugin Parameters Outside) → List ActionDefinition
  all_definitions [] = []
  all_definitions (p ∷ plugins) = p.action_definitions ++ all_definitions plugins

  unfoldable pub action_definitions : List (ActionPlugin Parameters Outside) → List ActionDefinition
  action_definitions plugins = without_collisions [] (all_definitions plugins)

  unfoldable pub action_plugin_for :
      List (ActionPlugin Parameters Outside) → String → Option (ActionPlugin Parameters Outside)
  action_plugin_for plugins action_type =
      first (λ p. any (names_type action_type) p.action_definitions) plugins

  unfoldable pub is_critical : List (ActionPlugin Parameters Outside) → String → Bool
  is_critical plugins action_type =
      any (λ d. d.critical && names_type action_type d) (all_definitions plugins)

-- What is known of a request once it is admitted
pub record Admission (Parameters Outside : Type 0) : Type 0 where
  pub plugin : ActionPlugin Parameters Outside
  pub target : Text
  pub parameters : Parameters
  pub requires_confirmation : Bool

abbrev pub or_text : Option String → String → String
or_text none d = d
or_text (some t) d = t
