-- ===== src/Actions/Safety.antt =====
-- backend/app/services/actions.py: what a request for an action can bring about.
use open_sec_dash.Prelude.{
  ◌≡◌, refl, ap, subst, sym, ◌∙◌, ◌⊎◌, inl, inr, Bool, true, false, not, ◌&&◌, ◌||◌, Option, none,
  some, List, [], ◌∷◌, ◌++◌, ◌==◌, string_eq, contains, first, beq_refl, if◌then◌else◌, Bool-cases,
  arith,
}
use open_sec_dash.Prelude.Text.{Text, text_eq}
use open_sec_dash.Database.{Database}
use open_sec_dash.Actions.Registry.{
  ActionDefinition, Action, ActionPlugin, Refusal, already_running, Result, ok, refused, ActionKey,
  same_key, Office, ActionRequest, is_dry_run, names_type, is_running, release_action,
  action_definitions, action_plugin_for, is_critical, Admission, same_flag,
}
use open_sec_dash.Actions.{
  admit, admit_plugin, admit_definition, admit_target, admit_parameters, validate_ip_target,
  execute_action, event_of, key_of, begin, new_action, end, create_action, after_admit, after_begin,
}

different_flags : (a b : Bool) → same_flag a b ≡ false → a ≡ not b
different_flags true b h = ground arith
different_flags false b h = ground arith

or_false : (a b : Bool) → a ≡ false → (a || b) ≡ false → b ≡ false
or_false true b e h = absurd (ground arith)
or_false false b e h = h

same_key_refl : (key : ActionKey) → same_key key key ≡ true
same_key_refl (a, b, c) = rw (beq_refl a, beq_refl b, beq_refl c) refl

release-none :
    (key : ActionKey) (running : List ActionKey)
    → is_running key running ≡ false
    → release_action key running ≡ running
unfolding release_action is_running
release-none key [] h = refl
release-none key (k ∷ running) h = elim (Bool-cases (same_key key k)) [
  | inl e ↦ absurd (ground arith)
  | inr e ↦ rw e (ap (λ r. k ∷ r) (release-none key running (or_false _ _ e h)))
]

-- Taking the lock and giving it back leaves the set as it was.
release-cons :
    (key : ActionKey) (running : List ActionKey)
    → is_running key running ≡ false
    → release_action key (key ∷ running) ≡ running
unfolding release_action
release-cons key running h = rw (same_key_refl key) (release-none key running h)

if_refused :
    {A : Type 0} (b : Bool) (e : Refusal) (r : Result A) (a : A)
    → (if b then refused e else r) ≡ ok a
    → (b ≡ false) × (r ≡ ok a)
if_refused true e r a h = absurd (ground arith)
if_refused false e r a h = (refl, h)

confirmed_of : (c d : Bool) → (c && not d) ≡ false → c ≡ true → d ≡ true
confirmed_of c d h e = ground arith

global_of : (c i g : Bool) → (c && i && not g) ≡ false → c ≡ true → i ≡ true → g ≡ true
global_of c i g h e f = ground arith

not-false : (b : Bool) → not b ≡ false → b ≡ true
not-false b h = ground arith

module _ {Parameters Outside : Type 0} (plugins : List (ActionPlugin Parameters Outside))
    (is_global_target : Text → Option Bool) where
  -- The request names an action that its sender may start, on a target that the action takes.
  pub record IsPermitted (request : ActionRequest Parameters)
      (admission : Admission Parameters Outside) : Type 0 where
    pub definition : ActionDefinition
    pub known :
        first (names_type request.action_type) (action_definitions plugins) ≡ some definition
    pub owner : action_plugin_for plugins request.action_type ≡ some admission.plugin
    pub invocable : request.internal ≡ not definition.user_invocable
    pub target_kind : contains request.target_type definition.target_types ≡ true
    pub confirmed : is_critical plugins request.action_type ≡ true → request.confirmed ≡ true
    pub global :
        is_critical plugins request.action_type ≡ true
        → (request.target_type == "ip") ≡ true
        → validate_ip_target is_global_target admission.target ≡ true

  admit_parameters-target :
      (plugin : ActionPlugin Parameters Outside) (target : Text) (critical : Bool)
      (o : Option Parameters) (admission : Admission Parameters Outside)
      → admit_parameters plugins is_global_target plugin target critical o ≡ ok admission
      → (admission.plugin ≡ plugin) × (admission.target ≡ target)
  unfolding admit_parameters
  admit_parameters-target plugin target critical none admission h = absurd (ground arith)
  admit_parameters-target plugin target critical (some p) admission h = (ground arith, ground arith)

  -- What the checks on the target give
  unfoldable pub HasTarget :
      ActionRequest Parameters
      → ActionPlugin Parameters Outside
      → Admission Parameters Outside
      → Type 0
  HasTarget request plugin admission =
      (admission.plugin ≡ plugin)
      × (is_critical plugins request.action_type ≡ true → request.confirmed ≡ true)
      × (is_critical plugins request.action_type ≡ true
          → (request.target_type == "ip") ≡ true
          → validate_ip_target is_global_target admission.target ≡ true)

  admit_target-HasTarget :
      (db : Database) (request : ActionRequest Parameters)
      (plugin : ActionPlugin Parameters Outside) (o : Option Text)
      (admission : Admission Parameters Outside)
      → admit_target plugins is_global_target db request plugin o ≡ ok admission
      → HasTarget request plugin admission
  unfolding admit_target HasTarget
  admit_target-HasTarget db request plugin none admission h = absurd (ground arith)
  admit_target-HasTarget db request plugin (some target) admission h =
      let critical = is_critical plugins request.action_type in
      let (confirmed, h1) = if_refused (critical && not request.confirmed) _ _ admission h in
      let (global, h2) =
        if_refused
          (critical
            && request.target_type == "ip"
            && not (validate_ip_target is_global_target target))
          _ _ admission h1 in
      let (owner, same) =
        admit_parameters-target plugin target critical
          (plugin.validate_action db request.action_type target request.parameters (is_dry_run db))
          admission h2 in
      (
        owner,
        λ c. confirmed_of critical request.confirmed confirmed c,
        λ c i.
            subst (λ t. validate_ip_target is_global_target t ≡ true) (sym same)
              (global_of critical (request.target_type == "ip")
                (validate_ip_target is_global_target target) global c i),
      )

  admit_definition-IsPermitted :
      (db : Database) (request : ActionRequest Parameters)
      (plugin : ActionPlugin Parameters Outside) (o : Option ActionDefinition)
      (admission : Admission Parameters Outside)
      → action_plugin_for plugins request.action_type ≡ some plugin
      → first (names_type request.action_type) (action_definitions plugins) ≡ o
      → admit_definition plugins is_global_target db request plugin o ≡ ok admission
      → IsPermitted request admission
  unfolding admit_definition HasTarget
  admit_definition-IsPermitted db request plugin none admission p e h = absurd (ground arith)
  admit_definition-IsPermitted db request plugin (some definition) admission p e h =
      let (flags, h1) =
        if_refused (same_flag request.internal definition.user_invocable) _ _ admission h in
      let (kind, h2) =
        if_refused (not (contains request.target_type definition.target_types)) _ _ admission h1 in
      let (owner, confirmed, global) =
        admit_target-HasTarget db request plugin
          (plugin.normalize_action_target db request.action_type request.target request.parameters
            (is_dry_run db))
          admission h2 in
      record {
        definition = definition;
        known = e;
        owner = p ∙ ap some (sym owner);
        invocable = different_flags request.internal definition.user_invocable flags;
        target_kind = not-false _ kind;
        confirmed = confirmed;
        global = global;
      }

  admit_plugin-IsPermitted :
      (db : Database) (request : ActionRequest Parameters)
      (o : Option (ActionPlugin Parameters Outside)) (admission : Admission Parameters Outside)
      → action_plugin_for plugins request.action_type ≡ o
      → admit_plugin plugins is_global_target db request o ≡ ok admission
      → IsPermitted request admission
  unfolding admit_plugin
  admit_plugin-IsPermitted db request none admission p h = absurd (ground arith)
  admit_plugin-IsPermitted db request (some plugin) admission p h =
      admit_definition-IsPermitted db request plugin
        (first (names_type request.action_type) (action_definitions plugins)) admission p refl h

  admit-IsPermitted :
      (db : Database) (request : ActionRequest Parameters)
      (admission : Admission Parameters Outside)
      → admit plugins is_global_target db request ≡ ok admission
      → IsPermitted request admission
  unfolding admit
  admit-IsPermitted db request admission h =
      admit_plugin-IsPermitted db request (action_plugin_for plugins request.action_type) admission
        refl h

  -- How `_create_action` can end: refused with nothing changed, or with the action and its event
  -- stored, the set of running actions as it was, and nothing done outside in simulation
  unfoldable pub IsLawful :
      Office Parameters Outside
      → ActionRequest Parameters
      → Office Parameters Outside × Result (Action Parameters)
      → Type 0
  IsLawful office request (office', result) =
      ((reason : Refusal) × (result ≡ refused reason) × (office' ≡ office))
      ⊎ ((admission : Admission Parameters Outside) × (action : Action Parameters) × (result
            ≡ ok action)
          × IsPermitted request admission
          × (is_running (key_of plugins is_global_target request admission) office.running ≡ false)
          × (office'.running ≡ office.running)
          × (office'.actions ≡ office.actions ++ (action ∷ []))
          × (office'.events
              ≡ office.events
                ++ (event_of plugins is_global_target admission.plugin request action ∷ []))
          × (is_dry_run office.db ≡ true → office'.outside ≡ office.outside))

  execute_action-dry_run :
      (plugin : ActionPlugin Parameters Outside) (request : ActionRequest Parameters)
      (db : Database) (outside : Outside) (action : Action Parameters)
      → is_dry_run db ≡ true
      → (execute_action plugins is_global_target plugin request db outside action).0 ≡ outside
  unfolding execute_action
  execute_action-dry_run plugin request db outside action dry = rw dry refl

  after_begin-IsLawful :
      (office : Office Parameters Outside) (request : ActionRequest Parameters)
      (admission : Admission Parameters Outside)
      → IsPermitted request admission
      → IsLawful office request (
          after_begin plugins is_global_target office request admission
            (begin plugins is_global_target office request admission))
  unfolding begin after_begin IsLawful end
  after_begin-IsLawful office request admission permitted =
      let key = key_of plugins is_global_target request admission in
      elim (Bool-cases (is_running key office.running)) [
        | inl e ↦ rw e (inl (already_running, refl, refl))
        | inr e ↦
            let office' = record office { running = key ∷ office.running } in
            let action = new_action plugins is_global_target office' request admission in
            let done =
              execute_action plugins is_global_target admission.plugin request office.db
                office.outside action in
            rw e (
              inr (
                admission,
                done.1,
                refl,
                permitted,
                e,
                release-cons key office.running e,
                refl,
                refl,
                λ dry.
                    execute_action-dry_run admission.plugin request office.db office.outside action
                      dry,
              ))
      ]

  after_admit-IsLawful :
      (office : Office Parameters Outside) (request : ActionRequest Parameters)
      (r : Result (Admission Parameters Outside))
      → admit plugins is_global_target office.db request ≡ r
      → IsLawful office request (after_admit plugins is_global_target office request r)
  unfolding after_admit IsLawful
  after_admit-IsLawful office request (refused reason) e = inl (reason, refl, refl)
  after_admit-IsLawful office request (ok admission) e =
      unfold IsLawful in
      after_begin-IsLawful office request admission
        (admit-IsPermitted office.db request admission e)

  -- A request for an action either is refused and changes nothing, or it is permitted: its type is
  -- registered, open to its sender and takes the kind of target, and a critical action is confirmed
  -- and, on an address, has a global one. Then no same action was running, the action and its event
  -- are stored, the set of running actions is as before, and in simulation nothing is done outside.
  pub create_action-IsLawful :
      (office : Office Parameters Outside) (request : ActionRequest Parameters)
      → IsLawful office request (create_action plugins is_global_target office request)
  unfolding create_action
  create_action-IsLawful office request =
      after_admit-IsLawful office request (admit plugins is_global_target office.db request) refl
