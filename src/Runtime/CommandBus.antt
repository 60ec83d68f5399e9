-- ===== src/Runtime/CommandBus.antt =====
-- src/tms/runtime/command_bus.py, and the registration of the commands in
-- src/tms/runtime/command_handlers.py. A handler is a value of a type that is an argument.
use telegramv.Prelude.{List, [], ◌∷◌, Option, some, String, str_eq, ◌≡◌, refl}
use telegramv.Prelude.Maps.{lookup, assign}

module _ {H : Type 0} where
  unfoldable pub register : String → H → List (String × H) → List (String × H)
  register name handler handlers = assign str_eq name handler handlers

  -- The handler that is called; `none` is the KeyError.
  unfoldable pub dispatch : String → List (String × H) → Option H
  dispatch name handlers = lookup str_eq name handlers

-- The commands of the user interface.
pub data Command : Type 0 where
  settings_update account_add account_enable account_delete account_select : Command
  account_connect auth_send_code auth_sign_in source_resolve source_joined_groups : Command
  source_select_group source_scan source_cancel_scan source_resume_scan dataset_import : Command
  dataset_combine dataset_select dataset_export target_resolve migration_precheck : Command
  migration_plan migration_start migration_pause migration_stop migration_resume : Command
  job_export_results job_export_log job_resume utility_join utility_leave : Command

abbrev pub command_name : Command → String
command_name Command.settings_update = "settings.update"
command_name Command.account_add = "account.add"
command_name Command.account_enable = "account.enable"
command_name Command.account_delete = "account.delete"
command_name Command.account_select = "account.select"
command_name Command.account_connect = "account.connect"
command_name Command.auth_send_code = "auth.send_code"
command_name Command.auth_sign_in = "auth.sign_in"
command_name Command.source_resolve = "source.resolve"
command_name Command.source_joined_groups = "source.joined_groups"
command_name Command.source_select_group = "source.select_group"
command_name Command.source_scan = "source.scan"
command_name Command.source_cancel_scan = "source.cancel_scan"
command_name Command.source_resume_scan = "source.resume_scan"
command_name Command.dataset_import = "dataset.import"
command_name Command.dataset_combine = "dataset.combine"
command_name Command.dataset_select = "dataset.select"
command_name Command.dataset_export = "dataset.export"
command_name Command.target_resolve = "target.resolve"
command_name Command.migration_precheck = "migration.precheck"
command_name Command.migration_plan = "migration.plan"
command_name Command.migration_start = "migration.start"
command_name Command.migration_pause = "migration.pause"
command_name Command.migration_stop = "migration.stop"
command_name Command.migration_resume = "migration.resume"
command_name Command.job_export_results = "job.export_results"
command_name Command.job_export_log = "job.export_log"
command_name Command.job_resume = "job.resume"
command_name Command.utility_join = "utility.join"
command_name Command.utility_leave = "utility.leave"

-- In the order of `register_all`.
abbrev pub all_commands : List Command
all_commands =
    Command.settings_update ∷ Command.account_add ∷ Command.account_enable ∷ Command.account_delete
    ∷ Command.account_select ∷ Command.account_connect ∷ Command.auth_send_code
    ∷ Command.auth_sign_in ∷ Command.source_resolve ∷ Command.source_joined_groups
    ∷ Command.source_select_group ∷ Command.source_scan ∷ Command.source_cancel_scan
    ∷ Command.source_resume_scan ∷ Command.dataset_import ∷ Command.dataset_combine
    ∷ Command.dataset_select ∷ Command.dataset_export ∷ Command.target_resolve
    ∷ Command.migration_precheck ∷ Command.migration_plan ∷ Command.migration_start
    ∷ Command.migration_pause ∷ Command.migration_stop ∷ Command.migration_resume
    ∷ Command.job_export_results ∷ Command.job_export_log ∷ Command.job_resume
    ∷ Command.utility_join ∷ Command.utility_leave ∷ []

module _ {H : Type 0} (handler : Command → H) where
  register_each : List Command → List (String × H) → List (String × H)
  unfolding register
  register_each [] handlers = handlers
  register_each (command ∷ rest) handlers =
      register_each rest (register (command_name command) (handler command) handlers)

  unfoldable pub register_all : List (String × H)
  unfolding register_each
  register_all = register_each all_commands []

  -- Every command finds its own handler among those that are registered.
  dispatch-register_all :
      (command : Command) → dispatch (command_name command) register_all ≡ some (handler command)
  unfolding dispatch register_all register_each register lookup assign
  dispatch-register_all Command.settings_update = refl
  dispatch-register_all Command.account_add = refl
  dispatch-register_all Command.account_enable = refl
  dispatch-register_all Command.account_delete = refl
  dispatch-register_all Command.account_select = refl
  dispatch-register_all Command.account_connect = refl
  dispatch-register_all Command.auth_send_code = refl
  dispatch-register_all Command.auth_sign_in = refl
  dispatch-register_all Command.source_resolve = refl
  dispatch-register_all Command.source_joined_groups = refl
  dispatch-register_all Command.source_select_group = refl
  dispatch-register_all Command.source_scan = refl
  dispatch-register_all Command.source_cancel_scan = refl
  dispatch-register_all Command.source_resume_scan = refl
  dispatch-register_all Command.dataset_import = refl
  dispatch-register_all Command.dataset_combine = refl
  dispatch-register_all Command.dataset_select = refl
  dispatch-register_all Command.dataset_export = refl
  dispatch-register_all Command.target_resolve = refl
  dispatch-register_all Command.migration_precheck = refl
  dispatch-register_all Command.migration_plan = refl
  dispatch-register_all Command.migration_start = refl
  dispatch-register_all Command.migration_pause = refl
  dispatch-register_all Command.migration_stop = refl
  dispatch-register_all Command.migration_resume = refl
  dispatch-register_all Command.job_export_results = refl
  dispatch-register_all Command.job_export_log = refl
  dispatch-register_all Command.job_resume = refl
  dispatch-register_all Command.utility_join = refl
  dispatch-register_all Command.utility_leave = refl
