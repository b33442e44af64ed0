-- ===== src/Role.antt =====
-- main/core/role_dispatcher.c and main/tasks/task_manager.c: which role the device has, and what is
-- started for it.
pub mod Moves
use miri_tool_v.Base.{ℕ, Bool, true, false, List, [], ◌∷◌, ◌++◌, if◌then◌else◌}
use miri_tool_v.Hht.Main.{Link, Terminal, hht_start, hht_stop}

-- role_t
pub data Role : Type 0 where
  no_role hht fw_upload storage_upload diag manual : Role

-- role_source_t
pub data RoleSource : Type 0 where
  no_source ble cli : RoleSource

-- The static variables, the terminal, and the roles whose other tasks were started.
pub record Roles : Type 0 where
  pub active : Role
  pub source : RoleSource
  pub terminal : Terminal
  pub started : List Role

abbrev pub same_role : Role → Role → Bool
same_role no_role no_role = true
same_role hht hht = true
same_role fw_upload fw_upload = true
same_role storage_upload storage_upload = true
same_role diag diag = true
same_role manual manual = true
same_role _ _ = false

abbrev pub roles_init : Roles → Roles
roles_init r = record r { active = no_role; source = no_source }

unfoldable pub start_for_role : Link → Role → Roles → Roles
start_for_role link hht r = record r { terminal = hht_start link r.terminal }
start_for_role link no_role r = r
start_for_role link role r = record r { started = r.started ++ role ∷ [] }

unfoldable pub request : Link → Role → RoleSource → Roles → Roles
unfolding start_for_role
request link role source r =
    if same_role role no_role
    then r
    else if same_role role r.active
    then r
    else start_for_role link role (record r { active = role; source = source })

abbrev pub stop_active : Role → Terminal → Terminal
stop_active hht t = hht_stop t
stop_active _ t = t

unfoldable pub clear : Roles → Roles
clear r = record r {
  active = no_role;
  source = no_source;
  terminal = stop_active r.active r.terminal;
}
