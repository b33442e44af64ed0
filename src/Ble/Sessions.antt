-- ===== src/Ble/Sessions.antt =====
-- main/protocol/ble_cmd_parser.c, core/role_dispatcher.c and core/hht/hht_main.c: a terminal that
-- the phone starts and stops.
use miri_tool_v.Base.{ℕ, ◌≡◌, inl, inr, refl, sym, ap, subst, true, false, Bool-cases, Bytes, ◌++◌}
use miri_tool_v.Role.{
  Role, Roles, no_role, hht, fw_upload, storage_upload, diag, manual, no_source, ble, request,
  start_for_role, clear,
}
use miri_tool_v.Role.Moves.{IsConsistent, with_terminal_type}
use miri_tool_v.Hht.{HhtType, wb100, hht_3000, hht_100}
use miri_tool_v.Hht.Main.{Link, Terminal, close_calls, hht_start, hht_stop}
use miri_tool_v.Ble.{is_start, is_stop, is_hht_action, normalize_compat}
use miri_tool_v.Ble.Codes.{
  cmd_start_hht_100, cmd_stop_hht_100, cmd_start_hht_wb100, cmd_stop_hht_wb100, cmd_start_hht_3000,
  cmd_stop_hht_3000,
}
use miri_tool_v.Ble.Device.{Device, Env, send_cmd}
use miri_tool_v.Ble.Handler.{handle_start, handle_stop}
use miri_tool_v.Ble.Commands.{handle_with_payload, dispatch}

-- The device has the role of the terminal, which runs and is of the type.
pub record HasStarted (type : HhtType) (r : Roles) : Type 0 where
  pub active : r.active ≡ hht
  pub running : r.terminal.running ≡ true
  pub typed : r.terminal.type ≡ type

-- The role is given up, and the terminal and its task do not run any more; of the calls since, the
-- close of the session of this type was the only one.
pub record HasStopped (type : HhtType) (r s : Roles) : Type 0 where
  pub active : s.active ≡ no_role
  pub source : s.source ≡ no_source
  pub running : s.terminal.running ≡ false
  pub task : s.terminal.task ≡ false
  pub calls : s.terminal.calls ≡ r.terminal.calls ++ close_calls type

hht_start-running : (link : Link) (t : Terminal) → (hht_start link t).running ≡ true
unfolding hht_start
hht_start-running link t = elim (Bool-cases t.running) [
  | inl on ↦ rw on refl
  | inr off ↦ rw off refl
]

hht_start-type : (link : Link) (t : Terminal) → (hht_start link t).type ≡ t.type
unfolding hht_start
hht_start-type link t = elim (Bool-cases t.running) [
  | inl on ↦ rw on refl
  | inr off ↦
      rw off
        (elim (Bool-cases t.task) [ inl made ↦ rw made refl | inr none_yet ↦ rw none_yet refl ])
]

abbrev newly : Link → Roles → Roles
newly link r = record r { active = hht; source = ble; terminal = hht_start link r.terminal }

newly-HasStarted : (link : Link) (r : Roles) → HasStarted r.terminal.type (newly link r)
newly-HasStarted link r = record {
  active = refl;
  running = hht_start-running link r.terminal;
  typed = hht_start-type link r.terminal;
}

-- Whichever role it had.
request-HasStarted :
    (link : Link) (active : Role) (r : Roles)
    → r.active ≡ active
    → (r.active ≡ hht → r.terminal.running ≡ true)
    → HasStarted r.terminal.type (request link hht ble r)
unfolding request start_for_role
request-HasStarted link hht r e runs =
    rw e (record { active = refl; running = runs e; typed = refl })
request-HasStarted link no_role r e runs = rw e (newly-HasStarted link r)
request-HasStarted link fw_upload r e runs = rw e (newly-HasStarted link r)
request-HasStarted link storage_upload r e runs = rw e (newly-HasStarted link r)
request-HasStarted link diag r e runs = rw e (newly-HasStarted link r)
request-HasStarted link manual r e runs = rw e (newly-HasStarted link r)

-- Which command starts a terminal of which type, and which stop one.
pub data Starts : ℕ → HhtType → Type 0 where
  of_100 : Starts cmd_start_hht_100 hht_100
  of_wb100 : Starts cmd_start_hht_wb100 wb100
  of_3000 : Starts cmd_start_hht_3000 hht_3000

pub data Stops : ℕ → Type 0 where
  of_100 : Stops cmd_stop_hht_100
  of_wb100 : Stops cmd_stop_hht_wb100
  of_3000 : Stops cmd_stop_hht_3000

start-HasStarted :
    (env : Env) (cmd : ℕ) (type : HhtType) (payload : Bytes) (d : Device)
    → Starts cmd type
    → IsConsistent d.roles
    → HasStarted type (handle_with_payload env cmd payload d).roles
unfolding handle_with_payload dispatch normalize_compat is_hht_action is_start is_stop handle_start
    send_cmd
start-HasStarted env _ _ payload d of_100 h =
    request-HasStarted env.link d.roles.active (with_terminal_type hht_100 d.roles) refl h.role_runs
start-HasStarted env _ _ payload d of_wb100 h =
    request-HasStarted env.link d.roles.active (with_terminal_type wb100 d.roles) refl h.role_runs
start-HasStarted env _ _ payload d of_3000 h =
    request-HasStarted env.link d.roles.active (with_terminal_type hht_3000 d.roles) refl
      h.role_runs

clear-HasStopped : (type : HhtType) (r : Roles) → HasStarted type r → HasStopped type r (clear r)
unfolding clear hht_stop
clear-HasStopped type r h =
    rw (h.active, h.running)
      (record {
        active = refl;
        source = refl;
        running = refl;
        task = refl;
        calls = ap (λ t. r.terminal.calls ++ close_calls t) h.typed;
      })

stop-clears :
    (env : Env) (cmd : ℕ) (payload : Bytes) (d : Device)
    → Stops cmd
    → (handle_with_payload env cmd payload d).roles ≡ clear d.roles
unfolding handle_with_payload dispatch normalize_compat is_hht_action is_start is_stop handle_stop
    send_cmd
stop-clears env _ payload d of_100 = refl
stop-clears env _ payload d of_wb100 = refl
stop-clears env _ payload d of_3000 = refl

-- Whatever role the device has and whether a terminal runs already, as long as one does while the
-- role is the terminal's: after a command that starts a terminal of a type the device has the role
-- of the terminal, which runs and is of this type; and after the next command, if it is one that
-- stops a terminal, of the same type or not, the role and its source are given up, the terminal
-- and its task do not run, and the only call in between is the close of a session of this type.
pub handle_with_payload_start_stop :
    (first second : Env) (start stop : ℕ) (type : HhtType) (sent more : Bytes) (d : Device)
    → Starts start type
    → Stops stop
    → IsConsistent d.roles
    → HasStarted type (handle_with_payload first start sent d).roles
      × HasStopped type
          (handle_with_payload first start sent d).roles
          (handle_with_payload second stop more (handle_with_payload first start sent d)).roles
handle_with_payload_start_stop first second start stop type sent more d starts stops h =
    let e = handle_with_payload first start sent d in
    let begun = start-HasStarted first start type sent d starts h in
    (
      begun,
      subst (HasStopped type e.roles) (sym (stop-clears second stop more e stops))
          (clear-HasStopped type e.roles begun),
    )
