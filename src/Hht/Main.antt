-- ===== src/Hht/Main.antt =====
-- main/core/hht/hht_main.c, hht_session.c and hht_task.c: the terminal that is started and stopped
-- with a role, and the session that is opened and closed for its type.
use miri_tool_v.Base.{Bool, true, false, List, [], ◌∷◌, ◌++◌, if◌then◌else◌}
use miri_tool_v.Hht.{HhtType, wb100, hht_3000, hht_100, count}
use miri_tool_v.Hht.Wb100.{SessionResult, ok, err_uart}

-- The calls of the drivers of the terminals, and whether `hht_task_start` made the task.
pub data TerminalCall : Type 0 where
  wb100_init wb100_open wb100_workflow wb100_close h3000_init h3000_open h3000_close : TerminalCall
  task_made task_not_made : TerminalCall

-- What opening a session finds on the line, and whether there is memory for the task and its
-- semaphore.
pub record Link : Type 0 where
  pub wb100_result : SessionResult
  pub h3000_result : Bool
  pub makes_task : Bool

-- The static variables of the modules, and the calls so far.
pub record Terminal : Type 0 where
  pub running : Bool
  pub type : HhtType
  pub task : Bool
  pub calls : List TerminalCall

abbrev pub set_type : HhtType → Terminal → Terminal
set_type count t = t
set_type type t = record t { type = type }

-- The calls of `hht_session_open`. Only a WB100, or a type that is none of the three, goes on with
-- its workflow.
abbrev pub wb100_calls : SessionResult → List TerminalCall
wb100_calls ok = wb100_init ∷ wb100_open ∷ wb100_workflow ∷ []
wb100_calls _ = wb100_init ∷ wb100_open ∷ []

abbrev pub open_calls : Link → HhtType → List TerminalCall
open_calls link wb100 = wb100_calls link.wb100_result
open_calls link hht_100 = wb100_init ∷ wb100_open ∷ []
open_calls link hht_3000 = h3000_init ∷ h3000_open ∷ []
open_calls link count = wb100_calls link.wb100_result

-- Its result.
unfoldable pub session_open : Link → HhtType → SessionResult
session_open link hht_3000 = if link.h3000_result then ok else err_uart
session_open link _ = link.wb100_result

abbrev pub close_calls : HhtType → List TerminalCall
close_calls hht_3000 = h3000_close ∷ []
close_calls _ = wb100_close ∷ []

abbrev pub task_call : Bool → TerminalCall
task_call true = task_made
task_call false = task_not_made

-- `hht_task_start`
abbrev pub task_start : Link → Terminal → Terminal
task_start link t =
    if t.task
    then t
    else record t { task = link.makes_task; calls = t.calls ++ task_call link.makes_task ∷ [] }

-- The task is started whether the session opens or not, and the terminal counts as running whether
-- the task is made or not.
unfoldable pub hht_start : Link → Terminal → Terminal
hht_start link t =
    if t.running
    then t
    else record (task_start link (record t { calls = t.calls ++ open_calls link t.type })) {
      running = true;
    }

unfoldable pub hht_stop : Terminal → Terminal
hht_stop t =
    if t.running
    then record t { running = false; task = false; calls = t.calls ++ close_calls t.type }
    else t
