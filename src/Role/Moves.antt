-- ===== src/Role/Moves.antt =====
-- The roles as a state machine: what may happen to them, and what holds wherever they come to.
use miri_tool_v.Base.{
  ◌≡◌, ◌≢◌, ◌⊎◌, inl, inr, refl, sym, subst, ◌∙◌, Bool, true, false, ◌||◌, List, [], ◌∷◌, ◌++◌,
  if◌then◌else◌, arith,
}
use miri_tool_v.Hht.{HhtType, wb100, hht_3000, hht_100, count}
use miri_tool_v.Hht.Main.{
  Link, Terminal, TerminalCall, task_not_made, task_call, set_type, open_calls, close_calls,
  hht_start, hht_stop,
}
use miri_tool_v.Role.{
  Role, RoleSource, Roles, no_role, hht, fw_upload, storage_upload, diag, manual, request,
  start_for_role, clear, stop_active,
}

abbrev pub with_terminal_type : HhtType → Roles → Roles
with_terminal_type type r = record r { terminal = set_type type r.terminal }

-- A role is asked for, the role is given up, or the type of the terminal is set.
pub data Move (r : Roles) (s : Roles) : Type 0 where
  asked : (link : Link) (role : Role) (from : RoleSource) → s ≡ request link role from r → Move r s
  cleared : s ≡ clear r → Move r s
  typed : (type : HhtType) → s ≡ with_terminal_type type r → Move r s

pub data Moves (r : Roles) : Roles → Type 0 where
  here : Moves r r
  next : {s t : Roles} → Moves r s → Move s t → Moves r t

pub Moves-trans : {r s t : Roles} → Moves r s → Moves s t → Moves r t
Moves-trans h here = h
Moves-trans h (next k m) = next (Moves-trans h k) m

-- whether the task of the terminal could not be made at some time
abbrev pub is_loss : TerminalCall → Bool
is_loss task_not_made = true
is_loss _ = false

abbrev pub lost : List TerminalCall → Bool
lost [] = false
lost (c ∷ cs) = is_loss c || lost cs

lost-append_last : (xs ys : List TerminalCall) → lost ys ≡ true → lost (xs ++ ys) ≡ true
lost-append_last [] ys h = h
lost-append_last (x ∷ xs) ys h = let later = lost-append_last xs ys h in rw later (go (is_loss x))
  where
    go : (b : Bool) → (b || true) ≡ true
    go true = refl
    go false = refl

-- The task of the terminal runs only while the terminal does, and all that time unless it could not
-- be made at some time.
pub record IsTended (t : Terminal) : Type 0 where
  pub only_running : t.task ≡ true → t.running ≡ true
  pub all_the_time : (t.task ≡ t.running) ⊎ (lost t.calls ≡ true)

-- That, and the terminal runs while the role is the terminal's.
pub record IsConsistent (r : Roles) : Type 0 where
  pub tended : IsTended r.terminal
  pub role_runs : r.active ≡ hht → r.terminal.running ≡ true

set_type-IsTended : (type : HhtType) (t : Terminal) → IsTended t → IsTended (set_type type t)
set_type-IsTended wb100 t h = record {
  only_running = h.only_running;
  all_the_time = h.all_the_time;
}
set_type-IsTended hht_3000 t h = record {
  only_running = h.only_running;
  all_the_time = h.all_the_time;
}
set_type-IsTended hht_100 t h = record {
  only_running = h.only_running;
  all_the_time = h.all_the_time;
}
set_type-IsTended count t h = h

set_type-running : (type : HhtType) (t : Terminal) → (set_type type t).running ≡ t.running
set_type-running wb100 t = refl
set_type-running hht_3000 t = refl
set_type-running hht_100 t = refl
set_type-running count t = refl

true-ne-false : true ≢ false
true-ne-false e = absurd (grind arith)

made :
    (b : Bool) (calls : List TerminalCall) (type : HhtType)
    → IsTended (record { running = true; type = type; task = b; calls = calls ++ task_call b ∷ [] })
made true calls type = record { only_running = λ e. refl; all_the_time = inl refl }
made false calls type = record {
  only_running = λ e. refl;
  all_the_time = inr (lost-append_last calls (task_not_made ∷ []) refl);
}

-- A terminal that is not running has no task, and gets one if that can be made.
hht_start-IsTended :
    (link : Link) (t : Terminal)
    → IsTended t
    → IsTended (hht_start link t) × ((hht_start link t).running ≡ true)
unfolding hht_start
hht_start-IsTended link t h = go t.running refl t.task refl
  where
    opened : Terminal
    opened = record t { calls = t.calls ++ open_calls link t.type }

    go :
        (on : Bool)
        → t.running ≡ on
        → (there : Bool) → t.task ≡ there
        → let u =
            if on
            then t
            else record (if there then opened else record opened {
              task = link.makes_task;
              calls = opened.calls ++ task_call link.makes_task ∷ [];
            }) { running = true } in
          IsTended u × (u.running ≡ true)
    go true on there e = (h, on)
    go false off true e = absurd (true-ne-false (sym (h.only_running e) ∙ off))
    go false off false e = (made link.makes_task opened.calls t.type, refl)

hht_stop-IsTended : (t : Terminal) → IsTended t → IsTended (hht_stop t)
unfolding hht_stop
hht_stop-IsTended t h = go t.running
  where
    go :
        (b : Bool)
        → IsTended (
            if b
            then record t { running = false; task = false; calls = t.calls ++ close_calls t.type }
            else t)
    go true = record { only_running = λ e. absurd (true-ne-false (sym e)); all_the_time = inl refl }
    go false = h

start-IsConsistent :
    (link : Link) (role : Role) (from : RoleSource) (r : Roles)
    → IsConsistent r
    → IsConsistent (start_for_role link role (record r { active = role; source = from }))
unfolding start_for_role
start-IsConsistent link no_role from r h = record { tended = h.tended; role_runs = λ e. cc }
start-IsConsistent link hht from r h =
    let s = hht_start-IsTended link r.terminal h.tended in
    record { tended = s.0; role_runs = λ e. s.1 }
start-IsConsistent link fw_upload from r h = record { tended = h.tended; role_runs = λ e. cc }
start-IsConsistent link storage_upload from r h = record { tended = h.tended; role_runs = λ e. cc }
start-IsConsistent link diag from r h = record { tended = h.tended; role_runs = λ e. cc }
start-IsConsistent link manual from r h = record { tended = h.tended; role_runs = λ e. cc }

either :
    (b : Bool) (r s : Roles) → IsConsistent r → IsConsistent s → IsConsistent (if b then r else s)
either true r s h k = h
either false r s h k = k

stop_active-IsTended : (role : Role) (t : Terminal) → IsTended t → IsTended (stop_active role t)
stop_active-IsTended no_role t h = h
stop_active-IsTended hht t h = hht_stop-IsTended t h
stop_active-IsTended fw_upload t h = h
stop_active-IsTended storage_upload t h = h
stop_active-IsTended diag t h = h
stop_active-IsTended manual t h = h

Move-IsConsistent : {r s : Roles} → Move r s → IsConsistent r → IsConsistent s
unfolding request clear
Move-IsConsistent {r} {s} (asked link role from e) h =
    subst IsConsistent (sym e)
      (either _ r _ h (either _ r _ h (start-IsConsistent link role from r h)))
Move-IsConsistent {r} {s} (cleared e) h =
    subst IsConsistent (sym e)
      (record { tended = stop_active-IsTended r.active r.terminal h.tended; role_runs = λ q. cc })
Move-IsConsistent {r} {s} (typed type e) h = subst IsConsistent (sym e) (record {
  tended = set_type-IsTended type r.terminal h.tended;
  role_runs = λ q. set_type-running type r.terminal ∙ h.role_runs q;
})

-- However the roles are asked for and given up, and whatever the type of the terminal is set to.
pub Moves-IsConsistent : {r s : Roles} → Moves r s → IsConsistent r → IsConsistent s
Moves-IsConsistent here h = h
Moves-IsConsistent (next k m) h = Move-IsConsistent m (Moves-IsConsistent k h)
