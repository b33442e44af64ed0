-- ===== src/Hht/Keys/Bursts.antt =====
-- What the keys write to the terminal: the burst of a short key, the run of a long one, and what a
-- release or a change of the display makes of them.
use miri_tool_v.Base.{
  ℕ, zero, suc, ◌-◌, ◌≤◌, ◌≡◌, ◌≢◌, refl, sym, ap, ◌∙◌, Bool, true, false, not, Bytes, List, [],
  ◌∷◌, ◌++◌, append_assoc, append-nil, replicate, arith, ◌==◌, if◌then◌else◌,
}
use miri_tool_v.Hht.{HhtType}
use miri_tool_v.Hht.Keys.{
  Keys, key_none, key_bytes, keys_send_internal, released, cancel_short_on_display_change,
  keys_poll, poll_held, keys_send, keys_send_long, polls,
}

-- four times the key, and one release
abbrev pub short_burst : HhtType → ℕ → List Bytes
short_burst type key =
    key_bytes type key
    ∷ key_bytes type key
    ∷ key_bytes type key
    ∷ key_bytes type key
    ∷ key_bytes type key_none
    ∷ []

-- No key is held and no release is due.
abbrev pub IsIdle : Keys → Type 0
IsIdle s = (s.hold_active ≡ false) × (s.release_pending ≡ false)

-- the state after a press: `w` has been written before
abbrev held : ℕ → Bool → List Bytes → Keys
held key long w = record {
  hold_ticks = if long then 0 else 4;
  hold_key = key;
  hold_active = true;
  hold_long = long;
  release_pending = false;
  release_log_immediate = false;
  press_log_pending = not long;
  written = w;
}

keys_send-held : (key : ℕ) (s : Keys) → key ≢ key_none → keys_send key s ≡ held key false s.written
unfolding keys_send
keys_send-held key s h = let e : (key == key_none) ≡ false = ground arith in rw e

keys_send_long-held :
    (key : ℕ) (s : Keys) → key ≢ key_none → keys_send_long key s ≡ held key true s.written
unfolding keys_send_long
keys_send_long-held key s h = let e : (key == key_none) ≡ false = ground arith in rw e

five_writes :
    (w : List Bytes) (a b c d e : Bytes)
    → ((((w ++ a ∷ []) ++ b ∷ []) ++ c ∷ []) ++ d ∷ []) ++ e ∷ [] ≡ w ++ a ∷ b ∷ c ∷ d ∷ e ∷ []
five_writes w a b c d e =
    append_assoc (((w ++ a ∷ []) ++ b ∷ []) ++ c ∷ []) (d ∷ []) (e ∷ [])
    ∙ append_assoc ((w ++ a ∷ []) ++ b ∷ []) (c ∷ []) (d ∷ e ∷ [])
    ∙ append_assoc (w ++ a ∷ []) (b ∷ []) (c ∷ d ∷ e ∷ [])
    ∙ append_assoc w (a ∷ []) (b ∷ c ∷ d ∷ e ∷ [])

-- The state after a burst: its key and its release are written, and nothing is held.
abbrev pub Burst : HhtType → ℕ → List Bytes → Keys → Type 0
Burst type key w t = (t.written ≡ w ++ short_burst type key) × IsIdle t

held-Burst :
    (type : HhtType) (key : ℕ) (w : List Bytes) → Burst type key w (polls type 5 (held key false w))
unfolding keys_poll poll_held
held-Burst type key w = (five_writes w _ _ _ _ _, (refl, refl))

released-Burst :
    (type : HhtType) (key before : ℕ) (w : List Bytes)
    → before ≤ 4
    → Burst type key w
        (polls type (5 - before) (keys_send key_none (polls type before (held key false w))))
unfolding keys_send keys_poll poll_held
released-Burst type key zero w k = (five_writes w _ _ _ _ _, (refl, refl))
released-Burst type key (suc zero) w k = (five_writes w _ _ _ _ _, (refl, refl))
released-Burst type key (suc (suc zero)) w k = (five_writes w _ _ _ _ _, (refl, refl))
released-Burst type key (suc (suc (suc zero))) w k = (five_writes w _ _ _ _ _, (refl, refl))
released-Burst type key (suc (suc (suc (suc zero)))) w k = (five_writes w _ _ _ _ _, (refl, refl))
released-Burst type key (suc (suc (suc (suc (suc n))))) w k = absurd (omega arith)

-- A short key that is pressed is written four times and released once by the next five polls, also
-- if it is released after the first `before` of them, four at most; nothing is held after them.
pub polls-keys_send :
    (type : HhtType) (key before : ℕ) (s : Keys)
    → key ≢ key_none
    → before ≤ 4
    → Burst type key s.written (polls type 5 (keys_send key s))
      × Burst type key s.written
          (polls type (5 - before) (keys_send key_none (polls type before (keys_send key s))))
polls-keys_send type key before s h k =
    rw (keys_send-held key s h)
      (held-Burst type key s.written, released-Burst type key before s.written k)

-- a poll while a long key is held
long_poll :
    (type : HhtType) (key : ℕ) (w : List Bytes)
    → keys_poll type (held key true w) ≡ held key true (w ++ key_bytes type key ∷ [])
unfolding keys_poll poll_held
long_poll type key w = refl

long_polls :
    (type : HhtType) (key n : ℕ) (w : List Bytes)
    → polls type n (held key true w) ≡ held key true (w ++ replicate n (key_bytes type key))
long_polls type key zero w = rw append-nil
long_polls type key (suc n) w =
    ap (polls type n) (long_poll type key w)
    ∙ long_polls type key n (w ++ key_bytes type key ∷ [])
    ∙ ap (held key true)
        (append_assoc w (key_bytes type key ∷ []) (replicate n (key_bytes type key)))

long_release :
    (type : HhtType) (key : ℕ) (w : List Bytes)
    → let t = keys_poll type (keys_send key_none (held key true w)) in
      (t.written ≡ w ++ key_bytes type key_none ∷ []) × IsIdle t
unfolding keys_send keys_poll
long_release type key w = (refl, (refl, refl))

-- A long key is written by each of `n` polls, however many, and released by the first poll after
-- the release.
polls-keys_send_long :
    (type : HhtType) (key n : ℕ) (s : Keys)
    → key ≢ key_none
    → let t = keys_poll type (keys_send key_none (polls type n (keys_send_long key s))) in
      (t.written ≡ s.written ++ (replicate n (key_bytes type key) ++ key_bytes type key_none ∷ []))
      × IsIdle t
polls-keys_send_long type key n s h =
    rw (keys_send_long-held key s h, long_polls type key n s.written)
      (rw
        (← append_assoc s.written (replicate n (key_bytes type key)) (key_bytes type key_none ∷ []))
        (long_release type key (s.written ++ replicate n (key_bytes type key))))

idle_poll :
    (type : HhtType) (s : Keys) → IsIdle s → keys_poll type s ≡ keys_send_internal type key_none s
unfolding keys_poll poll_held
idle_poll type s h = rw (h.0, h.1)

idle_polls :
    (type : HhtType) (n : ℕ) (s : Keys)
    → IsIdle s
    → (polls type n s).written ≡ s.written ++ replicate n (key_bytes type key_none)
idle_polls type zero s h = sym (append-nil s.written)
idle_polls type (suc n) s h =
    ap (λ u. (polls type n u).written) (idle_poll type s h)
    ∙ idle_polls type n (keys_send_internal type key_none s) h
    ∙ append_assoc s.written (key_bytes type key_none ∷ []) (replicate n (key_bytes type key_none))

cancelled :
    (type : HhtType) (s : Keys)
    → s.hold_active ≡ true
    → s.hold_long ≡ false
    → cancel_short_on_display_change type s ≡ keys_send_internal type key_none (released s)
unfolding cancel_short_on_display_change
cancelled type s a l = rw (a, l)

kept : (type : HhtType) (s : Keys) → s.hold_long ≡ true → cancel_short_on_display_change type s ≡ s
unfolding cancel_short_on_display_change
kept type s l = grind arith

-- A change of the display ends the burst of a short key: a release is written at once, and the
-- polls after it write nothing but releases. A long key it leaves alone.
polls-cancel_short_on_display_change :
    (type : HhtType) (n : ℕ) (s : Keys)
    → s.hold_active ≡ true
    → (s.hold_long ≡ false
        → (polls type n (cancel_short_on_display_change type s)).written
          ≡ s.written ++ replicate (suc n) (key_bytes type key_none))
      × (s.hold_long ≡ true → cancel_short_on_display_change type s ≡ s)
polls-cancel_short_on_display_change type n s a = (
  λ short. rw (cancelled type s a short) (
      idle_polls type n (keys_send_internal type key_none (released s)) (refl, refl)
      ∙ append_assoc s.written (key_bytes type key_none ∷ [])
          (replicate n (key_bytes type key_none))),
  kept type s,
)
