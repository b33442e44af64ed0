-- ===== src/CanUpdate/Sent.antt =====
-- What a run on the bus has sent when it ends well.
use miri_tool_v.Base.{
  ℕ, zero, suc, Bool, true, false, ◌≡◌, refl, sym, ap, ◌∙◌, List, [], ◌∷◌, ◌++◌, append-nil,
  append_assoc, Option, none, some, length, Bytes, if◌then◌else◌,
}
use miri_tool_v.CanUpdate.Bus.{
  CanMessage, Driver, Bus, Run, ok, fail, stuck, fault, ◌>>=◌, incan_tx, await, wait_for,
  response_within, tms_wait_response, is_response,
}

-- If the run ends with `ok`, it has sent the messages `ms` since state `s`, and no others.
abbrev pub Sent : List CanMessage → Bus → Run → Type 0
Sent ms s (ok t) = t.sent ≡ s.sent ++ ms
Sent ms s _ = Unit

pub Sent-bind :
    (ms ns : List CanMessage) (s : Bus) (m : Run) (f : Bus → Run)
    → Sent ms s m
    → ((t : Bus) → Sent ns t (f t))
    → Sent (ms ++ ns) s (m >>= f)
Sent-bind ms ns s (ok t) f h k = shift (f t) (k t)
  where
    shift : (r : Run) → Sent ns t r → Sent (ms ++ ns) s r
    shift (ok u) e = e ∙ ap (λ l. l ++ ns) h ∙ append_assoc s.sent ms ns
    shift (fail u) e = tt
    shift (stuck u) e = tt
    shift fault e = tt
Sent-bind ms ns s (fail t) f h k = tt
Sent-bind ms ns s (stuck t) f h k = tt
Sent-bind ms ns s fault f h k = tt

pub Sent-ok : (s : Bus) → Sent [] s (ok s)
Sent-ok s = sym (append-nil s.sent)

abbrev pub message : ℕ → Bytes → CanMessage
message id bytes = record { identifier = id; bytes = bytes }

pub incan_tx-Sent :
    (driver : Driver) (id : ℕ) (bytes : Bytes) (s : Bus)
    → Sent (message id bytes ∷ []) s (incan_tx driver id bytes s)
unfolding incan_tx
incan_tx-Sent driver id bytes s = go (driver.tx_ok (length s.sent))
  where
    go :
        (b : Bool)
        → Sent
            (message id bytes ∷ [])
            s
            (if b then ok (record s { sent = s.sent ++ message id bytes ∷ [] }) else fail s)
    go true = refl
    go false = tt

pub wait_for-Sent :
    (test : CanMessage → Bool) (next : CanMessage → Bus → Run) (ms : List CanMessage) (s : Bus)
    → ((m : CanMessage) (inbox : List (Option CanMessage))
        → Sent ms s (next m (record s { inbox = inbox })))
    → Sent ms s (wait_for test next s)
unfolding wait_for
wait_for-Sent test next ms s h = go (await test s.inbox)
  where
    go :
        (o : Option (CanMessage × List (Option CanMessage)))
        → Sent ms s (elim o [
          | none ↦ stuck (record s { inbox = [] })
          | some (m, inbox) ↦ next m (record s { inbox = inbox })
        ])
    go none = tt
    go (some (m, inbox)) = h m inbox

response_within-Sent :
    (sid target_id rounds : ℕ) (s : Bus) (inbox : List (Option CanMessage))
    → Sent [] s (response_within sid target_id rounds s inbox)
unfolding response_within
response_within-Sent sid target_id zero s inbox = tt
response_within-Sent sid target_id (suc rounds) s [] = tt
response_within-Sent sid target_id (suc rounds) s (none ∷ inbox) =
    response_within-Sent sid target_id rounds s inbox
response_within-Sent sid target_id (suc rounds) s (some m ∷ inbox) =
    go (is_response sid target_id m) (response_within-Sent sid target_id rounds s inbox)
  where
    go :
        (b : Bool)
        → Sent [] s (response_within sid target_id rounds s inbox)
        → Sent [] s (
            if b
            then ok (record s { inbox = inbox })
            else response_within sid target_id rounds s inbox)
    go true ih = sym (append-nil s.sent)
    go false ih = ih

pub tms_wait_response-Sent :
    (sid target_id timeout_ms : ℕ) (s : Bus)
    → Sent [] s (tms_wait_response sid target_id timeout_ms s)
unfolding tms_wait_response
tms_wait_response-Sent sid target_id timeout_ms s = response_within-Sent sid target_id _ s s.inbox
