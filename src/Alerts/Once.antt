-- ===== src/Alerts/Once.antt =====
-- What handleOne and process of worker/src/services/alerts.ts do to one finding and to one observation.
use flightnotify.Common.Text.{Text}
use flightnotify.Evaluation.{
  AlertType, threshold, new_low, approaching, test, AlertDecision, Reason, EvaluateArgs, Evaluation,
  evaluate, conclude, to_send, threshold_decision, new_low_decision,
}
use flightnotify.Evaluation.Alerts.{evaluate-Evaluated}
use flightnotify.Repo.Alerts.{suppressed_duplicate, Detail, consolidated}
use flightnotify.Alerts.{SendOutcome, World, HandleArgs}
use flightnotify.Alerts.Handle.{
  handle_one, process, handle_each, includes, remove_first, is_type_threshold, is_type_new_low,
}
use flightnotify.Alerts.Dedupe.{handle_one-Handled}
use flightnotify.Common.{
  ◌≡◌, refl, ◌⊎◌, inl, inr, Bool, arith, Option, none, some, List, [], ◌∷◌, ◌++◌, ok, ℤ, Bool-cases,
}

-- The same finding handled again, by whoever and after whatever answer, sends nothing, changes nothing and
-- is reported as a duplicate.
pub handle_one-again :
    (send later : Text → SendOutcome) (a b : HandleArgs) (w : World)
    → b.dedupe_key ≡ a.dedupe_key
    → let w₁ = (handle_one send a w).1 in
      ((handle_one later b w₁).1 ≡ w₁) × ((handle_one later b w₁).0.state ≡ suppressed_duplicate)
handle_one-again send later a b w same =
    let first = handle_one-Handled send a w in
    let second = handle_one-Handled later b (handle_one send a w).1 in
    second.repeated (rw same first.recorded)

-- One more message at most.
unfoldable pub IsOneMore : List Text → List Text → Type 0
IsOneMore before after = (after ≡ before) ⊎ ((m : Text) × (after ≡ before ++ m ∷ []))

data IsSendable : List AlertType → Type 0 where
  nothing : IsSendable []
  one : (t : AlertType) → IsSendable (t ∷ [])
  both : IsSendable (threshold ∷ new_low ∷ [])

to_send-IsSendable :
    (d e : AlertDecision)
    → d.alert_type ≡ threshold
    → e.alert_type ≡ new_low
    → IsSendable (to_send (d ∷ e ∷ []))
unfolding to_send
to_send-IsSendable d e dt et = elim (Bool-cases d.should_alert) [
  | inl d_yes ↦ elim (Bool-cases e.should_alert) [
    | inl e_yes ↦ rw (d_yes, e_yes, dt, et) both
    | inr e_no ↦ rw (d_yes, e_no) (one d.alert_type)
  ]
  | inr d_no ↦ elim (Bool-cases e.should_alert) [
    | inl e_yes ↦ rw (d_no, e_yes) (one e.alert_type)
    | inr e_no ↦ rw (d_no, e_no) nothing
  ]
]

threshold_decision-type :
    (args : EvaluateArgs) (c : ℤ) (baseline meets lower : Bool) (blocked : Option Reason)
    → (threshold_decision args c baseline meets lower blocked).alert_type ≡ threshold
unfolding threshold_decision
threshold_decision-type args c baseline meets lower blocked = ground arith

new_low_decision-type :
    (args : EvaluateArgs) (c : ℤ) (baseline lower : Bool) (blocked : Option Reason)
    → (new_low_decision args c baseline lower blocked).alert_type ≡ new_low
unfolding new_low_decision
new_low_decision-type args c baseline lower blocked = ground arith

evaluate-IsSendable :
    (args : EvaluateArgs) (e : Evaluation) → evaluate args ≡ ok e → IsSendable e.alerts_to_send
unfolding conclude
evaluate-IsSendable args e h =
    let v = evaluate-Evaluated args e h in
    rw (← v.concludes) (
      to_send-IsSendable _ _ (threshold_decision-type args _ _ _ _ _)
        (new_low_decision-type args _ _ _ _))

handle_one-IsOneMore :
    (send : Text → SendOutcome) (a : HandleArgs) (w : World)
    → IsOneMore w.outbox (handle_one send a w).1.outbox
unfolding IsOneMore
handle_one-IsOneMore send a w = elim (handle_one-Handled send a w).said [
  | inl same ↦ inl same
  | inr (may, more) ↦ inr (a.message, more)
]

handle_one-suppressed :
    (send : Text → SendOutcome) (a : HandleArgs) (w : World) (reason : Detail)
    → a.suppress_reason ≡ some reason
    → (handle_one send a w).1.outbox ≡ w.outbox
handle_one-suppressed send a w reason e = elim (handle_one-Handled send a w).said [
  | inl same ↦ same
  | inr (may, more) ↦ cc
]

process-IsOneMore :
    (send : Text → SendOutcome) (args : AlertType → HandleArgs) (types : List AlertType) (w : World)
    → IsSendable types
    → IsOneMore w.outbox (process send args types w).1.outbox
unfolding process handle_each includes remove_first is_type_threshold is_type_new_low IsOneMore
process-IsOneMore send args [] w nothing = inl refl
process-IsOneMore send args types w (one threshold) = handle_one-IsOneMore send _ w
process-IsOneMore send args types w (one new_low) = handle_one-IsOneMore send _ w
process-IsOneMore send args types w (one approaching) = handle_one-IsOneMore send _ w
process-IsOneMore send args types w (one test) = handle_one-IsOneMore send _ w
process-IsOneMore send args types w both =
    rw
      (handle_one-suppressed send
        (record (args threshold) { alert_type = threshold; suppress_reason = some consolidated })
        (handle_one send (record (args new_low) { alert_type = new_low; suppress_reason = none })
          w).1
        consolidated refl)
      (handle_one-IsOneMore send _ w)

-- One observation produces at most one message: whatever evaluate has to send, process hands over one
-- message or none.
pub process-one_message :
    (send : Text → SendOutcome) (prepare : AlertType → HandleArgs) (args : EvaluateArgs)
    (e : Evaluation) (w : World)
    → evaluate args ≡ ok e
    → IsOneMore w.outbox (process send prepare e.alerts_to_send w).1.outbox
process-one_message send prepare args e w h =
    process-IsOneMore send prepare e.alerts_to_send w (evaluate-IsSendable args e h)
