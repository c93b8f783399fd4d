-- ===== src/Alerts/Dedupe.antt =====
-- One message for one finding: handleOne and process of worker/src/services/alerts.ts over the unique
-- dedupe key of alert_events.
use flightnotify.Common.Text.{Text, same_text, same_text_refl}
use flightnotify.Time.{Moment}
use flightnotify.Repo.Alerts.{
  AlertEventRow, AlertStore, DeliveryState, suppressed_duplicate, suppressed_cooldown,
  not_configured, telegram_not_configured, Detail, first_where, set_where, find_alert_by_dedupe_key,
  insert_alert_event,
}
use flightnotify.Repo.Alerts.Claims.{complete_row, complete_alert_claim}
use flightnotify.Alerts.{
  SendOutcome, answered, thrown, World, HandleArgs, outcome_fields, deliver_claimed, new_event,
  cooldown_reason, has_chat,
}
use flightnotify.Alerts.Handle.{unsent_fields, end_unsent, send_new, handle_new, handle_one}
use flightnotify.Common.{
  ℕ, suc, ◌≡◌, refl, ◌∙◌, ◌⊎◌, inl, inr, Bool, true, false, not, ◌||◌, arith, none, some, List, [],
  ◌∷◌, ◌++◌, Bool-cases, Option-cases,
}

-- Is there an event with the key?
unfoldable pub is_found : Text → List AlertEventRow → Bool
is_found key [] = false
is_found key (r ∷ rows) = same_text r.dedupe_key key || is_found key rows

is_found-first_where :
    (key : Text) (rows : List AlertEventRow)
    → ((first_where (λ r. same_text r.dedupe_key key) rows ≡ none) × (is_found key rows ≡ false))
      ⊎ ((r : AlertEventRow) × (first_where (λ r. same_text r.dedupe_key key) rows ≡ some r)
          × (is_found key rows ≡ true))
unfolding first_where is_found
is_found-first_where key [] = inl (refl, refl)
is_found-first_where key (r ∷ rows) = elim (Bool-cases (same_text r.dedupe_key key)) [
  | inl same ↦ rw same (inr (r, refl, refl))
  | inr other ↦ rw other (is_found-first_where key rows)
]

is_found-set_where :
    (key : Text) (chosen : AlertEventRow → Bool) (set_fields : AlertEventRow → AlertEventRow)
    (rows : List AlertEventRow)
    → ((r : AlertEventRow) → (set_fields r).dedupe_key ≡ r.dedupe_key)
    → is_found key (set_where chosen set_fields rows) ≡ is_found key rows
unfolding is_found set_where
is_found-set_where key chosen set_fields [] keeps = refl
is_found-set_where key chosen set_fields (r ∷ rows) keeps = elim (Bool-cases (chosen r)) [
  | inl taken ↦ rw (taken, keeps r, is_found-set_where key chosen set_fields rows keeps) refl
  | inr other ↦ rw (other, is_found-set_where key chosen set_fields rows keeps) refl
]

is_found-append :
    (rows : List AlertEventRow) (r : AlertEventRow) → is_found r.dedupe_key (rows ++ r ∷ []) ≡ true
unfolding is_found
is_found-append [] r = rw (same_text_refl r.dedupe_key) refl
is_found-append (q ∷ rows) r = let ih = is_found-append rows r in ground arith

outcome_fields-key :
    (outcome : SendOutcome) (n : ℕ) (at : Moment) (r : AlertEventRow)
    → (outcome_fields outcome n at r).dedupe_key ≡ r.dedupe_key
unfolding outcome_fields
outcome_fields-key (thrown label) n at r = refl
outcome_fields-key (answered result) n at r = ground arith

complete_alert_claim-found :
    (key : Text) (id : ℕ) (owner : Text) (set_fields : AlertEventRow → AlertEventRow)
    (s : AlertStore)
    → ((r : AlertEventRow) → (set_fields r).dedupe_key ≡ r.dedupe_key)
    → is_found key (complete_alert_claim id owner set_fields s).1.events ≡ is_found key s.events
unfolding complete_alert_claim complete_row
complete_alert_claim-found key id owner set_fields s keeps =
    is_found-set_where key _ (complete_row set_fields) s.events keeps

-- The INSERT either finds the key and changes nothing, or adds the row.
insert_alert_event-cases :
    (fields : AlertEventRow) (s : AlertStore)
    → ((is_found fields.dedupe_key s.events ≡ true)
        × ((insert_alert_event fields s).0 ≡ none)
        × ((insert_alert_event fields s).1 ≡ s))
      ⊎ ((is_found fields.dedupe_key s.events ≡ false)
          × ((insert_alert_event fields s).0 ≡ some (suc s.last_id))
          × (is_found fields.dedupe_key (insert_alert_event fields s).1.events ≡ true))
unfolding insert_alert_event find_alert_by_dedupe_key
insert_alert_event-cases fields s = elim (is_found-first_where fields.dedupe_key s.events) [
  | inl (missing, e) ↦
      rw (missing, insert_alert_event)
        (inr (e, refl, is_found-append s.events (record fields { id = suc s.last_id })))
  | inr (r, found, e) ↦ rw (found, insert_alert_event) (inl (e, refl, refl))
]

-- Nothing that handleOne does after the INSERT takes a key away, and it hands over at most its message.
abbrev Kept : Type 0 → HandleArgs → AlertStore → List Text → Text → World → Type 0
Kept MaySend args s outbox key w =
    (is_found key w.store.events ≡ is_found key s.events)
    × ((w.outbox ≡ outbox) ⊎ (MaySend × (w.outbox ≡ outbox ++ args.message ∷ [])))

end_unsent-Kept :
    (MaySend : Type 0) (args : HandleArgs) (id : ℕ) (state : DeliveryState) (detail : Detail)
    (s : AlertStore) (outbox : List Text) (key : Text)
    → Kept MaySend args s outbox key (end_unsent args id state detail s outbox).1
unfolding end_unsent unsent_fields
end_unsent-Kept MaySend args id state detail s outbox key = (
  complete_alert_claim-found key id args.owner (unsent_fields state detail) s (λ r. refl),
  inl refl,
)

send_new-Kept :
    (MaySend : Type 0) (send : Text → SendOutcome) (args : HandleArgs) (id : ℕ) (s : AlertStore)
    (outbox : List Text) (key : Text)
    → MaySend
    → Kept MaySend args s outbox key (send_new send args id s outbox).1
unfolding send_new deliver_claimed
send_new-Kept MaySend send args id s outbox key may = (
  complete_alert_claim-found key id args.owner
      (outcome_fields (send args.message) 1 args.answered_at) s
      (outcome_fields-key (send args.message) 1 args.answered_at),
  inr (may, refl),
)

handle_new-Kept :
    (MaySend : Type 0) (send : Text → SendOutcome) (args : HandleArgs) (id : ℕ) (s : AlertStore)
    (outbox : List Text) (key : Text)
    → (args.suppress_reason ≡ none → MaySend)
    → Kept MaySend args s outbox key (handle_new send args id s outbox).1
unfolding handle_new
handle_new-Kept MaySend send args id s outbox key may = elim (Option-cases args.suppress_reason) [
  | inr (reason, e) ↦
      rw (e, handle_new) (end_unsent-Kept MaySend args id suppressed_duplicate reason s outbox key)
  | inl e ↦
      let allowed = may e in
      elim (Option-cases (
        cooldown_reason args.tracker_id args.cooldown_minutes args.alert_type id args.checked_at
          s)) [
            | inr (cooldown, c) ↦
                rw (e, c, handle_new)
                  (end_unsent-Kept MaySend args id suppressed_cooldown cooldown s outbox key)
            | inl c ↦ elim (Bool-cases (not args.is_configured || not (has_chat args.chat_id))) [
              | inl silent ↦
                  rw (e, c, silent, handle_new)
                    (end_unsent-Kept MaySend args id not_configured telegram_not_configured s outbox
                      key)
              | inr ready ↦
                  rw (e, c, ready, handle_new)
                    (send_new-Kept MaySend send args id s outbox key allowed)
            ]
          ]
]

-- What handleOne leaves behind: its key is recorded, no key is lost, a key that was there already
-- changes nothing, and at most its own message was handed over, and only where it was not to be suppressed.
pub record Handled (send : Text → SendOutcome) (args : HandleArgs) (w : World) : Type 0 where
  pub recorded : is_found args.dedupe_key (handle_one send args w).1.store.events ≡ true
  pub repeated :
      is_found args.dedupe_key w.store.events ≡ true
      → ((handle_one send args w).1 ≡ w) × ((handle_one send args w).0.state ≡ suppressed_duplicate)
  pub said :
      ((handle_one send args w).1.outbox ≡ w.outbox)
      ⊎ ((args.suppress_reason ≡ none)
          × ((handle_one send args w).1.outbox ≡ w.outbox ++ args.message ∷ []))

pub handle_one-Handled :
    (send : Text → SendOutcome) (args : HandleArgs) (w : World) → Handled send args w
unfolding handle_one new_event
handle_one-Handled send args w = elim (insert_alert_event-cases (new_event args) w.store) [
  | inl (found, e, same) ↦ record {
    recorded = rw (e, same, handle_one) found;
    repeated = λ h. rw (e, same, handle_one) (refl, refl);
    said = rw (e, handle_one) (inl refl);
  }
  | inr (missing, e, found) ↦
      let kept =
        handle_new-Kept (args.suppress_reason ≡ none) send args (suc w.store.last_id)
          (insert_alert_event (new_event args) w.store).1 w.outbox args.dedupe_key (λ h. h) in
      record {
        recorded = rw (e, handle_one) (kept.0 ∙ found);
        repeated = λ h. cc;
        said = rw (e, handle_one) kept.1;
      }
]
