-- ===== src/Webhook/Delivery.antt =====
-- How often the rules of an event are started, and the states that an event goes through
-- (service/webhook.go).
use git_sync_core.Prelude.{
  ℕ, ◌+◌, ◌==◌, ◌≡◌, refl, true, String, Option, none, some, List, [], ◌∷◌, if◌then◌else◌, ◌=ˢ◌,
  arith, eq_iff, contains, has_prefix, Bool-cases, Option-cases, inl, inr, ==_iff,
}
use git_sync_core.Webhook.Entities.{WebhookEvent}
use git_sync_core.Webhook.Events.{
  Inbox, has_event_id, Insertion, inserts, fails, unique_failed, create_event, is_duplicate_key_err,
  insert_and_start, received_event, Answers, Checked, refused, seen, fresh, check, after_check,
  receive_webhook, update_status, find_by_id, mark_processing, mark_processed, process_event,
}

unfoldable pub times_in : String → List String → ℕ
times_in id [] = 0
times_in id (x ∷ xs) = (if x =ˢ id then 1 else 0) + times_in id xs

-- The second steps of any number of requests, in the order in which they come to the table.
unfoldable pub deliver : List (Insertion × Checked) → Inbox → Inbox
deliver [] s = s
deliver ((i, c) ∷ rest) s = deliver rest (after_check i c s).1

abbrev Once : Inbox → Type 0
Once s = (id : String) → times_in id s.spawned ≡ (if has_event_id id s.events then 1 else 0)

unique-is_duplicate : is_duplicate_key_err (some unique_failed) ≡ true
unfolding is_duplicate_key_err unique_failed contains has_prefix
unique-is_duplicate = refl

after_check-Once : (i : Insertion) (c : Checked) (s : Inbox) → Once s → Once (after_check i c s).1
unfolding after_check insert_and_start create_event times_in has_event_id
after_check-Once i (refused e) s h id = h id
after_check-Once i seen s h id = h id
after_check-Once (fails e) (fresh event) s h id = h id
after_check-Once inserts (fresh event) s h id =
    ground (arith, h id, h event.event_id, eq_iff event.event_id id)

deliver-Once : (l : List (Insertion × Checked)) (s : Inbox) → Once s → Once (deliver l s)
unfolding deliver
deliver-Once [] s h = h
deliver-Once ((i, c) ∷ rest) s h =
    deliver-Once rest (after_check i c s).1 (after_check-Once i c s h)

-- However many requests bring the same event, at the same time or one after the other, and
-- whichever insertions fail: the rules are started exactly once for an event that has come into the
-- table, and never for one that has not.
pub started_exactly_once :
    (requests : List (Insertion × Checked)) (id : String)
    → times_in id (deliver requests (record { events = []; spawned = [] })).spawned ≡ (
        if has_event_id id (deliver requests (record { events = []; spawned = [] })).events
        then 1
        else 0)
unfolding times_in has_event_id
started_exactly_once requests id =
    deliver-Once requests (record { events = []; spawned = [] }) (λ i. refl) id

-- The answers under which a request comes to the search and finds no error there.
abbrev pub Clean : Answers → Type 0
Clean a =
    (a.repo_error ≡ none)
    × (a.signature_error ≡ none)
    × (a.parse_error ≡ none)
    × (a.find_error ≡ none)

check-Clean :
    (repo_key : String) (a : Answers) (s : Inbox)
    → Clean a
    → check true repo_key a s
      ≡ (if has_event_id a.event.id s.events then seen else fresh (received_event repo_key a.event))
unfolding check
check-Clean repo_key a s (p, q, r, t) = ground (arith, p, q, r, t)

-- A valid request that the table takes is answered without an error and leaves its event there;
-- when it comes again it is answered without an error and changes nothing, even where the
-- database would fail.
pub receive_again :
    (repo_key : String) (a : Answers) (s : Inbox) (i : Insertion)
    → Clean a
    → let first = receive_webhook true repo_key a inserts s in
      (first.0 ≡ none)
      × (has_event_id a.event.id first.1.events ≡ true)
      × (receive_webhook true repo_key a i first.1 ≡ (none, first.1))
unfolding receive_webhook after_check insert_and_start create_event has_event_id received_event
receive_again repo_key a s i clean =
    let first = receive_webhook true repo_key a inserts s in
    elim (Bool-cases (has_event_id a.event.id s.events)) [
      | inl e ↦
          ground (arith, check-Clean repo_key a s clean, check-Clean repo_key a first.1 clean, e)
      | inr e ↦ ground (
        arith,
        check-Clean repo_key a s clean,
        check-Clean repo_key a first.1 clean,
        e,
        eq_iff a.event.id a.event.id,
      )
    ]

find-update_status :
    (id j : ℕ) (status : String) (at : Option ℕ) (es : List WebhookEvent)
    → find_by_id j (update_status id status at es) ≡ (
        if id == j
        then elim (find_by_id j es) [
          | none ↦ none
          | some e ↦ some (record e { status = status; processed_at = at })
        ]
        else find_by_id j es)
unfolding update_status find_by_id
find-update_status id j status at [] = ground arith
find-update_status id j status at (e ∷ es) = ground (arith, find-update_status id j status at es)

-- An event whose rules have been applied, at its first delivery or at a retry, is `processed` from
-- then on, whatever its state was and whatever the rules did; no other event is changed.
pub process_event-find :
    (now : ℕ) (event : WebhookEvent) (j : ℕ) (es : List WebhookEvent)
    → find_by_id j (process_event now event es) ≡ (
        if event.id == j
        then elim (find_by_id j es) [
          | none ↦ none
          | some e ↦ some (record e { status = "processed"; processed_at = some now })
        ]
        else find_by_id j es)
unfolding process_event mark_processed mark_processing
process_event-find now event j es = elim (Option-cases (find_by_id event.id es)) [
  | inl e ↦
      ground (arith, e, ==_iff event.id j, find-update_status event.id j "processed" (some now) es)
  | inr (x, e) ↦ ground (
    arith,
    e,
    ==_iff event.id j,
    find-update_status event.id j "processed" (some now)
        (update_status event.id "processing" none es),
    find-update_status event.id j "processing" none es,
  )
]
