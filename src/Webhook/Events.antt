-- ===== src/Webhook/Events.antt =====
-- `ReceiveWebhook`, `applyRules` and `RetryEvent` of service/webhook.go over the table of events of
-- dao/webhook_event_dao.go, whose column `event_id` has a unique index. Requests may come at the same
-- time: what a request does up to the search, and what it does from the insertion on, are two steps.
use git_sync_core.Prelude.{
  ℕ, ◌==◌, Bool, true, false, ◌||◌, String, Option, none, some, List, [], ◌∷◌, any, if◌then◌else◌,
  ◌=ˢ◌, codes, contains,
}
use git_sync_core.Executor.Errors.{GoError, new_error, wrap}
use git_sync_core.Webhook.Entities.{WebhookEvent}

-- `isDuplicateKeyErr`
unfoldable pub is_duplicate_key_err : Option GoError → Bool
is_duplicate_key_err none = false
is_duplicate_key_err (some e) =
    contains e.message (codes "Duplicate entry")
    || (contains e.message (codes "UNIQUE constraint failed")
        || contains e.message (codes "duplicate key"))

-- The table of events, and the identifiers of the events whose rules a goroutine was started for.
pub record Inbox : Type 0 where
  pub events : List WebhookEvent
  pub spawned : List String

unfoldable pub has_event_id : String → List WebhookEvent → Bool
has_event_id id es = any (λ e. e.event_id =ˢ id) es

-- What becomes of an insertion beside the unique index: the database may fail.
pub data Insertion : Type 0 where
  inserts : Insertion
  fails : GoError → Insertion

unfoldable pub unique_failed : GoError
unique_failed = new_error (codes "UNIQUE constraint failed: webhook_events.event_id")

-- `Create`
unfoldable pub create_event :
    Insertion → WebhookEvent → List WebhookEvent → Option GoError × List WebhookEvent
create_event (fails e) event es = (some e, es)
create_event inserts event es =
    if has_event_id event.event_id es then (some unique_failed, es) else (none, event ∷ es)

-- The part of `ReceiveWebhook` from the insertion on.
unfoldable pub insert_and_start : Insertion → WebhookEvent → Inbox → Option GoError × Inbox
insert_and_start i event s =
    let (err, es) = create_event i event s.events in
    elim err [
      | none ↦ (none, record { events = es; spawned = event.event_id ∷ s.spawned })
      | some e ↦ (if is_duplicate_key_err (some e) then none else some e, record s { events = es })
    ]

-- The event as the SDK has parsed it.
pub record ParsedEvent : Type 0 where
  pub id : String
  pub kind : String
  pub source : String
  pub actor : Option String
  pub branch : String
  pub commit_sha : String
  pub raw_payload : List ℕ

abbrev name_or_empty : Option String → String
name_or_empty none = ""
name_or_empty (some n) = n

-- The row that `ReceiveWebhook` inserts.
unfoldable pub received_event : String → ParsedEvent → WebhookEvent
received_event repo_key e = record {
  id = 0;
  event_id = e.id;
  repo_key = repo_key;
  event_type = e.kind;
  source = e.source;
  actor_name = name_or_empty e.actor;
  branch = e.branch;
  commit_sha = e.commit_sha;
  payload = e.raw_payload;
  status = "received";
  error_message = "";
  processed_at = none;
}

-- The answers of the repository service, the SDK's two calls and the search, in their order.
pub record Answers : Type 0 where
  pub repo_error : Option GoError
  pub signature_error : Option GoError
  pub parse_error : Option GoError
  pub find_error : Option GoError
  pub event : ParsedEvent

-- The first step of `ReceiveWebhook`: the error or the answer that ends it, or the row to insert.
pub data Checked : Type 0 where
  refused : GoError → Checked
  seen : Checked
  fresh : WebhookEvent → Checked

unfoldable pub check : (payload : Bool) → String → Answers → Inbox → Checked
check false repo_key a s = refused (new_error (codes "webhook payload is nil"))
check true repo_key a s = elim a.repo_error [
  | some e ↦ refused e
  | none ↦ elim a.signature_error [
    | some e ↦ refused (wrap (codes "invalid webhook signature") e)
    | none ↦ elim a.parse_error [
      | some e ↦ refused (wrap (codes "parse webhook event failed") e)
      | none ↦ elim a.find_error [
        | some e ↦ refused e
        | none ↦
            if has_event_id a.event.id s.events
            then seen
            else fresh (received_event repo_key a.event)
      ]
    ]
  ]
]

unfoldable pub after_check : Insertion → Checked → Inbox → Option GoError × Inbox
after_check i (refused e) s = (some e, s)
after_check i seen s = (none, s)
after_check i (fresh event) s = insert_and_start i event s

-- `ReceiveWebhook` with no other request between its steps.
unfoldable pub receive_webhook :
    (payload : Bool) → String → Answers → Insertion → Inbox → Option GoError × Inbox
receive_webhook payload repo_key a i s = after_check i (check payload repo_key a s) s

-- `UpdateStatus`
unfoldable pub update_status : ℕ → String → Option ℕ → List WebhookEvent → List WebhookEvent
update_status id status at [] = []
update_status id status at (e ∷ es) =
    (if e.id == id then record e { status = status; processed_at = at } else e)
    ∷ update_status id status at es

unfoldable pub find_by_id : ℕ → List WebhookEvent → Option WebhookEvent
find_by_id id [] = none
find_by_id id (e ∷ es) = if e.id == id then some e else find_by_id id es

-- `MarkEventProcessing`: the row is changed, and the event as it was found is returned with its
-- new state.
unfoldable pub mark_processing : ℕ → List WebhookEvent → Option WebhookEvent × List WebhookEvent
mark_processing id es = elim (find_by_id id es) [
  | none ↦ (none, es)
  | some e ↦ (some (record e { status = "processing" }), update_status id "processing" none es)
]

-- `MarkEventProcessed`
unfoldable pub mark_processed : ℕ → ℕ → List WebhookEvent → List WebhookEvent
mark_processed now id es = update_status id "processed" (some now) es

-- `applyRules`, whose rules may do anything that leaves the events alone: that an event cannot be
-- marked is only logged, and the deferred mark is made whatever the rules do.
unfoldable pub process_event : (now : ℕ) → WebhookEvent → List WebhookEvent → List WebhookEvent
process_event now event es = mark_processed now event.id (mark_processing event.id es).1

-- `RetryEvent`: the event that is processed again, or none where it is not found.
unfoldable pub retry_event : ℕ → List WebhookEvent → Option WebhookEvent × List WebhookEvent
retry_event id es = mark_processing id es
