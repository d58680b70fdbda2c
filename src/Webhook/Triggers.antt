-- ===== src/Webhook/Triggers.antt =====
-- The minimal interval between two starts of a task by webhook rules (service/webhook_service.go) and the
-- cleaning of the map of trigger times (service/cleanup.go).
use git_sync_core.Prelude.{
  ℕ, zero, suc, ◌+◌, ◌-◌, ◌≤◌, ◌<◌, ◌≡◌, refl, leb, Bool, true, false, ◌&&◌, String, Option, none,
  some, List, [], ◌∷◌, if◌then◌else◌, ◌=ˢ◌, Table, lookup, lookup-insert, arith, eq_iff, All, ◌⊎◌,
  inl, inr, Bool-cases, Option-cases,
}
use git_sync_core.Prelude.Int.{ℤ, pos, negsuc}
use git_sync_core.Webhook.Entities.{WebhookRule, WebhookEvent, get_task_keys}
use git_sync_core.Webhook.Rules.{
  interval_ns, trigger_key, Firing, forget_old, Triggers, fire, apply_task, apply_tasks, applies,
  apply_rules, is_positive,
}

-- The time of the latest start under a key.
unfoldable pub last_at : String → List Firing → Option ℕ
last_at k [] = none
last_at k (f ∷ fs) = if f.key =ˢ k then some f.at else last_at k fs

abbrev pub far : ℕ → ℕ → Option ℕ → Bool
far m time none = true
far m time (some t) = leb (t + m) time

-- Any two starts under the key that follow each other are `m` nanoseconds apart.
unfoldable pub spaced : ℕ → String → List Firing → Bool
unfolding last_at
spaced m k [] = true
spaced m k (f ∷ fs) = (if f.key =ˢ k then far m f.at (last_at k fs) else true) && spaced m k fs

lookup-forget_old :
    (now : ℕ) (k : String) (t : ℕ) (m : Table ℕ)
    → lookup k m ≡ some t
    → (lookup k (forget_old now m) ≡ some t) ⊎ (3600000000000 < now - t)
unfolding lookup forget_old
lookup-forget_old now k t [] h = cc
lookup-forget_old now k t ((j, u) ∷ m) h = elim (Bool-cases (j =ˢ k)) [
  | inl e ↦ ground arith
  | inr e ↦ elim (lookup-forget_old now k t m (ground arith)) [
    | inl kept ↦ inl (ground arith)
    | inr old ↦ inr old
  ]
]

forget_old-none :
    (now : ℕ) (k : String) (m : Table ℕ) → lookup k m ≡ none → lookup k (forget_old now m) ≡ none
unfolding lookup forget_old
forget_old-none now k [] h = refl
forget_old-none now k ((j, u) ∷ m) h = ground (arith, forget_old-none now k m)

interval-positive : (x : ℤ) → 0 < interval_ns x → is_positive x ≡ true
unfolding interval_ns
interval-positive (pos zero) h = absurd (omega arith)
interval-positive (pos (suc n)) h = refl
interval-positive (negsuc n) h = absurd (omega arith)

module _ (matches : String → String → Bool) (World : Type 0) (now : World → ℕ)
    (run_task : String → Option ℕ → World → World)
    (later : (task : String) (event : Option ℕ) (w : World) → now w ≤ now (run_task task event w))
    (k : String) (m : ℕ) (positive : 0 < m) (short : m ≤ 3600000000000) where
  abbrev State : Type 0
  State = Triggers World now run_task

  -- A rule whose interval for the key is at least `m`.
  abbrev Guarded : WebhookRule → Type 0
  Guarded r = (task : String) → trigger_key r task ≡ k → m ≤ interval_ns r.min_interval

  -- The latest start is in the map, or it is long enough ago.
  record Kept (s : State) : Type 0 where
    pub apart : spaced m k s.fired ≡ true
    pub past : (t : ℕ) → last_at k s.fired ≡ some t → t ≤ now s.world
    pub known :
        (t : ℕ) → last_at k s.fired ≡ some t → (lookup k s.times ≡ some t) ⊎ (t + m ≤ now s.world)

  module _ (r : WebhookRule) (event : Option ℕ) (task : String) (s : State) (g : Guarded r)
      (h : Kept s) where
    abbrev after : State
    after = apply_task World now run_task r event task s

    apply_task-apart : spaced m k after.fired ≡ true
    unfolding apply_task fire spaced
    apply_task-apart = elim (Option-cases (last_at k s.fired)) [
      | inl e ↦ ground (arith, h.apart)
      | inr (t, e) ↦ ground (
        arith,
        h.apart,
        h.past t,
        h.known t,
        g task,
        eq_iff (trigger_key r task) k,
        interval-positive r.min_interval,
      )
    ]

    apply_task-past : (t : ℕ) → last_at k after.fired ≡ some t → t ≤ now after.world
    unfolding apply_task fire last_at
    apply_task-past t e = ground (arith, h.past t, later task event s.world)

    apply_task-known :
        (t : ℕ)
        → last_at k after.fired ≡ some t
        → (lookup k after.times ≡ some t) ⊎ (t + m ≤ now after.world)
    unfolding apply_task fire last_at
    apply_task-known t e = ground (
      arith,
      h.known t,
      later task event s.world,
      g task,
      eq_iff (trigger_key r task) k,
      interval-positive r.min_interval,
      lookup-insert (trigger_key r task) k (now s.world) s.times,
    )

    apply_task-Kept : Kept after
    apply_task-Kept = record {
      apart = apply_task-apart;
      past = apply_task-past;
      known = apply_task-known;
    }

  apply_tasks-Kept :
      (r : WebhookRule) (event : Option ℕ) (tasks : List String) (s : State)
      → Guarded r
      → Kept s
      → Kept (apply_tasks World now run_task r event tasks s)
  unfolding apply_tasks
  apply_tasks-Kept r event [] s g h = h
  apply_tasks-Kept r event (x ∷ xs) s g h =
      apply_tasks-Kept r event xs (apply_task World now run_task r event x s) g
        (apply_task-Kept r event x s g h)

  apply_rules-Kept :
      (rs : List WebhookRule) (event : WebhookEvent) (s : State)
      → All Guarded rs
      → Kept s
      → Kept (apply_rules World now run_task matches rs event s)
  unfolding apply_rules
  apply_rules-Kept [] event s g h = h
  apply_rules-Kept (r ∷ rs) event s (g, gs) h =
      elim (Bool-cases (applies World now run_task matches r event)) [
        | inl e ↦
            rw (e, apply_rules)
              (apply_rules-Kept rs event
                (apply_tasks World now run_task r (some event.id) (get_task_keys r) s) gs
                (apply_tasks-Kept r (some event.id) (get_task_keys r) s g h))
        | inr e ↦ rw (e, apply_rules) (apply_rules-Kept rs event s gs h)
      ]

  forget_old-Kept :
      (s : State) → Kept s → Kept (record s { times = forget_old (now s.world) s.times })
  forget_old-Kept s h = record {
    apart = h.apart;
    past = h.past;
    known = λ t e. elim (h.known t e) [
      | inl kept ↦ elim (lookup-forget_old (now s.world) k t s.times kept) [
        | inl still ↦ inl still
        | inr old ↦ inr (omega arith)
      ]
      | inr old ↦ inr old
    ];
  }

  waited-Kept :
      (s : State) (w : World) → now s.world ≤ now w → Kept s → Kept (record s { world = w })
  waited-Kept s w le h = record {
    apart = h.apart;
    past = λ t e. omega (arith, h.past t e);
    known = λ t e. elim (h.known t e) [ inl kept ↦ inl kept | inr old ↦ inr (omega arith) ];
  }

  -- A history of a process: events are handled one after the other, time passes, and the map is
  -- cleaned now and then.
  pub data History : State → Type 0 where
    started : (w : World) → History (record { world = w; times = []; fired = [] })
    handled :
        {s : State} (rs : List WebhookRule) (event : WebhookEvent)
        → All Guarded rs
        → History s
        → History (apply_rules World now run_task matches rs event s)
    cleaned :
        {s : State} → History s → History (record s { times = forget_old (now s.world) s.times })
    waited :
        {s : State} (w : World) → now s.world ≤ now w → History s → History (record s { world = w })

  History-Kept : {s : State} → History s → Kept s
  unfolding spaced last_at
  History-Kept (started w) = record {
    apart = refl;
    past = λ t e. absurd (cc);
    known = λ t e. absurd (cc);
  }
  History-Kept (handled {s} rs event g h) = apply_rules-Kept rs event s g (History-Kept h)
  History-Kept (cleaned {s} h) = forget_old-Kept s (History-Kept h)
  History-Kept (waited {s} w le h) = waited-Kept s w le (History-Kept h)

  -- Where every rule that is applied has an interval of at least `m` nanoseconds for a key of the
  -- map, as its 64-bit duration has it, and `m` is positive and at most an hour, any two starts under that key that follow each
  -- other are at least `m` apart, in every history of events that are handled one after the other,
  -- with the cleanings of the map and the waits between them. The clock must not run backwards
  -- while a task runs.
  pub starts_are_spaced : {s : State} → History s → spaced m k s.fired ≡ true
  starts_are_spaced h = (History-Kept h).apart

abbrev pub remembering :
    (World : Type 0) (now : World → ℕ) (run_task : String → Option ℕ → World → World)
    → World
    → Table ℕ
    → List Firing
    → Triggers World now run_task
remembering World now run_task w m fs = record { world = w; times = m; fired = fs }

-- A start that the interval of a rule, as its 64-bit duration has it, forbids is made all the same once the map has been cleaned,
-- where the interval is longer than an hour: with the last start more than an hour but less than
-- the interval ago, the task is skipped before the cleaning and started after it.
pub cleaning_forgets_interval :
    (World : Type 0) (now : World → ℕ) (run_task : String → Option ℕ → World → World)
    (r : WebhookRule) (task : String) (event : Option ℕ) (w : World) (t : ℕ) (rest : Table ℕ)
    (fs : List Firing)
    → (task =ˢ "") ≡ false
    → lookup (trigger_key r task) rest ≡ none
    → 3600000000000 < now w - t
    → now w - t < interval_ns r.min_interval
    → ((apply_task World now run_task r event task
          (remembering World now run_task w ((trigger_key r task, t) ∷ rest) fs)).fired
        ≡ fs)
      × ((apply_task World now run_task r event task (
            remembering World now run_task w
              (forget_old (now w) ((trigger_key r task, t) ∷ rest))
              fs)).fired
          ≡ record { key = trigger_key r task; task = task; at = now w } ∷ fs)
unfolding apply_task fire lookup forget_old
cleaning_forgets_interval World now run_task r task event w t rest fs named unknown old recent = (
  ground
      (arith, interval-positive r.min_interval, eq_iff (trigger_key r task) (trigger_key r task)),
  ground (
    arith,
    interval-positive r.min_interval,
    eq_iff (trigger_key r task) (trigger_key r task),
    forget_old-none (now w) (trigger_key r task) rest unknown,
  ),
)
