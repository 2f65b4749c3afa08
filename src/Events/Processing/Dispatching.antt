-- ===== src/Events/Processing/Dispatching.antt =====
-- app/services/events.py, process_event: what the handler of an event does to the events table.
use linkplease_tech_assignme.Base.{
  ◌≡◌, refl, ap, ◌∙◌, false, String, Option, some, List, [], ◌∷◌, truthy, str_eq, Bool-cases,
  Option-cases, inl, inr,
}
use linkplease_tech_assignme.Models.{Db, Time, Rule, Event, EventStatus, event_status_eq}
use linkplease_tech_assignme.Matching.{find_matching_rules}
use linkplease_tech_assignme.Jobs.{create_job}
use linkplease_tech_assignme.Jobs.Writes.{cancel_jobs_frame}
use linkplease_tech_assignme.Events.{event_comment_created, event_comment_deleted, known_deleted}
use linkplease_tech_assignme.Events.Processing.{
  create_jobs, remember_deleted, delete_comment, process_comment_deleted, created_by,
  process_comment_created, dispatch,
}
use linkplease_tech_assignme.Events.Processing.Keeps.{create_job_frame, remember_deleted_frame}

-- The events are as they were, and the status is an end.
pub record Dispatched (db : Db) (x : EventStatus × Db) : Type 0 where
  pub same : x.1.events ≡ db.events
  pub ends : event_status_eq x.0 EventStatus.processing ≡ false

create_jobs_events :
    (rules : List Rule) (user : String) (comment : Option String) (now : Time) (db : Db)
    → (create_jobs rules user comment now db).events ≡ db.events
unfolding create_jobs
create_jobs_events [] user comment now db = refl
create_jobs_events (r ∷ rs) user comment now db =
    create_jobs_events rs user comment now (create_job r user comment now db).1
    ∙ ap (λ (d : Db). d.events) (create_job_frame r user comment now db)

delete_comment_events :
    (c : String) (now : Time) (db : Db) → (delete_comment c now db).events ≡ db.events
unfolding delete_comment
delete_comment_events c now db =
    ap (λ (d : Db). d.events) (cancel_jobs_frame c now (remember_deleted c now db))
    ∙ ap (λ (d : Db). d.events) (remember_deleted_frame c now db)

deleted-Dispatched :
    (event : Event) (now : Time) (db : Db) → Dispatched db (process_comment_deleted event now db)
unfolding process_comment_deleted
deleted-Dispatched event now db = elim (Option-cases event.comment_id) [
  | inl e ↦ rw (e, process_comment_deleted) (record { same = refl; ends = refl })
  | inr (c, e) ↦ elim (Bool-cases (truthy (some c))) [
    | inl t ↦
        rw (e, process_comment_deleted)
          (rw t (record { same = delete_comment_events c now db; ends = refl }))
    | inr t ↦ rw (e, process_comment_deleted) (rw t (record { same = refl; ends = refl }))
  ]
]

module _ (lower : String → String) where
  created_by-Dispatched :
      (user : String) (event : Event) (now : Time) (db : Db)
      → Dispatched db (created_by lower user event now db)
  unfolding created_by
  created_by-Dispatched user event now db = elim (Bool-cases (truthy (some user))) [
    | inl t ↦ elim (Bool-cases (known_deleted event.comment_id db)) [
      | inl k ↦ rw (t, k) (record { same = refl; ends = refl })
      | inr k ↦
          rw (t, k)
            (record {
              same =
                  create_jobs_events (find_matching_rules lower event.text db) user event.comment_id
                    now db;
              ends = refl;
            })
    ]
    | inr t ↦ rw t (record { same = refl; ends = refl })
  ]

  created-Dispatched :
      (event : Event) (now : Time) (db : Db)
      → Dispatched db (process_comment_created lower event now db)
  unfolding process_comment_created
  created-Dispatched event now db = elim (Option-cases event.user_id) [
    | inl e ↦ rw (e, process_comment_created) (record { same = refl; ends = refl })
    | inr (user, e) ↦ rw (e, process_comment_created) (created_by-Dispatched user event now db)
  ]

  pub dispatch-Dispatched :
      (event : Event) (now : Time) (db : Db) → Dispatched db (dispatch lower event now db)
  unfolding dispatch
  dispatch-Dispatched event now db =
      elim (Bool-cases (str_eq event.event_type event_comment_created)) [
        | inl c ↦ rw c (created-Dispatched event now db)
        | inr c ↦ elim (Bool-cases (str_eq event.event_type event_comment_deleted)) [
          | inl d ↦ rw (c, d) (deleted-Dispatched event now db)
          | inr d ↦ rw (c, d) (record { same = refl; ends = refl })
        ]
      ]
