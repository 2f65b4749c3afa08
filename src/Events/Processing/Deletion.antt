-- ===== src/Events/Processing/Deletion.antt =====
-- app/services/events.py: the two events of a comment, its creation and its deletion, in both
-- orders.
use linkplease_tech_assignme.Base.{
  ℕ, ◌≡◌, refl, sym, ap, ◌∙◌, subst, true, false, String, Option, some, arith, All, truthy, str_eq,
  str_eq_iff, str_eq_refl, any_where, any_where-append, Bool-cases, Option-cases, inl, inr,
}
use linkplease_tech_assignme.Models.{Db, Time, Event, EventStatus, DeletedComment}
use linkplease_tech_assignme.Jobs.Cancel.{
  may_send, NothingToSend, cancel-NothingToSend, cancel_frame,
}
use linkplease_tech_assignme.Events.{
  event_comment_created, event_comment_deleted, comment_is_deleted, known_deleted,
}
use linkplease_tech_assignme.Events.Processing.{
  add_deleted, remember_deleted, delete_comment, process_comment_deleted, process_comment_created,
  created_by, process_event, dispatch, finish_event,
}

deleted_frame :
    (c : String) (db db' : Db)
    → db'.deleted_comments ≡ db.deleted_comments
    → comment_is_deleted c db' ≡ comment_is_deleted c db
unfolding comment_is_deleted
deleted_frame c db db' e = rw e

add_deleted-known :
    (c : String) (now : Time) (db : Db) → comment_is_deleted c (add_deleted c now db) ≡ true
unfolding add_deleted comment_is_deleted
add_deleted-known c now db =
    elim (Bool-cases
      (any_where (λ (d : DeletedComment). str_eq d.comment_id c) db.deleted_comments)) [
        | inl e ↦ rw e e
        | inr e ↦ rw (e, any_where-append {0}) (ground (arith, str_eq_refl c))
      ]

remember_deleted-known :
    (c : String) (now : Time) (db : Db) → comment_is_deleted c (remember_deleted c now db) ≡ true
unfolding remember_deleted
remember_deleted-known c now db = elim (Bool-cases (comment_is_deleted c db)) [
  | inl e ↦ rw (e, remember_deleted) e
  | inr e ↦ rw (e, remember_deleted) (add_deleted-known c now db)
]

delete_comment-known :
    (c : String) (now : Time) (db : Db) → comment_is_deleted c (delete_comment c now db) ≡ true
unfolding delete_comment
delete_comment-known c now db =
    deleted_frame c (remember_deleted c now db) (delete_comment c now db)
      (ap (λ (d : Db). d.deleted_comments) (cancel_frame c now (remember_deleted c now db)))
    ∙ remember_deleted-known c now db

delete_comment-NothingToSend :
    (c : String) (now : Time) (db : Db)
    → truthy (some c) ≡ true
    → NothingToSend c (delete_comment c now db)
unfolding delete_comment
delete_comment-NothingToSend c now db t = cancel-NothingToSend c now (remember_deleted c now db) t

finish_deleted :
    (c : String) (id : ℕ) (status : EventStatus) (now : Time) (db : Db)
    → comment_is_deleted c (finish_event id status now db) ≡ comment_is_deleted c db
unfolding comment_is_deleted finish_event
finish_deleted c id status now db = refl

known_of :
    (c : String) (comment_id : Option String) (db : Db)
    → comment_id ≡ some c
    → truthy (some c) ≡ true
    → comment_is_deleted c db ≡ true
    → known_deleted comment_id db ≡ true
unfolding known_deleted
known_of c comment_id db e t k = rw (e, known_deleted) (rw (t, k))

-- The event says that the comment `c` was deleted.
pub record Deletes (c : String) (event : Event) : Type 0 where
  pub kind : str_eq event.event_type event_comment_deleted ≡ true
  pub comment : event.comment_id ≡ some c
  pub given : truthy (some c) ≡ true

-- The event says that the comment `c` was written.
pub record Creates (c : String) (event : Event) : Type 0 where
  pub kind : str_eq event.event_type event_comment_created ≡ true
  pub comment : event.comment_id ≡ some c

module _ (lower : String → String) where
  kinds_differ :
      (t : String) → str_eq t event_comment_deleted ≡ true → str_eq t event_comment_created ≡ false
  unfolding str_eq
  kinds_differ t h = rw ((str_eq_iff t event_comment_deleted).0 h)

  dispatch_deleted :
      (c : String) (event : Event) (now : Time) (db : Db)
      → Deletes c event
      → dispatch lower event now db ≡ (EventStatus.processed, delete_comment c now db)
  unfolding dispatch
  dispatch_deleted c event now db d =
      rw (kinds_differ event.event_type d.kind, d.kind)
        (rw (d.comment, process_comment_deleted) (rw d.given))

  -- Processing the deletion leaves nothing to send for the comment, and the deletion on record.
  pub process_deleted :
      (c : String) (event : Event) (now : Time) (db : Db)
      → Deletes c event
      → NothingToSend c (process_event lower event now db)
        × (comment_is_deleted c (process_event lower event now db) ≡ true)
  unfolding process_event
  process_deleted c event now db d =
      rw (dispatch_deleted c event now db d, process_event)
        (
          delete_comment-NothingToSend c now db d.given,
          finish_deleted c event.id EventStatus.processed now (delete_comment c now db)
              ∙ delete_comment-known c now db,
        )

  ignored_by :
      (user c : String) (event : Event) (now : Time) (db : Db)
      → event.comment_id ≡ some c
      → truthy (some c) ≡ true
      → comment_is_deleted c db ≡ true
      → created_by lower user event now db ≡ (EventStatus.ignored, db)
  unfolding created_by
  ignored_by user c event now db e t k = elim (Bool-cases (truthy (some user))) [
    | inl u ↦ rw (u, known_of c event.comment_id db e t k)
    | inr u ↦ rw u
  ]

  created_ignored :
      (c : String) (event : Event) (now : Time) (db : Db)
      → event.comment_id ≡ some c
      → truthy (some c) ≡ true
      → comment_is_deleted c db ≡ true
      → process_comment_created lower event now db ≡ (EventStatus.ignored, db)
  unfolding process_comment_created
  created_ignored c event now db e t k = elim (Option-cases event.user_id) [
    | inl none_given ↦ rw (none_given, process_comment_created)
    | inr (user, u) ↦ rw (u, process_comment_created) (ignored_by user c event now db e t k)
  ]

  dispatch_ignored :
      (c : String) (event : Event) (now : Time) (db : Db)
      → Creates c event
      → truthy (some c) ≡ true
      → comment_is_deleted c db ≡ true
      → dispatch lower event now db ≡ (EventStatus.ignored, db)
  unfolding dispatch
  dispatch_ignored c event now db cr t k =
      rw cr.kind (created_ignored c event now db cr.comment t k)

  -- A comment known to be deleted gets no job.
  pub created_after_deleted :
      (c : String) (event : Event) (now : Time) (db : Db)
      → Creates c event
      → truthy (some c) ≡ true
      → comment_is_deleted c db ≡ true
      → (process_event lower event now db).jobs ≡ db.jobs
  unfolding process_event finish_event
  created_after_deleted c event now db cr t k =
      rw (dispatch_ignored c event now db cr t k, process_event)

  -- Whichever of the two events of a comment is processed first, in the end no job of the comment is
  -- queued or waits for a retry.
  pub deletion_any_order :
      (c : String) (created deleted : Event) (t1 t2 : Time) (db : Db)
      → Creates c created
      → Deletes c deleted
      → NothingToSend c (process_event lower deleted t2 (process_event lower created t1 db))
        × NothingToSend c (process_event lower created t2 (process_event lower deleted t1 db))
  deletion_any_order c created deleted t1 t2 db cr d =
      let (nothing, known) = process_deleted c deleted t1 db d in
      (
        (process_deleted c deleted t2 (process_event lower created t1 db) d).0,
        subst (λ js. All (λ j. may_send c j ≡ false) js)
            (sym (
              created_after_deleted c created t2 (process_event lower deleted t1 db) cr d.given
                known))
            nothing,
      )
