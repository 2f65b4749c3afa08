-- ===== src/Events/Burst.antt =====
-- app/services/events.py and scripts/mock_pseudogram.py together: the events that a simulation leaves
-- in the tables, and what it has told itself of them.
use linkplease_tech_assignme.Base.{
  ℕ, ◌+◌, ◌≡◌, refl, ap, ◌∙◌, Bool, true, false, String, Option, some, List, [], ◌∷◌, arith, All,
  length, length-append, any_where, any_where-append, add_text, truthy, str_eq, str_eq_refl,
  if◌then◌else◌, Bool-cases, inl, inr, subst,
}
use linkplease_tech_assignme.Config.{Settings}
use linkplease_tech_assignme.Models.{Db, Time, Rule, CounterKey}
use linkplease_tech_assignme.Counters
use linkplease_tech_assignme.Counters.Laws.{increment_frame, get-increment_self, get-increment_ne}
use linkplease_tech_assignme.Mock.Simulation.{sender}
use linkplease_tech_assignme.Events.{
  WebhookEvent, WebhookUser, new_event, event_comment_created, blocked_rules,
  handle_duplicate_event, sender_user_id,
}
use linkplease_tech_assignme.Events.Processing.OneRule.{
  Queue, IsComment, rule_hits, found_rules, unknown_deleted, Queue-frame,
}

abbrev pub member : String → List String → Bool
member x xs = any_where (λ y. str_eq y x) xs

pub member-add_more :
    (x y : String) (xs : List String) → member x xs ≡ true → member x (add_text y xs) ≡ true
member-add_more x y xs h = elim (Bool-cases (member y xs)) [
  | inl e ↦ rw e h
  | inr e ↦ rw e (any_where-append (λ z. str_eq z x) xs (y ∷ []) ∙ rw h refl)
]

pub member-add_text : (x : String) (xs : List String) → member x (add_text x xs) ≡ true
member-add_text x xs = elim (Bool-cases (member x xs)) [
  | inl e ↦ rw e e
  | inr e ↦ rw e (any_where-append (λ z. str_eq z x) xs (x ∷ []) ∙ rw (e, str_eq_refl x) refl)
]

pub add_known : (x : String) (xs : List String) → member x xs ≡ true → add_text x xs ≡ xs
add_known x xs h = rw h refl

pub length-add_new :
    (x : String) (xs : List String) → member x xs ≡ false → length (add_text x xs) ≡ length xs + 1
length-add_new x xs h = rw h (length-append xs (x ∷ []))

-- A payload of the simulation: a new comment with a sender and a text, that is not a redelivery with
-- another content.
pub record IsSimulated (p : WebhookEvent) : Type 0 where
  pub from_user : WebhookUser
  pub user : String
  pub text : String
  pub kind : str_eq p.event_type event_comment_created ≡ true
  pub from_is : p.body.from_ ≡ some from_user
  pub user_is : from_user.user_id ≡ some user
  pub user_given : truthy (some user) ≡ true
  pub text_is : p.body.text ≡ some text
  pub text_given : truthy (some text) ≡ true

sender_is : (p : WebhookEvent) (g : IsSimulated p) → sender_user_id p.body.from_ ≡ some g.user
sender_is p g = rw g.from_is g.user_is

pub simulated_sender : (p : WebhookEvent) (g : IsSimulated p) → sender p ≡ g.user
simulated_sender p g = rw g.from_is (rw g.user_is refl)

pub new_event-IsComment :
    (id : ℕ) (p : WebhookEvent) (sent : Option Time) (now : Time) (g : IsSimulated p)
    → IsComment (new_event id p sent now) g.user g.text
unfolding new_event
new_event-IsComment id p sent now g = record {
  kind = g.kind;
  user_is = sender_is p g;
  user_given = g.user_given;
  text_is = g.text_is;
  text_given = g.text_given;
}

-- A payload that came again is the one that came before.
unfoldable pub Repeats : List WebhookEvent → WebhookEvent → Type 0
Repeats history p = All (λ q. str_eq q.event_id p.event_id ≡ true → q ≡ p) history

pub came_before :
    (P : WebhookEvent → Type 0) (p : WebhookEvent) (history : List WebhookEvent)
    → Repeats history p
    → any_where (λ (q : WebhookEvent). str_eq q.event_id p.event_id) history ≡ true
    → All P history
    → P p
unfolding Repeats
came_before P p [] r k a = absurd (cc)
came_before P p (q ∷ qs) r k a = elim (Bool-cases (str_eq q.event_id p.event_id)) [
  | inl e ↦ subst P (r.0 e) a.0
  | inr e ↦ came_before P p qs r.1 (rw e at k) a.1
]

-- The counts of a delivery that comes again.
module _ (lower : String → String) (r : Rule) (active : r.is_active ≡ 1) (s : Settings) where
  blocked_rules_value :
      (p : WebhookEvent) (g : IsSimulated p) (users : List String) (db : Db)
      → Queue r users db
      → blocked_rules lower s p db ≡ (
          if s.count_duplicate_events_as_blocked
          then (if rule_hits lower r active g.text then 1 else 0)
          else 0)
  unfolding blocked_rules
  blocked_rules_value p g users db q =
      rw
        (
          g.kind,
          sender_is p g,
          g.user_given,
          unknown_deleted lower r active p.body.comment_id users db q,
          g.text_is,
          found_rules lower r active g.text users db q g.text_given,
        )
        (ground arith)

  pub duplicate_blocked :
      (p : WebhookEvent) (g : IsSimulated p) (users : List String) (db : Db)
      → Queue r users db
      → Counters.get CounterKey.duplicates_blocked (handle_duplicate_event lower p s db)
        ≡ Counters.get CounterKey.duplicates_blocked db
          + (if s.count_duplicate_events_as_blocked
              then (if rule_hits lower r active g.text then 1 else 0)
              else 0)
  unfolding handle_duplicate_event
  duplicate_blocked p g users db q =
      let counted = Counters.increment CounterKey.duplicate_events 1 db in
      let frame = increment_frame CounterKey.duplicate_events 1 db in
      let q' =
        Queue-frame r users db counted (ap (λ (d : Db). d.rules) frame)
          (ap (λ (d : Db). d.deleted_comments) frame) (ap (λ (d : Db). d.jobs) frame) q in
      omega (
        arith,
        get-increment_self CounterKey.duplicates_blocked (blocked_rules lower s p counted) counted,
        get-increment_ne CounterKey.duplicate_events CounterKey.duplicates_blocked 1 db
            (λ same. cc),
        blocked_rules_value p g users counted q',
      )
