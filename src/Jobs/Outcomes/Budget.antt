-- ===== src/Jobs/Outcomes/Budget.antt =====
-- The two retry budgets of a job: consecutive failures to send (`transient_failures`), and failed
-- deliveries (`send_cycle`).
use linkplease_tech_assignme.Base.{
  ℕ, ◌+◌, ◌*◌, ◌≤◌, ◌<◌, ◌≡◌, Bool, true, false, String, Option, none, some, arith, Bool-cases, inl,
  inr, truthy, leb, subst, append_text, some_eq, not_none,
}
use linkplease_tech_assignme.Config.{Settings}
use linkplease_tech_assignme.Models.{Time, Rule, DmJob, JobStatus}
use linkplease_tech_assignme.Pseudogram.{SendOutcome, SendResult, Seconds, finite}
use linkplease_tech_assignme.Jobs.{new_job, backoff_delay}
use linkplease_tech_assignme.Jobs.Outcomes.{
  schedule_retry, schedule_backoff, give_up, handle_transient_failure, mark_accepted, send_branch,
  apply_send_result, delivery_failed, apply_delivery_status, status_is, shown, or_window,
}

-- A job that no reply of the API has taken yet: its next reply is one to a send.
abbrev pub awaits_send : JobStatus → Bool
awaits_send JobStatus.queued = true
awaits_send JobStatus.sending = true
awaits_send JobStatus.retry_wait = true
awaits_send JobStatus.cancelled = true
awaits_send _ = false

-- What a job may have spent, by its status. `attempts` counts each send that used up a budget, and
-- each failed delivery once more.
abbrev pub Spent : Settings → DmJob → JobStatus → Type 0
Spent s j JobStatus.accepted =
    (j.send_cycle < s.max_delivery_attempts)
    × (j.attempts ≤ j.send_cycle + j.send_cycle * s.max_dm_attempts + s.max_dm_attempts)
Spent s j JobStatus.delivered =
    (j.send_cycle < s.max_delivery_attempts)
    × (j.attempts ≤ j.send_cycle + j.send_cycle * s.max_dm_attempts + s.max_dm_attempts)
Spent s j JobStatus.failed =
    (j.send_cycle ≤ s.max_delivery_attempts)
    × (j.attempts ≤ j.send_cycle + s.max_delivery_attempts * s.max_dm_attempts)
Spent s j _ =
    (j.transient_failures < s.max_dm_attempts)
    × (j.send_cycle < s.max_delivery_attempts)
    × (j.attempts ≤ j.send_cycle + j.send_cycle * s.max_dm_attempts + j.transient_failures)

abbrev pub IsWithinBudget : Settings → DmJob → Type 0
IsWithinBudget s j = Spent s j j.status

pub new_job-IsWithinBudget :
    (s : Settings) (id : ℕ) (rule : Rule) (user : String) (comment : Option String) (now : Time)
    → 0 < s.max_dm_attempts
    → 0 < s.max_delivery_attempts
    → IsWithinBudget s (new_job id rule user comment now)
unfolding new_job
new_job-IsWithinBudget s id rule user comment now m d = (m, d, omega arith)

-- One more cycle of `m` fits below `d` cycles.
cycles_le : (c d m : ℕ) → c < d → c * m + m ≤ d * m
cycles_le c d m h = grind arith

schedule_budget :
    (s : Settings) (delay : Seconds) (e : Option String) (now : Time) (j : DmJob) {j' : DmJob}
    → (j.transient_failures < s.max_dm_attempts)
    → (j.send_cycle < s.max_delivery_attempts)
    → (j.attempts ≤ j.send_cycle + j.send_cycle * s.max_dm_attempts + j.transient_failures)
    → schedule_retry delay e now j ≡ some j'
    → IsWithinBudget s j'
unfolding schedule_retry
schedule_budget s delay e now j a b c h = ground arith

backoff_budget :
    (s : Settings) (delay : Option ℕ) (e : Option String) (now : Time) (j : DmJob) {j' : DmJob}
    → (j.transient_failures < s.max_dm_attempts)
    → (j.send_cycle < s.max_delivery_attempts)
    → (j.attempts ≤ j.send_cycle + j.send_cycle * s.max_dm_attempts + j.transient_failures)
    → schedule_backoff delay e now j ≡ some j'
    → IsWithinBudget s j'
unfolding schedule_backoff
backoff_budget s none e now j a b c h = absurd (not_none h)
backoff_budget s (some d) e now j a b c h = schedule_budget s (finite d) e now j a b c h

transient_budget :
    (s : Settings) (draw : ℕ) (e : Option String) (now : Time) (j : DmJob) {j' : DmJob}
    → (j.transient_failures < s.max_dm_attempts)
    → (j.send_cycle < s.max_delivery_attempts)
    → (j.attempts ≤ j.send_cycle + j.send_cycle * s.max_dm_attempts + j.transient_failures)
    → handle_transient_failure s draw e now j ≡ some j'
    → IsWithinBudget s j'
unfolding handle_transient_failure give_up
transient_budget s draw e now j a b c h =
    elim (Bool-cases (leb s.max_dm_attempts (j.transient_failures + 1))) [
      | inl g ↦ subst (IsWithinBudget s) (some_eq (rw g at h)) (
        omega arith,
        omega (arith, cycles_le j.send_cycle s.max_delivery_attempts s.max_dm_attempts b),
      )
      | inr g ↦
          backoff_budget s (backoff_delay (j.transient_failures + 1) s draw) e now
            (record j { attempts = j.attempts + 1; transient_failures = j.transient_failures + 1 })
            (ground arith) b (omega arith) (rw g at h)
    ]

accepted_budget :
    (s : Settings) (dm_id : Option String) (now : Time) (j : DmJob)
    → (j.transient_failures < s.max_dm_attempts)
    → (j.send_cycle < s.max_delivery_attempts)
    → (j.attempts ≤ j.send_cycle + j.send_cycle * s.max_dm_attempts + j.transient_failures)
    → IsWithinBudget s (mark_accepted dm_id now j)
unfolding mark_accepted
accepted_budget s dm_id now j a b c = ground arith

module _ (s : Settings) (draw : ℕ) (r : SendResult) (now : Time) (j : DmJob) {j' : DmJob}
    (a : j.transient_failures < s.max_dm_attempts) (b : j.send_cycle < s.max_delivery_attempts)
    (c : j.attempts ≤ j.send_cycle + j.send_cycle * s.max_dm_attempts + j.transient_failures) where
  branch_budget : (o : SendOutcome) → send_branch o s draw r now j ≡ some j' → IsWithinBudget s j'
  unfolding send_branch
  branch_budget SendOutcome.accepted h = elim (Bool-cases (truthy r.dm_id)) [
    | inl e ↦ subst (IsWithinBudget s) (some_eq (rw e at h)) (accepted_budget s r.dm_id now j a b c)
    | inr e ↦ transient_budget s draw (some "accepted_without_dm_id") now j a b c (rw e at h)
  ]
  branch_budget SendOutcome.rate_limited h =
      schedule_budget s (or_window r.retry_after s) (some "rate_limited") now j a b c h
  branch_budget SendOutcome.server_error h = transient_budget s draw _ now j a b c h
  branch_budget SendOutcome.invalid h =
      ground (arith, cycles_le j.send_cycle s.max_delivery_attempts s.max_dm_attempts b)
  branch_budget SendOutcome.auth_error h =
      schedule_budget s (finite s.auth_error_pause_seconds)
        (some (append_text "auth_error: " (shown r.error))) now j a b c h
  branch_budget SendOutcome.transport_error h = transient_budget s draw _ now j a b c h
  branch_budget SendOutcome.unexpected h = transient_budget s draw _ now j a b c h

pub waiting_budget :
    (s : Settings) (j : DmJob) (status : JobStatus)
    → awaits_send status ≡ true
    → Spent s j status
    → (j.transient_failures < s.max_dm_attempts)
      × (j.send_cycle < s.max_delivery_attempts)
      × (j.attempts ≤ j.send_cycle + j.send_cycle * s.max_dm_attempts + j.transient_failures)
waiting_budget s j JobStatus.queued a b = b
waiting_budget s j JobStatus.sending a b = b
waiting_budget s j JobStatus.retry_wait a b = b
waiting_budget s j JobStatus.cancelled a b = b
waiting_budget s j JobStatus.accepted a b = cc
waiting_budget s j JobStatus.delivered a b = cc
waiting_budget s j JobStatus.failed a b = cc

-- Every reply to a send leaves a job that waits for one within its budgets, if it was within them.
pub apply_send_result-IsWithinBudget :
    (s : Settings) (draw : ℕ) (r : SendResult) (now : Time) (j : DmJob) {j' : DmJob}
    → awaits_send j.status ≡ true
    → IsWithinBudget s j
    → apply_send_result s draw r now j ≡ some j'
    → IsWithinBudget s j'
unfolding apply_send_result
apply_send_result-IsWithinBudget s draw r now j a b h =
    let (t, c, n) = waiting_budget s j j.status a b in
    branch_budget s draw r now j t c n r.outcome h

-- The row of `delivery_failed` before its retry is scheduled.
abbrev pub failed_once : Time → DmJob → DmJob
failed_once now j = record j {
  last_status_check_at = some now;
  attempts = j.attempts + 1;
  send_cycle = j.send_cycle + 1;
  dm_id = none;
  transient_failures = 0;
}

delivery_budget :
    (s : Settings) (draw : ℕ) (now : Time) (j : DmJob) {j' : DmJob}
    → 0 < s.max_dm_attempts
    → Spent s j JobStatus.accepted
    → delivery_failed s draw now j ≡ some j'
    → IsWithinBudget s j'
unfolding delivery_failed
delivery_budget s draw now j m b h =
    elim (Bool-cases (leb s.max_delivery_attempts (j.send_cycle + 1))) [
      | inl e ↦ subst (IsWithinBudget s) (some_eq (rw e at h)) (
        ground arith,
        omega (arith, cycles_le j.send_cycle s.max_delivery_attempts s.max_dm_attempts b.0),
      )
      | inr e ↦
          backoff_budget s (backoff_delay (j.send_cycle + 1) s draw) (some "delivery_failed") now
            (failed_once now j) m (ground arith) (omega arith) (rw e at h)
    ]

-- Where the settings allow a send, every delivery status leaves an accepted job within its budgets, if
-- it was within them.
pub apply_delivery_status-IsWithinBudget :
    (s : Settings) (draw : ℕ) (status : Option String) (now : Time) (j : DmJob) {j' : DmJob}
    → 0 < s.max_dm_attempts
    → j.status ≡ JobStatus.accepted
    → IsWithinBudget s j
    → apply_delivery_status s draw status now j ≡ some j'
    → IsWithinBudget s j'
unfolding apply_delivery_status
apply_delivery_status-IsWithinBudget s draw status now j m a b h =
    let b' = subst (Spent s j) a b in
    elim (Bool-cases (status_is status "delivered")) [
      | inl e ↦ subst (IsWithinBudget s) (some_eq (rw e at h)) b'
      | inr e ↦ elim (Bool-cases (status_is status "failed")) [
        | inl f ↦ delivery_budget s draw now j m b' (rw (e, f) at h)
        | inr f ↦ subst (IsWithinBudget s) (some_eq (rw (e, f) at h)) b
      ]
    ]

-- A job within its budgets has at most `max_delivery_attempts * max_dm_attempts` attempts and one more
-- for each delivery that failed.
pub attempts_bound :
    (s : Settings) (j : DmJob)
    → IsWithinBudget s j
    → j.attempts ≤ j.send_cycle + s.max_delivery_attempts * s.max_dm_attempts
attempts_bound s j b = spent j.status b
  where
    spent :
        (status : JobStatus)
        → Spent s j status
        → j.attempts ≤ j.send_cycle + s.max_delivery_attempts * s.max_dm_attempts
    spent JobStatus.accepted h =
        omega (arith, cycles_le j.send_cycle s.max_delivery_attempts s.max_dm_attempts h.0)
    spent JobStatus.delivered h =
        omega (arith, cycles_le j.send_cycle s.max_delivery_attempts s.max_dm_attempts h.0)
    spent JobStatus.failed h = h.1
    spent _ h = omega (arith, cycles_le j.send_cycle s.max_delivery_attempts s.max_dm_attempts h.1)
