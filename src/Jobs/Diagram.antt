-- ===== src/Jobs/Diagram.antt =====
-- README.md, "Job status machine", and app/services/jobs.py: the statuses that a job may take one
-- after the other, and a row that went on along them.
use linkplease_tech_assignme.Base.{
  ℕ, ◌≤◌, ◌≡◌, ◌⊎◌, refl, sym, ◌∙◌, Bool, true, false, String, Option, some, arith, inl, inr, subst,
}
use linkplease_tech_assignme.Config.{Settings}
use linkplease_tech_assignme.Models.{Time, DmJob, JobStatus}
use linkplease_tech_assignme.Pseudogram.{SendResult}
use linkplease_tech_assignme.Jobs.Outcomes.{apply_send_result, apply_delivery_status}
use linkplease_tech_assignme.Jobs.Outcomes.Budget.{awaits_send}
use linkplease_tech_assignme.Jobs.Outcomes.Effects.{
  SameJob, SameJob-refl, SameJob-trans, Replied, apply_send_result-Replied, Checked,
  apply_delivery_status-Checked,
}

-- What a send can come to.
pub data Answered : JobStatus → Type 0 where
  taken : Answered JobStatus.accepted
  postponed : Answered JobStatus.retry_wait
  refused : Answered JobStatus.failed

-- The edges of each kind of transaction: a claim, the event worker's cancellation, a claim that is given
-- up, a reply to a send, and a delivery status.
pub data Claimed : JobStatus → JobStatus → Type 0 where
  claim : Claimed JobStatus.queued JobStatus.sending
  claim_again : Claimed JobStatus.retry_wait JobStatus.sending

pub data Cancelled : JobStatus → JobStatus → Type 0 where
  cancel : Cancelled JobStatus.queued JobStatus.cancelled
  cancel_again : Cancelled JobStatus.retry_wait JobStatus.cancelled

pub data Released : JobStatus → JobStatus → Type 0 where
  release : Released JobStatus.sending JobStatus.queued

-- A reply can also come for a job that was put back into the queue, and even cancelled, while its send
-- was under way: `_apply` does not look at the status.
pub data Told : JobStatus → JobStatus → Type 0 where
  reply : {s t : JobStatus} → awaits_send s ≡ true → Answered t → Told s t

pub data Polled : JobStatus → JobStatus → Type 0 where
  deliver : Polled JobStatus.accepted JobStatus.delivered
  redo : Polled JobStatus.accepted JobStatus.retry_wait
  abandon : Polled JobStatus.accepted JobStatus.failed

-- No edge.
pub data Unmoved : JobStatus → JobStatus → Type 0 where

-- The statuses that no edge leaves.
abbrev pub is_final : JobStatus → Bool
is_final JobStatus.delivered = true
is_final JobStatus.failed = true
is_final _ = false

waiting_open : (s : JobStatus) → awaits_send s ≡ true → is_final s ≡ false
waiting_open JobStatus.queued a = refl
waiting_open JobStatus.sending a = refl
waiting_open JobStatus.accepted a = refl
waiting_open JobStatus.delivered a = absurd (cc)
waiting_open JobStatus.retry_wait a = refl
waiting_open JobStatus.failed a = absurd (cc)
waiting_open JobStatus.cancelled a = refl

-- Any edge.
pub data Moved : JobStatus → JobStatus → Type 0 where
  moved : {s t : JobStatus} → is_final s ≡ false → Moved s t

-- No edge leaves a final status.
pub Claimed-Moved : (s t : JobStatus) → Claimed s t → Moved s t
Claimed-Moved _ _ claim = moved refl
Claimed-Moved _ _ claim_again = moved refl

pub Cancelled-Moved : (s t : JobStatus) → Cancelled s t → Moved s t
Cancelled-Moved _ _ cancel = moved refl
Cancelled-Moved _ _ cancel_again = moved refl

pub Released-Moved : (s t : JobStatus) → Released s t → Moved s t
Released-Moved _ _ release = moved refl

pub Told-Moved : (s t : JobStatus) → Told s t → Moved s t
Told-Moved s t (reply a _) = moved (waiting_open s a)

pub Polled-Moved : (s t : JobStatus) → Polled s t → Moved s t
Polled-Moved _ _ deliver = moved refl
Polled-Moved _ _ redo = moved refl
Polled-Moved _ _ abandon = moved refl

pub Unmoved-Moved : (s t : JobStatus) → Unmoved s t → Moved s t
Unmoved-Moved s t e = elim e [ ]

abbrev pub Edges : Type 1
Edges = JobStatus → JobStatus → Type 0

-- Two edges of a kind after each other make one.
abbrev pub Joins : Edges → Type 0
Joins E = (s t u : JobStatus) → E s t → E t u → E s u

pub Cancelled-Joins : Joins Cancelled
Cancelled-Joins s t u cancel e = elim e [ ]
Cancelled-Joins s t u cancel_again e = elim e [ ]

pub Released-Joins : Joins Released
Released-Joins s t u release e = elim e [ ]

pub Unmoved-Joins : Joins Unmoved
Unmoved-Joins s t u e = elim e [ ]

pub Moved-Joins : Joins Moved
Moved-Joins s t u (moved a) _ = moved a

-- At most one edge.
abbrev pub Along : Edges → JobStatus → JobStatus → Type 0
Along E s t = (t ≡ s) ⊎ E s t

pub join_Along :
    (E : Edges) → Joins E → (s t u : JobStatus) → Along E s t → Along E t u → Along E s u
join_Along E j s t u (inl a) (inl b) = inl (b ∙ a)
join_Along E j s t u (inl a) (inr b) = inr (subst (λ x. E x u) a b)
join_Along E j s t u (inr a) (inl b) = inr (subst (E s) (sym b) a)
join_Along E j s t u (inr a) (inr b) = inr (j s t u a b)

-- A job, and the same job later.
pub record Leads (E : Edges) (j k : DmJob) : Type 0 where
  pub same : SameJob j k
  pub cycle : j.send_cycle ≤ k.send_cycle
  pub path : Along E j.status k.status
  pub final : (is_final j.status ≡ false) ⊎ (k ≡ j)

pub Leads-refl : (E : Edges) (j : DmJob) → Leads E j j
Leads-refl E j = record {
  same = SameJob-refl j;
  cycle = omega arith;
  path = inl refl;
  final = inr refl;
}

pub Leads-trans : (E : Edges) → Joins E → (j k l : DmJob) → Leads E j k → Leads E k l → Leads E j l
Leads-trans E joins j k l a b = record {
  same = SameJob-trans j k l a.same b.same;
  cycle = omega (arith, a.cycle, b.cycle);
  path = join_Along E joins j.status k.status l.status a.path b.path;
  final = elim a.final [
    | inl e ↦ inl e
    | inr e ↦ elim b.final [
      | inl f ↦ inl (subst (λ (x : DmJob). is_final x.status ≡ false) e f)
      | inr f ↦ inr (f ∙ e)
    ]
  ];
}

-- With more edges.
pub Leads-more :
    (E F : Edges) → ((s t : JobStatus) → E s t → F s t) → (j k : DmJob) → Leads E j k → Leads F j k
Leads-more E F more j k l = record {
  same = l.same;
  cycle = l.cycle;
  path = elim l.path [ inl e ↦ inl e | inr e ↦ inr (more j.status k.status e) ];
  final = l.final;
}

-- One edge, from a status that is not final.
pub edge-Leads :
    (E : Edges) (j k : DmJob)
    → SameJob j k
    → j.send_cycle ≤ k.send_cycle
    → is_final j.status ≡ false
    → E j.status k.status
    → Leads E j k
edge-Leads E j k same cycle going e = record {
  same = same;
  cycle = cycle;
  path = inr e;
  final = inl going;
}

Replied-Answered : (j k : DmJob) → Replied j k → Answered k.status
Replied-Answered j k r = elim r.settled [
  | inl e ↦ subst Answered (sym e) taken
  | inr e ↦ elim e [
    | inl e ↦ subst Answered (sym e) postponed
    | inr e ↦ subst Answered (sym e) refused
  ]
]

pub apply_send_result-Leads :
    (s : Settings) (draw : ℕ) (r : SendResult) (now : Time) (j : DmJob) {k : DmJob}
    → awaits_send j.status ≡ true
    → apply_send_result s draw r now j ≡ some k
    → Leads Told j k
apply_send_result-Leads s draw r now j {k} a h =
    let told = apply_send_result-Replied s draw r now j h in
    edge-Leads Told j k told.same (omega (arith, told.same_cycle)) (waiting_open j.status a)
      (reply a (Replied-Answered j k told))

-- A poll of an accepted job.
polled-Along :
    (j k : DmJob) (st : Option String)
    → j.status ≡ JobStatus.accepted
    → Checked st j k
    → Along Polled JobStatus.accepted k.status
polled-Along j k st acc c = elim c.ended [
  | inl e ↦ inr (subst (Polled JobStatus.accepted) (sym e) deliver)
  | inr e ↦ elim e [
    | inl e ↦ inr (subst (Polled JobStatus.accepted) (sym e) redo)
    | inr e ↦ elim e [
      | inl e ↦ inr (subst (Polled JobStatus.accepted) (sym e) abandon)
      | inr e ↦ inl (e ∙ acc)
    ]
  ]
]

pub apply_delivery_status-Leads :
    (s : Settings) (draw : ℕ) (st : Option String) (now : Time) (j : DmJob) {k : DmJob}
    → j.status ≡ JobStatus.accepted
    → apply_delivery_status s draw st now j ≡ some k
    → Leads Polled j k
apply_delivery_status-Leads s draw st now j {k} acc h =
    let c = apply_delivery_status-Checked s draw st now j h in
    record {
      same = c.same;
      cycle = ground (arith, c.cycle);
      path = subst (λ t. Along Polled t k.status) (sym acc) (polled-Along j k st acc c);
      final = inl (rw acc refl);
    }
