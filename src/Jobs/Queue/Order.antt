-- ===== src/Jobs/Queue/Order.antt =====
-- Which job `process_next_job` takes.
use revtern.Prelude.{
  ◌≤◌, Bool, true, false, ◌≡◌, ◌⊎◌, inl, inr, refl, Option, none, some, List, [], ◌∷◌, arith,
  if◌then◌else◌, All, Bool-cases, ◌<◌,
}
use mathlib.Core.List.{Memᴰ}
use revtern.Runtime.{Instant}
use revtern.Jobs.Tables.{Job}
use revtern.Jobs.Queue.{next_job, is_due, runs_before, earlier}

-- In the order of the select, `a` stands no later than `b`.
abbrev pub NotAfter : Job → Job → Type 0
NotAfter a b =
    (a.run_after < b.run_after) ⊎ ((a.run_after ≡ b.run_after) × (a.created_at ≤ b.created_at))

-- `job` is due, and no due job of the table stands before it.
pub record IsNext (now : Instant) (jobs : List Job) (job : Job) : Type 0 where
  pub listed : Memᴰ job jobs
  pub due : is_due now job ≡ true
  pub first : All (λ other. is_due now other ≡ true → NotAfter job other) jobs

NotAfter-trans : (a b c : Job) → NotAfter a b → NotAfter b c → NotAfter a c
NotAfter-trans a b c h k = ground arith

All-weaken :
    (now : Instant) (a b : Job) (jobs : List Job)
    → NotAfter a b
    → All (λ other. is_due now other ≡ true → NotAfter b other) jobs
    → All (λ other. is_due now other ≡ true → NotAfter a other) jobs
All-weaken now a b [] h all = tt
All-weaken now a b (c ∷ jobs) h all =
    (λ d. NotAfter-trans a b c h (all.0 d), All-weaken now a b jobs h all.1)

-- What `next_job` answers: a job that is next, or nothing because no job is due.
abbrev pub Answers : Instant → List Job → Option Job → Type 0
Answers now jobs none = All (λ other. is_due now other ≡ false) jobs
Answers now jobs (some job) = IsNext now jobs job

none_due :
    (now : Instant) (job : Job) (jobs : List Job)
    → All (λ other. is_due now other ≡ false) jobs
    → All (λ other. is_due now other ≡ true → NotAfter job other) jobs
none_due now job [] all = tt
none_due now job (c ∷ jobs) all = (λ d. cc (all.0, d), none_due now job jobs all.1)

runs_before_lem :
    (a b : Job) → (runs_before a b ≡ true → NotAfter a b) × (runs_before a b ≡ false → NotAfter b a)
runs_before_lem a b = (λ h. ground arith, λ h. ground arith)

pick_earlier :
    (now : Instant) (job best : Job) (jobs : List Job) (before : Bool)
    → runs_before job best ≡ before
    → is_due now job ≡ true
    → IsNext now jobs best
    → IsNext now (job ∷ jobs) (if before then job else best)
pick_earlier now job best jobs true e due n = record {
  listed = Memᴰ.head refl;
  due = due;
  first = (
    λ _. inr (refl, omega arith),
    All-weaken now job best jobs ((runs_before_lem job best).0 e) n.first,
  );
}
pick_earlier now job best jobs false e due n = record {
  listed = Memᴰ.tail n.listed;
  due = n.due;
  first = (λ _. (runs_before_lem job best).1 e, n.first);
}

extend :
    (now : Instant) (job : Job) (jobs : List Job) (best : Option Job)
    → is_due now job ≡ true
    → Answers now jobs best
    → IsNext now (job ∷ jobs) (earlier job best)
extend now job jobs none due a = record {
  listed = Memᴰ.head refl;
  due = due;
  first = (λ _. inr (refl, omega arith), none_due now job jobs a);
}
extend now job jobs (some best) due a =
    pick_earlier now job best jobs (runs_before job best) refl due a

skip :
    (now : Instant) (job : Job) (jobs : List Job) (best : Option Job)
    → is_due now job ≡ false
    → Answers now jobs best
    → Answers now (job ∷ jobs) best
skip now job jobs none idle a = (idle, a)
skip now job jobs (some best) idle a = record {
  listed = Memᴰ.tail a.listed;
  due = a.due;
  first = (λ d. cc (idle, d), a.first);
}

-- The job that a worker is given is due and stands in the table, and no due job has an earlier
-- `run_after`, or the same with an earlier `created_at`; it is given none exactly when none is due.
pub next_job-Answers : (now : Instant) (jobs : List Job) → Answers now jobs (next_job now jobs)
unfolding next_job
next_job-Answers now [] = tt
next_job-Answers now (job ∷ jobs) = elim (Bool-cases (is_due now job)) [
  | inl due ↦ rw due (extend now job jobs (next_job now jobs) due (next_job-Answers now jobs))
  | inr idle ↦ rw idle (skip now job jobs (next_job now jobs) idle (next_job-Answers now jobs))
]
