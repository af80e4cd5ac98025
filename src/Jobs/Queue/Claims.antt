-- ===== src/Jobs/Queue/Claims.antt =====
-- What a claim of a job promises to the worker that made it.
use mathlib.Core.Bool.{and-eq-true_iff, and-false}
use revtern.Prelude.{
  ◌≤◌, ◌+◌, String, Bool, true, false, ◌&&◌, ◌≡◌, refl, ap, ◌∙◌, none, some, List, [], ◌∷◌, arith,
  All, Bool-cases, inl, inr, find, update_where, Option-cases,
}
use revtern.Prelude.Rows.{find_sound}
use revtern.Runtime.{Instant}
use revtern.Jobs.Tables.{Db, Job}
use revtern.Jobs.Exec.{ok, err, row_not_found}
use revtern.Jobs.Queue.{has_job_id, is_claimable, claimed, claim, lock_timeout}

-- The test of the `where` clause of the claim.
abbrev pub claims : Instant → String → Job → Bool
claims now job_id job = has_job_id job_id job && is_claimable now job

-- A job just claimed is not claimable until the lock times out.
claimed_locked :
    (now later : Instant) (worker_id : String) (job : Job)
    → later ≤ now + lock_timeout
    → is_claimable later (claimed now worker_id job) ≡ false
unfolding is_claimable claimed
claimed_locked now later worker_id job h = ground arith

-- After the claim no row with its id is claimable, if at most one row has it.
abbrev pub AtMostOne : String → List Job → Type 0
AtMostOne job_id [] = Unit
AtMostOne job_id (job ∷ jobs) =
    (has_job_id job_id job ≡ true → All (λ other. has_job_id job_id other ≡ false) jobs)
    × AtMostOne job_id jobs

-- What is known of the table once a claim was made: no row has its claim a second time.
abbrev Unclaimable : Instant → Instant → String → String → List Job → Type 0
Unclaimable now later job_id worker_id jobs =
    find (claims later job_id) (update_where (claims now job_id) (claimed now worker_id) jobs)
    ≡ none

module _ (now later : Instant) (job_id worker_id : String) where
  others_apart :
      (jobs : List Job)
      → All (λ other. has_job_id job_id other ≡ false) jobs
      → Unclaimable now later job_id worker_id jobs × (find (claims now job_id) jobs ≡ none)
  unfolding find update_where
  others_apart [] h = (refl, refl)
  others_apart (job ∷ jobs) h =
      let (again, first) = others_apart jobs h.1 in (rw (h.0) (rw (h.0) again), rw (h.0) first)

  claimed_once :
      later ≤ now + lock_timeout
      → (jobs : List Job) (job : Job) → AtMostOne job_id jobs
      → find (claims now job_id) jobs ≡ some job
      → Unclaimable now later job_id worker_id jobs
  unfolding find update_where
  claimed_once h [] job one found = refl
  claimed_once h (x ∷ jobs) job one found = elim (Bool-cases (has_job_id job_id x)) [
    | inr other ↦ rw other (rw other (claimed_once h jobs job one.1 (rw other at found)))
    | inl same ↦ elim (Bool-cases (is_claimable now x)) [
      | inl free ↦ rw same (
          rw free (
            rw (claimed_locked now later worker_id x h)
              (rw and-false (others_apart jobs (one.0 same)).0)))
      | inr taken ↦ cc (rw same at (rw taken at found), (others_apart jobs (one.0 same)).1)
    ]
  ]

  pub claimed_row :
      (jobs : List Job) (job : Job)
      → AtMostOne job_id jobs
      → find (claims now job_id) jobs ≡ some job
      → find (has_job_id job_id) (update_where (claims now job_id) (claimed now worker_id) jobs)
        ≡ some (claimed now worker_id job)
  unfolding find update_where claimed
  claimed_row [] job one found = cc
  claimed_row (x ∷ jobs) job one found = elim (Bool-cases (has_job_id job_id x)) [
    | inr other ↦ rw other (rw other (claimed_row jobs job one.1 (rw other at found)))
    | inl same ↦ elim (Bool-cases (is_claimable now x)) [
      | inl free ↦
          let own : x ≡ job = cc (rw same at (rw free at found)) in
          rw same (rw free (rw same (rw own)))
      | inr taken ↦ cc (rw same at (rw taken at found), (others_apart jobs (one.0 same)).1)
    ]
  ]

no_row :
    (later : Instant) (job_id : String) (jobs : List Job)
    → All (λ other. has_job_id job_id other ≡ false) jobs
    → find (claims later job_id) jobs ≡ none
unfolding find
no_row later job_id [] h = refl
no_row later job_id (x ∷ jobs) h = rw (h.0) (no_row later job_id jobs h.1)

-- Where the only row of an id cannot be claimed, no row can.
pub only_row :
    (later : Instant) (job_id : String) (jobs : List Job) (row : Job)
    → AtMostOne job_id jobs
    → find (has_job_id job_id) jobs ≡ some row
    → is_claimable later row ≡ false
    → find (claims later job_id) jobs ≡ none
unfolding find
only_row later job_id [] row one found locked = refl
only_row later job_id (x ∷ jobs) row one found locked = elim (Bool-cases (has_job_id job_id x)) [
  | inr other ↦ rw other (only_row later job_id jobs row one.1 (rw other at found) locked)
  | inl same ↦
      let own : x ≡ row = cc (rw same at found) in
      rw same (rw own (rw locked (no_row later job_id jobs (one.0 same))))
]

-- A worker that claims the job of an id that only one row has was given a row that could be
-- claimed; the row then is running, locked by this worker at this time, with one attempt more. Until
-- five minutes have passed no worker can claim it again as long as its row stays as the claim left
-- it, in the database that the claim left and in any other that has it as the only row of its id;
-- such a claim leaves the database alone.
pub claim-claim :
    {V : Type 0} (now later : Instant) (job_id worker_id other_id : String) (db : Db V) (job : Job)
    → later ≤ now + lock_timeout
    → AtMostOne job_id db.jobs
    → (claim now job_id worker_id db).0 ≡ ok job
    → let after = (claim now job_id worker_id db).1 in
      (is_claimable now job ≡ true)
      × (find (has_job_id job_id) after.jobs ≡ some (claimed now worker_id job))
      × (claim later job_id other_id after ≡ (err row_not_found, after))
      × ((since : Db V)
          → AtMostOne job_id since.jobs
          → find (has_job_id job_id) since.jobs ≡ some (claimed now worker_id job)
          → claim later job_id other_id since ≡ (err row_not_found, since))
unfolding claim
claim-claim now later job_id worker_id other_id db job h one given =
    elim (Option-cases (find (claims now job_id) db.jobs)) [
      | inl none_found ↦ cc (rw none_found at given)
      | inr found ↦
          let own : found.0 ≡ job = cc (rw (found.1) at given) in
          let here : find (claims now job_id) db.jobs ≡ some job = found.1 ∙ ap some own in
          (
            ((and-eq-true_iff _ _).0 (find_sound (claims now job_id) db.jobs here)).1,
            rw here (claimed_row now later job_id worker_id db.jobs job one here),
            rw here (rw (claimed_once now later job_id worker_id h db.jobs job one here)),
            λ since only kept. rw (
                only_row later job_id since.jobs (claimed now worker_id job) only kept
                  (claimed_locked now later worker_id job h)),
          )
    ]
