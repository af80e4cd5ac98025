-- ===== src/Api/Webhooks/Answers.antt =====
-- How `store_webhook_payload` answers: with the raw event of the delivery, or with the error of a
-- statement that the database refused.
use revtern.Prelude.{String, Bool, true, false, none, some, ◌≡◌, refl, inl, inr, Option-cases}
use revtern.Runtime.{Runtime}
use revtern.Core.{new_id}
use revtern.Jobs.Tables.{Db}
use revtern.Jobs.Exec
use revtern.Jobs.Exec.{Exec, Result, ok, err, Error, draw_id}
use revtern.Jobs.Queue.{error_text, enqueue_normalization, process_normalization_job}
use revtern.Api.Http.{Outside}
use revtern.Api.Handler.{ApiError, Handler}
use revtern.Api.Preserves.{Yields, Yields-pass, Yields-fail, Yields-bind}
use revtern.Api.Webhooks.{
  Course, Statement, activate_source, enqueue_job, fail_raw_event, fail_source, refused, execute,
  or_fail, StoredWebhookPayload, update_source, active_source, broken_source, fail_raw,
  record_outcome, normalize_stored, finish_delivery, after_insert,
}

-- The error is that of a statement that the database refused.
pub record IsRefusal (course : Course) (e : ApiError) : Type 0 where
  pub statement : Statement
  pub text : String
  pub is_refused : course.refusal statement ≡ some text
  pub is_error : e ≡ refused statement text

abbrev Anything : {A : Type 0} → A → Type 0
Anything a = Unit

module _ {V A : Type 0} {Q : A → Type 0} (course : Course) (statement : Statement) where
  pub execute-Yields :
      (m : Handler (Db V) A)
      → Yields Q (IsRefusal course) m
      → Yields Q (IsRefusal course) (execute course statement m)
  execute-Yields m answers = elim (Option-cases (course.refusal statement)) [
    | inl accepted ↦ rw accepted answers
    | inr (text, refusal) ↦ rw refusal (
        Yields-fail (refused statement text)
          (record { statement = statement; text = text; is_refused = refusal; is_error = refl }))
  ]

-- The answer names the row and says whether it is new.
pub record Names (id : String) (inserted : Bool) (stored : StoredWebhookPayload) : Type 0 where
  pub named : stored.raw_event_id ≡ id
  pub is_new : stored.inserted ≡ inserted

module _ (rt : Runtime) (out : Outside rt.Value) (course : Course) where
  open rt use {Value}

  module _ (source_id : String) where
    write_answers :
        {Q : Unit {0} → Type 0} (id text : String)
        → Q tt
        → Yields {S = Db Value} Q (IsRefusal course) (fail_raw id text)
          × Yields {S = Db Value} Q
              (IsRefusal course)
              (update_source source_id (broken_source text))
          × Yields {S = Db Value} Q
              (IsRefusal course)
              (update_source source_id (active_source course.now))
    unfolding fail_raw update_source
    write_answers id text q = (
      Yields-pass _ (λ s. tt) (λ s. refl) (λ s. q),
      Yields-pass _ (λ s. tt) (λ s. refl) (λ s. q),
      Yields-pass _ (λ s. tt) (λ s. refl) (λ s. q),
    )

    record_outcome_answers :
        (id : String) (r : Result (Unit {0}))
        → Yields Anything (IsRefusal course) (record_outcome rt out course source_id id r)
    unfolding record_outcome
    record_outcome_answers id (ok done) = Yields-pass _ (λ s. none) (λ s. refl) (λ s. tt)
    record_outcome_answers id (err e) =
        let (raw, source, active) = write_answers {Q = Anything} id (error_text rt e) tt in
        Yields-bind {Q = Anything} _ _ (execute-Yields course fail_raw_event _ raw) λ u q.
          Yields-bind {Q = Anything} _ _ (execute-Yields course fail_source _ source)
            λ v r. Yields-pass _ (λ s. some (error_text rt e)) (λ s. refl) (λ s. tt)

    enqueued_answers :
        (id : String)
        → Yields Anything
            (IsRefusal course)
            (or_fail (error_text rt) (enqueue_normalization rt course.now id))
    unfolding enqueue_normalization draw_id Exec.◌>>=◌
    enqueued_answers id = Yields-pass _ (λ s. new_id rt s.ids_drawn "job") (λ s. refl) (λ s. tt)

    finish_delivery_answers :
        (id : String) (inserted : Bool)
        → Yields
            (Names id inserted)
            (IsRefusal course)
            (finish_delivery rt out course source_id (id, inserted))
    unfolding finish_delivery normalize_stored
    finish_delivery_answers id false =
        Yields-pass _ (λ s. _) (λ s. refl) (λ s. record { named = refl; is_new = refl })
    finish_delivery_answers id true =
        Yields-bind {Q = Anything} _ _ (execute-Yields course enqueue_job _ (enqueued_answers id))
          λ job_id q.
            Yields-bind {Q = Anything} _ _
              (Yields-pass _
                (λ s.
                  (process_normalization_job rt course.job_now course.job_clock job_id "api-inline"
                    s).0)
                (λ s. refl) (λ s. tt))
              λ result r.
                Yields-bind {Q = Anything} _ _ (record_outcome_answers id result) λ error o.
                  Yields-pass _ (λ s. _) (λ s. refl) (λ s. record { named = refl; is_new = refl })

    pub after_insert_answers :
        (id : String) (inserted : Bool)
        → Yields
            (Names id inserted)
            (IsRefusal course)
            (after_insert rt out course source_id (id, inserted))
    after_insert_answers id inserted =
        let (raw, source, active) = write_answers {Q = Anything} id "" tt in
        Yields-bind {Q = Anything} _ _ (execute-Yields course activate_source _ active)
          λ u q. finish_delivery_answers id inserted
