-- ===== src/Cues/Updated.antt =====
-- What an update leaves of a cue that can run.
use cueapi_core.Prelude.{
  ℕ, ◌≡◌, refl, ap, subst, ◌∙◌, Bool, not, ◌&&◌, String, Option, none, some, ◌==◌, string_eq,
  is_some, or_else, Bool-cases, either_case, inl, inr, arith,
}
use cueapi_core.Store.{
  cue_eq, schedule_eq, Transport, transport_eq, OnFailure, VerificationMode, Cue, cue_keyed, truthy,
}
use cueapi_core.Executions.Answer.{Answer, refused, answered}
use cueapi_core.Cues.{
  Outside, ScheduleCreate, Plan, CallbackCreate, RetryConfig, check_payload, check,
  is_safe_escalation,
}
use cueapi_core.Cues.Documents.{Json}
use cueapi_core.Cues.Update.{
  CueUpdate, StatusChange, pause, resume, with_callback, with_payload, with_on_failure,
  with_schedule, with_plan, with_status, planned, resumed_run, updated_cue, with_texts, with_retry,
  with_verification,
}
use cueapi_core.Cues.Answers.{refused_ne, >>=-answered, answered-injective}
use cueapi_core.Cues.Planned.{
  IsPlanned, plan_recurring-PlanHolds, plan_once-PlanHolds, recurring-IsPlanned, once-IsPlanned,
}

with_plan-planned :
    (timezone : String) (c d : Cue) (m : Answer Plan)
    → with_plan timezone c m ≡ answered d
    → (p : Plan) × (m ≡ answered p) × (planned timezone p c ≡ d)
with_plan-planned timezone c d (refused status code) h = absurd (refused_ne status code d h)
with_plan-planned timezone c d (answered p) h = (p, refl, answered-injective _ d h)

with_schedule-IsPlanned :
    (out : Outside) (now : ℕ) (o : Option ScheduleCreate) (c d : Cue)
    → IsPlanned c
    → with_schedule out now o c ≡ answered d
    → IsPlanned d
unfolding with_schedule
with_schedule-IsPlanned out now none c d planned_c h =
    subst IsPlanned (answered-injective c d h) planned_c
with_schedule-IsPlanned out now (some s) c d planned_c h =
    elim (Bool-cases (not (out.is_timezone s.timezone))) [
      | inl bad ↦ absurd (refused_ne _ _ d (rw bad at h))
      | inr good ↦
          let h₁ = rw good at h in
          elim (Bool-cases (s.schedule_type == "recurring")) [
            | inl yes_recurring ↦
                let (p, plan, same) = with_plan-planned s.timezone c d _ (rw yes_recurring at h₁) in
                let (cron, kind, column) = plan_recurring-PlanHolds out now s s.cron p plan in
                subst IsPlanned same (
                  recurring-IsPlanned (planned s.timezone p c) kind
                    (ap (λ o. truthy o) column ∙ cron) refl)
            | inr other ↦
                let h₂ = rw other at h₁ in
                elim (Bool-cases (s.schedule_type == "once")) [
                  | inl yes_once ↦
                      let (p, plan, same) =
                        with_plan-planned s.timezone c d _ (rw yes_once at h₂) in
                      let (kind, at) =
                        plan_once-PlanHolds now (record s { cron = none }) s.at p plan in
                      subst IsPlanned same (once-IsPlanned (planned s.timezone p c) kind at)
                  | inr neither ↦
                      subst IsPlanned (answered-injective c d (rw neither at h₂)) planned_c
                ]
          ]
    ]

with_status-IsPlanned :
    (out : Outside) (now : ℕ) (o : Option StatusChange) (c : Cue)
    → IsPlanned c
    → IsPlanned (with_status out now o c)
unfolding with_status resumed_run
with_status-IsPlanned out now none c h = h
with_status-IsPlanned out now (some pause) c h = (h.0, refl)
with_status-IsPlanned out now (some resume) c h = (h.0, ground arith)

with_callback-IsPlanned :
    (out : Outside) (o : Option CallbackCreate) (c d : Cue)
    → IsPlanned c
    → with_callback out o c ≡ answered d
    → IsPlanned d
unfolding with_callback
with_callback-IsPlanned out none c d h e = subst IsPlanned (answered-injective c d e) h
with_callback-IsPlanned out (some callback) c d h e =
    either_case (λ m. m ≡ answered d → IsPlanned d)
      (c.callback_transport == Transport.webhook
        && is_some callback.url
        && not (out.is_safe (or_else callback.url "")))
      _ _ (λ bad m. absurd (refused_ne _ _ d m))
      (λ good m. subst IsPlanned (answered-injective _ d m) h) e

with_payload-IsPlanned :
    (out : Outside) (o : Option Json) (c d : Cue)
    → IsPlanned c
    → with_payload out o c ≡ answered d
    → IsPlanned d
unfolding with_payload
with_payload-IsPlanned out none c d h e = subst IsPlanned (answered-injective c d e) h
with_payload-IsPlanned out (some payload) c d h e =
    let (stored, first, rest) =
      >>=-answered (check_payload out payload)
        (λ (stored : String). answered (record c { payload = some stored })) d e in
    subst IsPlanned (answered-injective _ d rest) h

with_on_failure-IsPlanned :
    (out : Outside) (o : Option OnFailure) (c d : Cue)
    → IsPlanned c
    → with_on_failure out o c ≡ answered d
    → IsPlanned d
unfolding with_on_failure
with_on_failure-IsPlanned out none c d h e = subst IsPlanned (answered-injective c d e) h
with_on_failure-IsPlanned out (some f) c d h e =
    let (ok, first, rest) =
      >>=-answered (check (is_safe_escalation out (some f)) 400 "invalid_callback_url")
        (λ (ok : Bool). answered (record c { on_failure = some f })) d e in
    subst IsPlanned (answered-injective _ d rest) h

with_retry-IsPlanned : (o : Option RetryConfig) (c : Cue) → IsPlanned c → IsPlanned (with_retry o c)
with_retry-IsPlanned none c h = h
with_retry-IsPlanned (some retry) c h = h

with_verification-IsPlanned :
    (o : Option VerificationMode) (c : Cue) → IsPlanned c → IsPlanned (with_verification o c)
with_verification-IsPlanned none c h = h
with_verification-IsPlanned (some mode) c h = h

plain-IsPlanned :
    (body : CueUpdate) (c : Cue)
    → IsPlanned c
    → IsPlanned (with_verification body.verification (with_retry body.retry c))
plain-IsPlanned body c h =
    with_verification-IsPlanned body.verification (with_retry body.retry c)
      (with_retry-IsPlanned body.retry c h)

pub updated_cue-IsPlanned :
    (out : Outside) (now : ℕ) (body : CueUpdate) (c d : Cue)
    → IsPlanned c
    → updated_cue out now body c ≡ answered d
    → IsPlanned d
unfolding updated_cue
updated_cue-IsPlanned out now body c d h e =
    let Kept = λ (m : Answer Cue) (f : Cue → Answer Cue). >>=-answered m f d in
    let (called, e₁, r₁) = Kept (with_callback out body.callback (with_texts body c)) _ e in
    let (loaded, e₂, r₂) = Kept (with_payload out body.payload called) _ r₁ in
    let plain = with_verification body.verification (with_retry body.retry loaded) in
    let (escalated, e₃, r₃) = Kept (with_on_failure out body.on_failure plain) _ r₂ in
    let (scheduled, e₄, r₄) = Kept (with_schedule out now body.schedule escalated) _ r₃ in
    let h₁ = with_callback-IsPlanned out body.callback (with_texts body c) called h e₁ in
    let h₂ = with_payload-IsPlanned out body.payload called loaded h₁ e₂ in
    let h₃ =
      with_on_failure-IsPlanned out body.on_failure plain escalated (plain-IsPlanned body loaded h₂)
        e₃ in
    let h₄ = with_schedule-IsPlanned out now body.schedule escalated scheduled h₃ e₄ in
    subst IsPlanned (answered-injective _ d r₄)
      (with_status-IsPlanned out now body.status scheduled h₄)
