-- ===== src/Cues/Planned.antt =====
-- What a cue needs to run: a recurring one its expression, a one-time one its time, and a recurring one that is
-- active its next run.
use cueapi_core.Prelude.{
  ℕ, ◌≡◌, refl, ap, sym, leb, Bool, true, not, ◌&&◌, ◌||◌, String, Option, none, some, ◌==◌,
  string_eq, is_some, if◌then◌else◌, Bool-cases, inl, inr, arith,
}
use cueapi_core.Store.{
  CueStatus, cue_eq, ScheduleType, schedule_eq, transport_eq, Cue, cue_keyed, truthy,
}
use cueapi_core.Executions.Answer.{answered}
use cueapi_core.Cues.{
  Outside, CueCreate, ScheduleCreate, Plan, plan_of, plan_recurring, plan_once, new_cue,
}
use cueapi_core.Cues.Answers.{refused_ne, answered-injective}

-- Its schedule is there.
abbrev pub has_schedule : Cue → Bool
has_schedule c =
    if c.schedule_type == ScheduleType.recurring
    then truthy c.schedule_cron
    else is_some c.schedule_at

abbrev pub is_running : Cue → Bool
is_running c = c.status == CueStatus.active && c.schedule_type == ScheduleType.recurring

abbrev pub IsPlanned : Cue → Type 0
IsPlanned c = (has_schedule c ≡ true) × ((not (is_running c) || is_some c.next_run) ≡ true)

-- What a schedule gives.
abbrev PlanHolds : Plan → Type 0
PlanHolds p = (if p.kind == ScheduleType.recurring then truthy p.cron else is_some p.at) ≡ true

pub plan_recurring-PlanHolds :
    (out : Outside) (now : ℕ) (s : ScheduleCreate) (o : Option String) (p : Plan)
    → plan_recurring out now s o ≡ answered p
    → (truthy o ≡ true) × (p.kind ≡ ScheduleType.recurring) × (p.cron ≡ o)
unfolding plan_recurring
plan_recurring-PlanHolds out now s none p h = absurd (refused_ne _ _ p h)
plan_recurring-PlanHolds out now s (some cron) p h =
    elim (Bool-cases (cron == "" || not (out.is_cron cron))) [
      | inl bad ↦ absurd (refused_ne _ _ p (rw bad at h))
      | inr good ↦
          let same = answered-injective _ p (rw good at h) in
          (ground arith, sym (ap (λ (q : Plan). q.kind) same), sym (ap (λ (q : Plan). q.cron) same))
    ]

pub plan_once-PlanHolds :
    (now : ℕ) (s : ScheduleCreate) (o : Option ℕ) (p : Plan)
    → plan_once now s o ≡ answered p
    → (p.kind ≡ ScheduleType.once) × (is_some p.at ≡ true)
unfolding plan_once
plan_once-PlanHolds now s none p h = absurd (refused_ne _ _ p h)
plan_once-PlanHolds now s (some at) p h = elim (Bool-cases (leb at now)) [
  | inl past ↦ absurd (refused_ne _ _ p (rw past at h))
  | inr future ↦
      let same = answered-injective _ p (rw future at h) in
      (sym (ap (λ (q : Plan). q.kind) same), ap (λ (q : Plan). is_some q.at) (sym same))
]

pub recurring-IsPlanned :
    (c : Cue)
    → c.schedule_type ≡ ScheduleType.recurring
    → truthy c.schedule_cron ≡ true
    → is_some c.next_run ≡ true
    → IsPlanned c
recurring-IsPlanned c kind cron next = (rw kind cron, ground arith)

pub once-IsPlanned :
    (c : Cue) → c.schedule_type ≡ ScheduleType.once → is_some c.schedule_at ≡ true → IsPlanned c
once-IsPlanned c kind at = (rw kind at, rw kind (ground arith))

pub new_cue-IsPlanned :
    (out : Outside) (now i user : ℕ) (body : CueCreate) (payload : String) (p : Plan)
    → plan_of out now body.schedule ≡ answered p
    → IsPlanned (new_cue now i user body payload p)
unfolding plan_of new_cue
new_cue-IsPlanned out now i user body payload p h =
    elim (Bool-cases (body.schedule.schedule_type == "recurring")) [
      | inl yes_recurring ↦
          let (cron, kind, column) =
            plan_recurring-PlanHolds out now body.schedule body.schedule.cron p
              (rw yes_recurring at h) in
          recurring-IsPlanned (new_cue now i user body payload p) kind cron refl
      | inr other ↦
          let h' = rw other at h in
          elim (Bool-cases (body.schedule.schedule_type == "once")) [
            | inl yes_once ↦
                let (kind, at) =
                  plan_once-PlanHolds now body.schedule body.schedule.at p (rw yes_once at h') in
                once-IsPlanned (new_cue now i user body payload p) kind at
            | inr neither ↦ absurd (refused_ne _ _ p (rw neither at h'))
          ]
    ]
