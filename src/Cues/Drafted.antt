-- ===== src/Cues/Drafted.antt =====
-- What a creation that is not refused has passed.
use cueapi_core.Prelude.{
  ℕ, ◌≡◌, refl, ap, Bool, true, false, not, ◌||◌, String, ◌==◌, nat_eq, ltb, is_some, or_else,
  count_where, first_where,
}
use cueapi_core.Store.{Cue, Db, Transport, transport_eq}
use cueapi_core.Executions.Answer.{answered}
use cueapi_core.Cues.{
  Outside, Caller, CueCreate, Plan, check, check_payload, plan_of, new_cue, draft_cue, counts,
  has_name, is_safe_escalation,
}
use cueapi_core.Cues.Answers.{>>=-answered, answered-injective}

check-holds :
    (b ok : Bool) (status : ℕ) (code : String) → check b status code ≡ answered ok → b ≡ true
check-holds true ok status code h = refl
check-holds false ok status code h = cc

pub record Drafted (out : Outside) (now i : ℕ) (user : Caller) (body : CueCreate) (db : Db)
    (c : Cue) : Type 0 where
  pub payload : String
  pub plan : Plan
  pub planned : plan_of out now body.schedule ≡ answered plan
  pub row : new_cue now i user.id body payload plan ≡ c
  pub within :
      (user.quota_disabled || ltb (count_where (counts user.id) db.cues) user.active_cue_limit)
      ≡ true

pub draft_cue-Drafted :
    (out : Outside) (now i : ℕ) (user : Caller) (body : CueCreate) (db : Db) (warning : Bool)
    (c : Cue)
    → draft_cue out now i user body db ≡ answered (warning, c)
    → Drafted out now i user body db c
unfolding draft_cue
draft_cue-Drafted out now i user body db warning c h =
    let fresh = not (is_some (first_where (has_name user.id body.name) db.cues)) in
    let limit =
      user.quota_disabled || ltb (count_where (counts user.id) db.cues) user.active_cue_limit in
    let safe = body.transport == Transport.worker || out.is_safe (or_else body.callback.url "") in
    let zone = out.is_timezone body.schedule.timezone in
    let escalates = is_safe_escalation out body.on_failure in
    let (b₁, e₁, r₁) = >>=-answered (check fresh 409 "duplicate_cue_name") _ (warning, c) h in
    let (b₂, e₂, r₂) = >>=-answered (check limit 403 "cue_limit_exceeded") _ (warning, c) r₁ in
    let (b₃, e₃, r₃) = >>=-answered (check safe 400 "invalid_callback_url") _ (warning, c) r₂ in
    let (payload, e₄, r₄) = >>=-answered (check_payload out body.payload) _ (warning, c) r₃ in
    let (b₅, e₅, r₅) = >>=-answered (check zone 422 "invalid_timezone") _ (warning, c) r₄ in
    let (plan, e₆, r₆) = >>=-answered (plan_of out now body.schedule) _ (warning, c) r₅ in
    let (b₇, e₇, r₇) =
      >>=-answered (check escalates 400 "invalid_callback_url") _ (warning, c) r₆ in
    record {
      payload = payload;
      plan = plan;
      planned = e₆;
      row = ap (λ (p : Bool × Cue). p.1) (answered-injective _ (warning, c) r₇);
      within = check-holds limit b₂ 403 "cue_limit_exceeded" e₂;
    }
