-- ===== src/Cues/Limit.antt =====
-- The limit on active cues.
use cueapi_core.Prelude.{
  ◌||◌, not, ℕ, ◌+◌, ◌≤◌, ◌≡◌, ap, Bool, true, false, List, [], ◌∷◌, ◌++◌, ltb, is_some,
  count_where, first_where, Bool-cases, inl, inr, arith,
}
use cueapi_core.Store.{Cue, Db}
use cueapi_core.Executions.Answer.{Answer, refused, answered}
use cueapi_core.Cues.{
  Outside, Caller, CueCreate, draft_cue, insert_cue, create_cue, counts, has_name,
  is_callback_method,
}
use cueapi_core.Cues.Answers.{refused_ne, answered-injective}
use cueapi_core.Cues.Drafted.{draft_cue-Drafted}

count_where-append {ℓ} :
    {A : Type ℓ} (p : A → Bool) (t : List A) (x : A)
    → count_where p (t ++ x ∷ []) ≤ count_where p t + 1
unfolding count_where
count_where-append p [] x = ground arith
count_where-append p (y ∷ t) x = ground (arith, count_where-append p t x)

-- An insertion that is answered with a row has added it.
pub insert_cue-adds :
    (draft : Answer (Bool × Cue)) (db : Db) (r : Bool × Cue)
    → (insert_cue draft db).0 ≡ answered r
    → (draft ≡ answered r) × ((insert_cue draft db).1.cues ≡ db.cues ++ r.1 ∷ [])
unfolding insert_cue
insert_cue-adds (refused status code) db r h = absurd (refused_ne status code r h)
insert_cue-adds (answered (warning, c)) db r h =
    elim (Bool-cases (
      is_some (first_where (has_name c.user_id c.name) db.cues)
      || not (is_callback_method c.callback_method))) [
        | inl taken ↦ absurd (refused_ne 409 "duplicate_cue_name" r (rw taken at h))
        | inr fresh ↦ (
          rw fresh at h,
          rw fresh (
              ap (λ (p : Bool × Cue). db.cues ++ p.1 ∷ [])
                (answered-injective (warning, c) r (rw fresh at h))),
        )
      ]

-- Where quotas are enforced and nobody else commits in between, a creation that is answered with a cue leaves
-- the user with no more active and paused cues than the limit.
pub create_cue_within_limit :
    (out : Outside) (now i : ℕ) (user : Caller) (body : CueCreate) (db : Db) (r : Bool × Cue)
    → user.quota_disabled ≡ false
    → (create_cue out now i user body db db).0 ≡ answered r
    → count_where (counts user.id) (create_cue out now i user body db db).1.cues
      ≤ user.active_cue_limit
unfolding create_cue
create_cue_within_limit out now i user body db r enforced h =
    let (drafted, added) = insert_cue-adds (draft_cue out now i user body db) db r h in
    let d = draft_cue-Drafted out now i user body db r.0 r.1 drafted in
    let within : ltb (count_where (counts user.id) db.cues) user.active_cue_limit ≡ true =
      rw enforced at d.within in
    rw added (ground (arith, count_where-append (counts user.id) db.cues r.1))
