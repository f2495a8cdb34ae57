-- ===== src/Cues/Sound.antt =====
-- The names of cues and the schedules, over any requests.
use cueapi_core.Prelude.{
  ◌||◌, ℕ, ◌≡◌, refl, subst, Bool, All, true, false, not, ◌&&◌, Option, none, some, List, [], ◌∷◌,
  ◌++◌, ◌==◌, nat_eq, string_eq, is_some, if◌then◌else◌, find, passing, none-some, passing-some,
  first_where, where_, update_where, update_row, append-All, where_-keeps, Bool-cases, either_case,
  inl, inr, arith,
}
use cueapi_core.Store.{Cue, Db, cue_keyed}
use cueapi_core.Executions.Answer.{Answer, refused, answered}
use mathlib.Core.Option.{some-injective}
use cueapi_core.Cues.{Outside, draft_cue, insert_cue, create_cue, has_name, is_callback_method}
use cueapi_core.Cues.Update.{
  CueUpdate, updated_cue, commit_cue, update_found, update_cue, is_other, is_owned,
}
use cueapi_core.Cues.Manage.{delete_cue, delete_found, own_cue}
use cueapi_core.Cues.Requests.{Request, created, updated, deleted, serve, serve_all}
use cueapi_core.Cues.Planned.{IsPlanned, new_cue-IsPlanned}
use cueapi_core.Cues.Updated.{updated_cue-IsPlanned}
use cueapi_core.Cues.Drafted.{draft_cue-Drafted}

-- Two rows with different keys and one owner and name.
abbrev pub clash : Cue → Cue → Bool
clash c d = has_name c.user_id c.name d && not (d.id == c.id)

abbrev pub HasUniqueNames : List Cue → Type 0
HasUniqueNames [] = Unit
HasUniqueNames (c ∷ t) = All (λ d. clash c d ≡ false) t × HasUniqueNames t

-- What holds of the table of cues after any requests.
abbrev pub IsSound : List Cue → Type 0
IsSound t = HasUniqueNames t × All IsPlanned t

clash_symm : (c d : Cue) → clash c d ≡ false → clash d c ≡ false
clash_symm c d h =
    ground (arith, string_eq.same_iff c.name d.name, string_eq.same_iff d.name c.name)

clash-same : (c d : Cue) → d.id ≡ c.id → clash c d ≡ false
clash-same c d h = ground arith

none_first :
    (p : Cue → Bool) (t : List Cue) → is_some (first_where p t) ≡ false → All (λ d. p d ≡ false) t
unfolding first_where
none_first p [] h = tt
none_first p (d ∷ t) h = elim (Bool-cases (p d)) [
  | inl hit ↦ absurd (let broken : true ≡ false = rw hit at h in cc)
  | inr miss ↦ (miss, none_first p t (rw miss at h))
]

-- A new row clashes with none.
append-HasUniqueNames :
    (t : List Cue) (c : Cue)
    → HasUniqueNames t
    → All (λ d. clash c d ≡ false) t
    → HasUniqueNames (t ++ c ∷ [])
append-HasUniqueNames [] c h free = (tt, tt)
append-HasUniqueNames (d ∷ t) c h free = (
  append-All (λ x. clash d x ≡ false) t (c ∷ []) h.0 (clash_symm c d free.0, tt),
  append-HasUniqueNames t c h.1 free.1,
)

fresh-clash :
    (c : Cue) (t : List Cue)
    → All (λ d. has_name c.user_id c.name d ≡ false) t
    → All (λ d. clash c d ≡ false) t
fresh-clash c [] h = tt
fresh-clash c (d ∷ t) h = (rw h.0 refl, fresh-clash c t h.1)

abbrev replaced : Cue → Cue → Cue
replaced c d = if d.id == c.id then c else d

-- The row that an update commits in place of the old one.
replaced-clash :
    (c x y : Cue)
    → clash c x ≡ false
    → clash c y ≡ false
    → clash x y ≡ false
    → clash (replaced c x) (replaced c y) ≡ false
replaced-clash c x y cx cy xy = elim (Bool-cases (x.id == c.id)) [
  | inl own ↦ rw own (elim (Bool-cases (y.id == c.id)) [
    | inl same ↦ rw same (clash-same c c refl)
    | inr other ↦ rw other cy
  ])
  | inr other ↦ rw other (elim (Bool-cases (y.id == c.id)) [
    | inl same ↦ rw same (clash_symm c x cx)
    | inr apart ↦ rw apart xy
  ])
]

replace-clash :
    (c x : Cue) (t : List Cue)
    → clash c x ≡ false
    → All (λ d. clash c d ≡ false) t
    → All (λ d. clash x d ≡ false) t
    → All (λ d. clash (replaced c x) d ≡ false) (update_where (λ d. d.id == c.id) (λ d. c) t)
unfolding update_where
replace-clash c x [] cx ct xt = tt
replace-clash c x (y ∷ t) cx ct xt =
    (replaced-clash c x y cx ct.0 xt.0, replace-clash c x t cx ct.1 xt.1)

replace-HasUniqueNames :
    (c : Cue) (t : List Cue)
    → HasUniqueNames t
    → All (λ d. clash c d ≡ false) t
    → HasUniqueNames (update_where (λ d. d.id == c.id) (λ d. c) t)
unfolding update_where
replace-HasUniqueNames c [] h free = tt
replace-HasUniqueNames c (x ∷ t) h free =
    (replace-clash c x t free.0 free.1 h.0, replace-HasUniqueNames c t h.1 free.1)

replace-IsPlanned :
    (c : Cue) (t : List Cue)
    → IsPlanned c
    → All IsPlanned t
    → All IsPlanned (update_where (λ d. d.id == c.id) (λ d. c) t)
unfolding update_where
replace-IsPlanned c [] p h = tt
replace-IsPlanned c (x ∷ t) p h = (
  either_case IsPlanned (x.id == c.id) c x (λ own. p) (λ other. h.0),
  replace-IsPlanned c t p h.1,
)

keep-HasUniqueNames :
    (q : Cue → Bool) (t : List Cue) → HasUniqueNames t → HasUniqueNames (where_ q t)
unfolding where_
keep-HasUniqueNames q [] h = tt
keep-HasUniqueNames q (x ∷ t) h = elim (Bool-cases (q x)) [
  | inl hit ↦ rw hit (where_-keeps (λ d. clash x d ≡ false) q t h.0, keep-HasUniqueNames q t h.1)
  | inr miss ↦ rw miss (keep-HasUniqueNames q t h.1)
]

not_either : (a b : Bool) → (a || b) ≡ false → a ≡ false
not_either true b h = h
not_either false b h = refl

insert_cue-IsSound :
    (draft : Answer (Bool × Cue)) (db : Db)
    → ((r : Bool × Cue) → draft ≡ answered r → IsPlanned r.1)
    → IsSound db.cues
    → IsSound (insert_cue draft db).1.cues
unfolding insert_cue
insert_cue-IsSound (refused status code) db planned h = h
insert_cue-IsSound (answered (warning, c)) db planned h =
    either_case (λ (r : Answer (Bool × Cue) × Db). IsSound r.1.cues)
      (is_some (first_where (has_name c.user_id c.name) db.cues)
        || not (is_callback_method c.callback_method))
      _ _ (λ taken. h)
      (λ fresh. (
        append-HasUniqueNames db.cues c h.0 (
            fresh-clash c db.cues
              (none_first (has_name c.user_id c.name) db.cues (not_either _ _ fresh))),
        append-All IsPlanned db.cues (c ∷ []) h.1 (planned (warning, c) refl, tt),
      ))

commit_cue-IsSound :
    (m : Answer Cue) (db : Db)
    → ((c : Cue) → m ≡ answered c → IsPlanned c)
    → IsSound db.cues
    → IsSound (commit_cue m db).1.cues
unfolding commit_cue update_row
commit_cue-IsSound (refused status code) db planned h = h
commit_cue-IsSound (answered c) db planned h =
    either_case (λ (r : Answer Cue × Db). IsSound r.1.cues)
      (is_some (first_where (is_other c) db.cues) || not (is_callback_method c.callback_method)) _ _
      (λ taken. h)
      (λ free. (
        replace-HasUniqueNames c db.cues h.0
            (none_first (is_other c) db.cues (not_either _ _ free)),
        replace-IsPlanned c db.cues (planned c refl) h.1,
      ))

update_found-IsSound :
    (out : Outside) (now : ℕ) (body : CueUpdate) (o : Option Cue) (db : Db)
    → ((c : Cue) → o ≡ some c → IsPlanned c)
    → IsSound db.cues
    → IsSound (update_found out now body o db).1.cues
unfolding update_found
update_found-IsSound out now body none db planned h = h
update_found-IsSound out now body (some c) db planned h =
    commit_cue-IsSound (updated_cue out now body c) db
      (λ d e. updated_cue-IsPlanned out now body c d (planned c refl) e) h

find-IsPlanned :
    (i : ℕ) (t : List Cue) (c : Cue) → All IsPlanned t → find i t ≡ some c → IsPlanned c
unfolding find
find-IsPlanned i [] c h e = absurd (none-some c e)
find-IsPlanned i (d ∷ t) c h e = elim (Bool-cases (d.id == i)) [
  | inl own ↦ subst IsPlanned (some-injective d c (rw own at e)) h.0
  | inr other ↦ find-IsPlanned i t c h.1 (rw other at e)
]

delete_found-IsSound :
    (i : ℕ) (o : Option Cue) (db : Db) → IsSound db.cues → IsSound (delete_found i o db).1.cues
unfolding delete_found
delete_found-IsSound i none db h = h
delete_found-IsSound i (some c) db h = (
  keep-HasUniqueNames (λ d. not (d.id == i)) db.cues h.0,
  where_-keeps IsPlanned (λ d. not (d.id == i)) db.cues h.1,
)

serve-IsSound : (r : Request) (db : Db) → IsSound db.cues → IsSound (serve r db).cues
unfolding create_cue update_cue delete_cue
serve-IsSound (created out now i user body seen) db h =
    insert_cue-IsSound (draft_cue out now i user body seen) db
      (λ r e.
        let d = draft_cue-Drafted out now i user body seen r.0 r.1 e in
        subst IsPlanned d.row (new_cue-IsPlanned out now i user.id body d.payload d.plan d.planned))
      h
serve-IsSound (updated out now user i body) db h =
    update_found-IsSound out now body (passing (is_owned user) (find i db.cues)) db
      (λ c e. find-IsPlanned i db.cues c h.1 (passing-some (is_owned user) (find i db.cues) c e).0)
      h
serve-IsSound (deleted user i) db h = delete_found-IsSound i (own_cue user i db) db h

-- Whatever creations, updates and deletions come, in whatever order and with creations whose reads are out of
-- date: no two cues of a user share a name, each recurring cue has its expression and each one-time cue its
-- time, and each active recurring cue has a next run, if that is so at first.
pub serve_all-IsSound :
    (rs : List Request) (db : Db) → IsSound db.cues → IsSound (serve_all rs db).cues
serve_all-IsSound [] db h = h
serve_all-IsSound (r ∷ rs) db h = serve-IsSound r (serve_all rs db) (serve_all-IsSound rs db h)
