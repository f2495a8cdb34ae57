-- ===== src/Cues/Requests.antt =====
-- The requests that write cues, one after another.
use cueapi_core.Prelude.{ℕ, List, [], ◌∷◌}
use cueapi_core.Store.{Db}
use cueapi_core.Cues.{Outside, Caller, CueCreate, create_cue}
use cueapi_core.Cues.Update.{CueUpdate, update_cue}
use cueapi_core.Cues.Manage.{delete_cue}

-- A creation comes with the tables that its SELECTs have seen, which may be out of date.
pub data Request : Type 0 where
  created : Outside → ℕ → ℕ → Caller → CueCreate → Db → Request
  updated : Outside → ℕ → ℕ → ℕ → CueUpdate → Request
  deleted : ℕ → ℕ → Request

abbrev pub serve : Request → Db → Db
serve (created out now i user body seen) db = (create_cue out now i user body seen db).1
serve (updated out now user i body) db = (update_cue out now user i body db).1
serve (deleted user i) db = (delete_cue user i db).1

-- The last one first.
abbrev pub serve_all : List Request → Db → Db
serve_all [] db = db
serve_all (r ∷ rs) db = serve r (serve_all rs db)
