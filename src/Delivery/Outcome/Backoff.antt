-- ===== src/Delivery/Outcome/Backoff.antt =====
-- The delay before the next attempt: retry_backoff_minutes by attempt, its last entry for the rest.
use cueapi_core.Prelude.{ℕ, ◌-◌, min, List, [], ◌∷◌, ◌==◌, nat_eq, if◌then◌else◌, length}
use cueapi_core.Store.{nth}

-- `xs[min(attempt - 1, len(xs) - 1)] if xs else 1`; Python reads the index -1 of attempt 0 as the
-- last place.
unfoldable pub backoff_for : ℕ → List ℕ → ℕ
backoff_for attempt [] = 1
backoff_for attempt (x ∷ xs) =
    let last = length xs in nth (x ∷ xs) (if attempt == 0 then last else min (attempt - 1) last) 1
