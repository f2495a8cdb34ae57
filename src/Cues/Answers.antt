-- ===== src/Cues/Answers.antt =====
-- Checks in a row: what holds where a request is answered.
use cueapi_core.Prelude.{ℕ, ◌≡◌, refl, String}
use cueapi_core.Executions.Answer.{Answer, refused, answered}
use cueapi_core.Cues.{◌>>=◌}

pub refused_ne {ℓ} :
    {A : Type ℓ} (status : ℕ) (code : String) (a : A)
    → ◌≡◌ {A = Answer A} (refused status code) (answered a)
    → ⊥
refused_ne status code a h = cc

pub >>=-answered {ℓ κ} :
    {A : Type ℓ} {B : Type κ} (m : Answer A) (f : A → Answer B) (b : B)
    → (m >>= f) ≡ answered b
    → (a : A) × (m ≡ answered a) × (f a ≡ answered b)
>>=-answered (answered a) f b h = (a, refl, h)
>>=-answered (refused status code) f b h = absurd (refused_ne status code b h)

pub answered-injective {ℓ} : {A : Type ℓ} (a b : A) → answered a ≡ answered b → a ≡ b
answered-injective a b h = cc
