-- ===== src/Store/Text.antt =====
-- Python's slices of texts.
use Prim.Native.Nat.{ℕ, zero, suc}
use Prim.Native.String.{String, [], ◌∷◌}

-- `t[:n]`
unfoldable pub clip : ℕ → String → String
clip zero t = ""
clip (suc n) [] = ""
clip (suc n) (c ∷ t) = c ∷ clip n t
