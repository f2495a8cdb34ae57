-- ===== src/Cues/Documents.antt =====
-- JSON documents, and _contains_null_byte of services/cue_service.py.
use Prim.Native.String.{[], ◌∷◌}
use Prim.Native.Char.{code}
use cueapi_core.Prelude.{Bool, false, ◌||◌, String, ◌==◌, nat_eq}

-- A number, true, false and null hold no text.
mutual
  pub data Json : Type 0 where
    scalar : String → Json
    text : String → Json
    array : Items → Json
    object : Fields → Json

  pub data Items : Type 0 where
    no_items : Items
    item : Json → Items → Items

  pub data Fields : Type 0 where
    no_fields : Fields
    field : String → Json → Fields → Fields

-- `"\x00" in t`
unfoldable pub has_null : String → Bool
has_null [] = false
has_null (c ∷ t) = code c == 0 || has_null t

unfoldable mutual
  unfolding has_null

  pub contains_null_byte : Json → Bool
  contains_null_byte (scalar t) = false
  contains_null_byte (text t) = has_null t
  contains_null_byte (array xs) = items_contain_null_byte xs
  contains_null_byte (object fs) = fields_contain_null_byte fs

  pub items_contain_null_byte : Items → Bool
  items_contain_null_byte no_items = false
  items_contain_null_byte (item x xs) = contains_null_byte x || items_contain_null_byte xs

  pub fields_contain_null_byte : Fields → Bool
  fields_contain_null_byte no_fields = false
  fields_contain_null_byte (field k v fs) =
      has_null k || contains_null_byte v || fields_contain_null_byte fs
