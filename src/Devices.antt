-- ===== src/Devices.antt =====
-- services/device_code_service.py: the device flow. Random tokens and keys are arguments, the email
-- with the link leaves the server, and `decrypt` stands for decrypt_api_key.
pub mod Handout
use mathlib.Core.Option
use cueapi_core.Prelude.{
  ℕ, ◌+◌, Bool, true, false, not, ◌&&◌, ◌||◌, String, Option, none, some, List, [], ◌∷◌, ◌++◌, ◌==◌,
  nat_eq, string_eq, nat_beq, Testable, ◌≡◌, ◌↔◌, Keyed, if◌then◌else◌, or_else, is_some, ltb,
  first_where, where_, update_row, find, arith,
}
use cueapi_core.Store.{truthy, seconds}
use cueapi_core.Executions.Answer.{Answer, refused, answered}

pub data CodeStatus : Type 0 where
  pending email_sent approved claimed expired : CodeStatus

abbrev code_rank : CodeStatus → ℕ
code_rank CodeStatus.pending = 0
code_rank CodeStatus.email_sent = 1
code_rank CodeStatus.approved = 2
code_rank CodeStatus.claimed = 3
code_rank CodeStatus.expired = 4

pub code_rank_iff : (a b : CodeStatus) → (nat_beq (code_rank a) (code_rank b) ≡ true) ↔ (a ≡ b)
code_rank_iff a b = ground arith

instance abbrev pub code_eq : Testable CodeStatus
code_eq = record { same = λ a b. nat_beq (code_rank a) (code_rank b); same_iff = code_rank_iff }

-- device_codes
pub record DeviceCode : Type 0 where
  pub id : ℕ
  pub device_code : String
  pub status : CodeStatus
  pub email : Option String
  pub verification_token : Option String
  pub session_token : Option String
  pub api_key_plaintext : Option String
  pub user_id : Option ℕ
  pub expires_at : ℕ

-- The columns of users that the flow reads and writes.
pub record Account : Type 0 where
  pub id : ℕ
  pub email : String
  pub api_key_encrypted : Option String

pub record Devices : Type 0 where
  pub device_codes : List DeviceCode
  pub accounts : List Account
  pub next_code_id : ℕ
  pub next_user_id : ℕ

instance abbrev pub device_keyed : Keyed DeviceCode
device_keyed = record { key = λ r. r.id }

instance abbrev pub account_keyed : Keyed Account
account_keyed = record { key = λ r. r.id }

abbrev pub is_code : String → DeviceCode → Bool
is_code code d = d.device_code == code

unfoldable pub code_row : String → Devices → Option DeviceCode
code_row code db = first_where (is_code code) db.device_codes

abbrev pub update_code : ℕ → (DeviceCode → DeviceCode) → Devices → Devices
update_code i f db = record db { device_codes = update_row i f db.device_codes }

-- A code that has not expired and is neither expired nor claimed is in use.
abbrev pub in_use : ℕ → DeviceCode → Bool
in_use now d =
    ltb now d.expires_at && not (d.status == CodeStatus.expired || d.status == CodeStatus.claimed)

abbrev pub new_code : ℕ → String → Devices → DeviceCode
new_code now code db = record {
  id = db.next_code_id;
  device_code = code;
  status = CodeStatus.pending;
  email = none;
  verification_token = none;
  session_token = none;
  api_key_plaintext = none;
  user_id = none;
  expires_at = now + seconds 900;
}

abbrev pub add_code : ℕ → String → Devices → Devices
add_code now code db = record db {
  device_codes = db.device_codes ++ new_code now code db ∷ [];
  next_code_id = db.next_code_id + 1;
}

abbrev pub remove_code : ℕ → Devices → Devices
remove_code i db = record db { device_codes = where_ (λ d. not (d.id == i)) db.device_codes }

-- The answer is expires_in.
unfoldable pub create_device_code : ℕ → String → Devices → Answer ℕ × Devices
create_device_code now code db = elim (code_row code db) [
  | none ↦ (answered 900, add_code now code db)
  | some d ↦
      if in_use now d
      then (refused 409 "device_code_exists", db)
      else (answered 900, add_code now code (remove_code d.id db))
]

-- What a poll tells: the status, or the approval with email, session token and key; without a key
-- the user is an existing one.
pub data Polled : Type 0 where
  told : CodeStatus → Polled
  handed_out : Option String → Option String → Option String → Polled

abbrev pub code_expired : DeviceCode → DeviceCode
code_expired d = record d { status = CodeStatus.expired }

abbrev pub code_claimed : DeviceCode → DeviceCode
code_claimed d = record d { status = CodeStatus.claimed }

abbrev pub key_claimed : DeviceCode → DeviceCode
key_claimed d = record d { status = CodeStatus.claimed; api_key_plaintext = none }

-- The key of an existing user, if it can be decrypted.
abbrev pub stored_key : (String → Option String) → Option ℕ → Devices → Option String
stored_key decrypt none db = none
stored_key decrypt (some i) db = elim (find i db.accounts) [
  | none ↦ none
  | some u ↦ if truthy u.api_key_encrypted then Option.bind u.api_key_encrypted decrypt else none
]

unfoldable pub approve : (String → Option String) → DeviceCode → Devices → Polled × Devices
approve decrypt d db =
    if truthy d.api_key_plaintext
    then (handed_out d.api_key_plaintext d.email d.session_token, update_code d.id key_claimed db)
    else (
      handed_out (stored_key decrypt d.user_id db) d.email d.session_token,
      update_code d.id code_claimed db,
    )

abbrev pub is_settled : CodeStatus → Bool
is_settled s = s == CodeStatus.expired || s == CodeStatus.claimed || s == CodeStatus.approved

unfoldable pub poll_row :
    (String → Option String) → ℕ → Option DeviceCode → Devices → Polled × Devices
poll_row decrypt now none db = (told CodeStatus.expired, db)
poll_row decrypt now (some d) db =
    if ltb d.expires_at now
    then (
      told CodeStatus.expired,
      if is_settled d.status then db else update_code d.id code_expired db,
    )
    else if d.status == CodeStatus.approved
    then approve decrypt d db
    else (told d.status, db)

abbrev pub poll_device_code : (String → Option String) → ℕ → String → Devices → Polled × Devices
poll_device_code decrypt now code db = poll_row decrypt now (code_row code db) db

abbrev pub code_sent : String → String → DeviceCode → DeviceCode
code_sent email token d = record d {
  email = some email;
  verification_token = some token;
  status = CodeStatus.email_sent;
}

unfoldable pub submit_email : ℕ → String → String → String → Devices → Answer CodeStatus × Devices
submit_email now code email token db = elim (code_row code db) [
  | none ↦ (refused 404 "device_code_not_found", db)
  | some d ↦
      if ltb d.expires_at now
      then (refused 400 "device_code_expired", db)
      else if not (d.status == CodeStatus.pending)
      then (refused 400 "invalid_status", db)
      else (answered CodeStatus.email_sent, update_code d.id (code_sent email token) db)
]

-- The answer to the link: an error, or whether the user was there before, with the email and the key of
-- a new user.
pub data Verified : Type 0 where
  rejected : String → Verified
  verified : Bool → Option String → Option String → Verified

abbrev pub code_approved : Option String → String → ℕ → DeviceCode → DeviceCode
code_approved key session user d = record d {
  api_key_plaintext = key;
  status = CodeStatus.approved;
  verification_token = none;
  session_token = some session;
  user_id = some user;
}

abbrev pub has_email : Option String → Account → Bool
has_email none u = false
has_email (some e) u = u.email == e

abbrev pub add_account : Option String → Option String → Devices → Devices
add_account email encrypted db = record db {
  accounts =
      db.accounts
      ++ record { id = db.next_user_id; email = or_else email ""; api_key_encrypted = encrypted }
        ∷ [];
  next_user_id = db.next_user_id + 1;
}

-- `dc.verification_token != token`
abbrev pub same_text : Option String → String → Bool
same_text none t = false
same_text (some s) t = s == t

-- The key of an existing user is not changed. `session`, `api_key` and `encrypted` are the fresh ones.
unfoldable pub verify_row :
    String → String → Option String → DeviceCode → Devices → Verified × Devices
verify_row session api_key encrypted d db = elim (first_where (has_email d.email) db.accounts) [
  | some u ↦ (verified true d.email none, update_code d.id (code_approved none session u.id) db)
  | none ↦ (
    verified false d.email (some api_key),
    update_code d.id (code_approved (some api_key) session db.next_user_id)
        (add_account d.email encrypted db),
  )
]

unfoldable pub verify_token :
    ℕ → String → String → String → String → Option String → Devices → Verified × Devices
verify_token now token code session api_key encrypted db = elim (code_row code db) [
  | none ↦ (rejected "Device code not found", db)
  | some d ↦
      if ltb d.expires_at now
      then (rejected "Device code expired", db)
      else if not (d.status == CodeStatus.email_sent)
      then (rejected "Invalid device code status", db)
      else if not (same_text d.verification_token token)
      then (rejected "Invalid verification token", db)
      else verify_row session api_key encrypted d db
]
