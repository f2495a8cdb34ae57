-- ===== src/Tests/Devices.antt =====
-- A new user signs in on a device.
use cueapi_core.Prelude.{
  ◌≡◌, refl, false, String, Option, none, some, [], ◌∷◌, nat_eq, string_eq, if◌then◌else◌,
  first_where, update_where, update_row,
}
use cueapi_core.Store.{truthy}
use cueapi_core.Devices.{
  CodeStatus, DeviceCode, Devices, device_keyed, account_keyed, handed_out, stored_key,
  poll_device_code, code_row, create_device_code, submit_email, verify_token, verify_row, verified,
}
use cueapi_core.Devices.Handout.{over, poll_device_code_once}

abbrev start : Devices
start = record { device_codes = []; accounts = []; next_code_id = 1; next_user_id = 1 }

abbrev signed_code : DeviceCode
signed_code = record {
  id = 1;
  device_code = "ABCD";
  status = CodeStatus.approved;
  email = some "ada@example.com";
  verification_token = none;
  session_token = some "session";
  api_key_plaintext = some "cue_sk_1";
  user_id = some 1;
  expires_at = 900000100;
}

abbrev signed_up : Devices
signed_up = record {
  device_codes = signed_code ∷ [];
  accounts = record { id = 1; email = "ada@example.com"; api_key_encrypted = none } ∷ [];
  next_code_id = 2;
  next_user_id = 2;
}

abbrev asked : Devices
asked =
    (submit_email 200 "ABCD" "ada@example.com" "token" (create_device_code 100 "ABCD" start).1).1

-- The code, the email and the link lead to the approval.
flow :
    verify_token 300 "token" "ABCD" "session" "cue_sk_1" none asked
    ≡ (verified false (some "ada@example.com") (some "cue_sk_1"), signed_up)
unfolding verify_token verify_row submit_email create_device_code code_row first_where update_where
    update_row
flow = refl

found : code_row "ABCD" signed_up ≡ some signed_code
unfolding code_row first_where
found = refl

abbrev opened : String → Option String
opened t = some t

poll_device_code_once_example :
    let (answer, db') = poll_device_code opened 400 "ABCD" signed_up in
    (d' : DeviceCode) × (answer
      ≡ handed_out
          (if truthy (some "cue_sk_1")
            then some "cue_sk_1"
            else stored_key opened (some 1) signed_up)
          (some "ada@example.com")
          (some "session"))
    × (code_row "ABCD" db' ≡ some d')
    × (truthy d'.api_key_plaintext ≡ false)
    × (poll_device_code opened 500 "ABCD" db' ≡ (over 500 signed_code, db'))
poll_device_code_once_example =
    poll_device_code_once opened 400 500 "ABCD" signed_code signed_up found refl refl
