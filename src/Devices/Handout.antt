-- ===== src/Devices/Handout.antt =====
-- A key that a poll has handed out.
use mathlib.Core.Option
use cueapi_core.Prelude.{
  ℕ, ◌≡◌, refl, ap, ◌∙◌, Bool, false, String, Option, some, List, [], ◌∷◌, ◌==◌, nat_eq, string_eq,
  if◌then◌else◌, ltb, first_where, update_where, update_row, arith, Bool-cases, inl, inr, ==-refl,
}
use cueapi_core.Store.{truthy}
use cueapi_core.Devices.{
  CodeStatus, code_eq, DeviceCode, Devices, device_keyed, is_code, code_row, update_code, Polled,
  told, handed_out, code_claimed, key_claimed, approve, poll_row, poll_device_code, stored_key,
}

-- An update that leaves what a search looks at.
first_where-update_where :
    (p q : DeviceCode → Bool) (f : DeviceCode → DeviceCode)
    → ((x : DeviceCode) → p (f x) ≡ p x)
    → (t : List DeviceCode)
    → first_where p (update_where q f t)
      ≡ Option.map (λ x. if q x then f x else x) (first_where p t)
unfolding first_where update_where
first_where-update_where p q f keeps [] = refl
first_where-update_where p q f keeps (x ∷ t) =
    ground (arith, keeps x, first_where-update_where p q f keeps t)

-- The row of the code after an update of it.
code_row-update_code :
    (code : String) (d : DeviceCode) (f : DeviceCode → DeviceCode) (db : Devices)
    → ((x : DeviceCode) → (f x).device_code ≡ x.device_code)
    → code_row code db ≡ some d
    → code_row code (update_code d.id f db) ≡ some (f d)
unfolding code_row update_row
code_row-update_code code d f db keeps row =
    let here = ==-refl d.id in
    first_where-update_where (is_code code) (λ x. x.id == d.id) f
      (λ x. ap (λ c. c == code) (keeps x)) db.device_codes
    ∙ rw row (rw here refl)

-- What a claimed code tells.
abbrev pub over : ℕ → DeviceCode → Polled
over now d = told (if ltb d.expires_at now then CodeStatus.expired else CodeStatus.claimed)

poll_row-claimed :
    (decrypt : String → Option String) (now : ℕ) (d : DeviceCode) (db : Devices)
    → d.status ≡ CodeStatus.claimed
    → poll_row decrypt now (some d) db ≡ (over now d, db)
unfolding poll_row
poll_row-claimed decrypt now d db claimed = elim (Bool-cases (ltb d.expires_at now)) [
  | inl late ↦ rw (late, claimed) refl
  | inr early ↦ rw (early, claimed) refl
]

-- The first poll of an approved code in time hands out what the code has, the key of a new user or
-- else the stored key of an existing one, and any poll of the code right after it, at any time, hands
-- out nothing and changes nothing; the key of a new user is no longer in the row.
pub poll_device_code_once :
    (decrypt : String → Option String) (now later : ℕ) (code : String) (d : DeviceCode)
    (db : Devices)
    → code_row code db ≡ some d
    → d.status ≡ CodeStatus.approved
    → ltb d.expires_at now ≡ false
    → let (answer, db') = poll_device_code decrypt now code db in
      (d' : DeviceCode) × (answer
        ≡ handed_out
            (if truthy d.api_key_plaintext
              then d.api_key_plaintext
              else stored_key decrypt d.user_id db)
            d.email
            d.session_token)
      × (code_row code db' ≡ some d')
      × (truthy d'.api_key_plaintext ≡ false)
      × (poll_device_code decrypt later code db' ≡ (over later d, db'))
unfolding poll_row approve
poll_device_code_once decrypt now later code d db row approved early =
    elim (Bool-cases (truthy d.api_key_plaintext)) [
      | inl fresh ↦
          let after = code_row-update_code code d key_claimed db (λ x. refl) row in
          let db' = update_code d.id key_claimed db in
          let closed = poll_row-claimed decrypt later (key_claimed d) db' refl in
          rw (row, early, approved, fresh)
            (
              key_claimed d,
              refl,
              after,
              refl,
              ap (λ o. poll_row decrypt later o db') after ∙ closed,
            )
      | inr none_left ↦
          let after = code_row-update_code code d code_claimed db (λ x. refl) row in
          let db' = update_code d.id code_claimed db in
          let closed = poll_row-claimed decrypt later (code_claimed d) db' refl in
          rw (row, early, approved, none_left)
            (
              code_claimed d,
              refl,
              after,
              none_left,
              ap (λ o. poll_row decrypt later o db') after ∙ closed,
            )
    ]
