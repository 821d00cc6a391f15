-- ===== src/Errors.antt =====
-- The error contract (src/errors.js): every code, the status that it always carries, and the value
-- that a failing call ends in. Messages are for people and are left out.
pub mod Handler
use Prim.Native.String.{String}
use splite_backend.Prelude.{
  ℕ, ℤ, Option, none, Bool, true, false, ◌≡◌, refl, ◌⊎◌, inl, inr, List, [], if◌then◌else◌,
}

-- `CODES`, by name.
pub data Code : Type 0 where
  validation_failed bill_id_mismatch invalid_amount invalid_monetary_value : Code
  fiscal_rif_malformed webhook_body_unverifiable menu_ocr_unsupported_media : Code
  menu_ocr_file_required menu_ocr_pdf_unreadable menu_ocr_file_too_large : Code
  menu_pdf_unsupported_media product_image_unsupported_media : Code
  branding_unsupported_media menu_pdf_file_required menu_pdf_file_too_large : Code
  product_image_file_too_large product_image_file_required : Code
  branding_file_too_large branding_file_required split_participants_invalid : Code
  split_claims_incomplete split_claim_unknown split_amount_mismatch : Code
  auth_token_missing auth_token_invalid bank_inbound_unauthorized : Code
  invalid_credentials mfa_code_invalid guest_session_missing : Code
  guest_session_invalid onboarding_token_invalid qr_invalid : Code
  webhook_signature_missing webhook_signature_invalid : Code
  webhook_timestamp_out_of_tolerance forbidden_role plan_upgrade_required : Code
  cross_tenant_denied cors_origin_not_allowed staff_outranked staff_role_too_high : Code
  staff_self_forbidden subscription_suspended not_found staff_not_found : Code
  staff_invitation_not_found bank_connection_not_found operator_not_found : Code
  operator_setup_invalid operator_bootstrap_unavailable : Code
  subscription_charge_not_found subscription_notice_not_found lead_not_found : Code
  invitation_invalid bill_not_found bill_item_not_found payment_not_found : Code
  fiscal_request_not_found table_not_found guest_order_not_found : Code
  product_not_found category_not_found menu_pdf_not_found product_image_not_found : Code
  branding_not_found restaurant_not_found open_bill_not_found : Code
  payment_claim_not_found split_not_found split_share_not_found : Code
  webhook_provider_unknown open_bill_exists staff_email_taken : Code
  invitation_email_in_use bank_movement_already_used : Code
  bank_connection_kind_mismatch bank_connection_rif_taken operator_email_taken : Code
  subscription_charge_exists subscription_charge_closed : Code
  subscription_price_missing subscription_notice_duplicate : Code
  subscription_notice_closed onboarding_disabled password_unchanged : Code
  staff_last_owner mfa_already_enabled mfa_not_enabled mfa_not_enrolled : Code
  bill_not_open bill_not_itemised total_below_amount_paid product_inactive : Code
  split_not_itemised split_nothing_outstanding bill_has_payments : Code
  bill_already_served payment_exceeds_balance payment_state_invalid : Code
  idempotency_key_reused idempotency_in_flight table_name_taken : Code
  product_name_taken product_tax_conflict fiscal_nothing_to_declare : Code
  fiscal_already_requested fiscal_rif_missing fiscal_series_missing : Code
  fiscal_range_exhausted fiscal_series_locked fiscal_rif_locked fiscal_rif_taken : Code
  plan_downgrade_blocked menu_currency_mismatch category_name_taken : Code
  webhook_already_processed email_already_registered rif_already_registered : Code
  payment_reference_already_used payment_claim_not_pending split_already_exists : Code
  split_not_active split_stale split_has_payments split_share_overpaid : Code
  payment_credentials_unreadable mfa_secret_unreadable payment_provider_unknown : Code
  rate_limited rate_limiter_unavailable fx_unavailable webhook_payment_unresolved : Code
  webhook_replay_protection_unavailable shutting_down : Code
  fiscal_provider_not_configured payment_credentials_key_missing mfa_key_missing : Code
  payment_provider_misconfigured payment_resolution_unavailable : Code
  menu_ocr_not_configured menu_ocr_unavailable menu_ocr_unreadable_response : Code
  onboarding_not_configured fiscal_draft_missing internal_error : Code

-- `CODES`, the status of each code.
unfoldable pub status : Code → ℕ
status validation_failed = 400
status bill_id_mismatch = 400
status invalid_amount = 400
status invalid_monetary_value = 400
status fiscal_rif_malformed = 400
status webhook_body_unverifiable = 400
status menu_ocr_unsupported_media = 400
status menu_ocr_file_required = 400
status menu_ocr_pdf_unreadable = 400
status menu_ocr_file_too_large = 400
status menu_pdf_unsupported_media = 400
status product_image_unsupported_media = 400
status branding_unsupported_media = 400
status menu_pdf_file_required = 400
status menu_pdf_file_too_large = 400
status product_image_file_too_large = 400
status product_image_file_required = 400
status branding_file_too_large = 400
status branding_file_required = 400
status split_participants_invalid = 400
status split_claims_incomplete = 400
status split_claim_unknown = 400
status split_amount_mismatch = 400
status auth_token_missing = 401
status auth_token_invalid = 401
status bank_inbound_unauthorized = 401
status invalid_credentials = 401
status mfa_code_invalid = 401
status guest_session_missing = 401
status guest_session_invalid = 401
status onboarding_token_invalid = 401
status qr_invalid = 401
status webhook_signature_missing = 401
status webhook_signature_invalid = 401
status webhook_timestamp_out_of_tolerance = 401
status forbidden_role = 403
status plan_upgrade_required = 403
status cross_tenant_denied = 403
status cors_origin_not_allowed = 403
status staff_outranked = 403
status staff_role_too_high = 403
status staff_self_forbidden = 403
status subscription_suspended = 403
status not_found = 404
status staff_not_found = 404
status staff_invitation_not_found = 404
status bank_connection_not_found = 404
status operator_not_found = 404
status operator_setup_invalid = 404
status operator_bootstrap_unavailable = 404
status subscription_charge_not_found = 404
status subscription_notice_not_found = 404
status lead_not_found = 404
status invitation_invalid = 404
status bill_not_found = 404
status bill_item_not_found = 404
status payment_not_found = 404
status fiscal_request_not_found = 404
status table_not_found = 404
status guest_order_not_found = 404
status product_not_found = 404
status category_not_found = 404
status menu_pdf_not_found = 404
status product_image_not_found = 404
status branding_not_found = 404
status restaurant_not_found = 404
status open_bill_not_found = 404
status payment_claim_not_found = 404
status split_not_found = 404
status split_share_not_found = 404
status webhook_provider_unknown = 404
status open_bill_exists = 409
status staff_email_taken = 409
status invitation_email_in_use = 409
status bank_movement_already_used = 409
status bank_connection_kind_mismatch = 409
status bank_connection_rif_taken = 409
status operator_email_taken = 409
status subscription_charge_exists = 409
status subscription_charge_closed = 409
status subscription_price_missing = 409
status subscription_notice_duplicate = 409
status subscription_notice_closed = 409
status onboarding_disabled = 409
status password_unchanged = 409
status staff_last_owner = 409
status mfa_already_enabled = 409
status mfa_not_enabled = 409
status mfa_not_enrolled = 409
status bill_not_open = 409
status bill_not_itemised = 409
status total_below_amount_paid = 409
status product_inactive = 409
status split_not_itemised = 409
status split_nothing_outstanding = 409
status bill_has_payments = 409
status bill_already_served = 409
status payment_exceeds_balance = 409
status payment_state_invalid = 409
status idempotency_key_reused = 409
status idempotency_in_flight = 409
status table_name_taken = 409
status product_name_taken = 409
status product_tax_conflict = 409
status fiscal_nothing_to_declare = 409
status fiscal_already_requested = 409
status fiscal_rif_missing = 409
status fiscal_series_missing = 409
status fiscal_range_exhausted = 409
status fiscal_series_locked = 409
status fiscal_rif_locked = 409
status fiscal_rif_taken = 409
status plan_downgrade_blocked = 409
status menu_currency_mismatch = 409
status category_name_taken = 409
status webhook_already_processed = 409
status email_already_registered = 409
status rif_already_registered = 409
status payment_reference_already_used = 409
status payment_claim_not_pending = 409
status split_already_exists = 409
status split_not_active = 409
status split_stale = 409
status split_has_payments = 409
status split_share_overpaid = 409
status payment_credentials_unreadable = 500
status mfa_secret_unreadable = 500
status payment_provider_unknown = 404
status rate_limited = 429
status rate_limiter_unavailable = 503
status fx_unavailable = 503
status webhook_payment_unresolved = 503
status webhook_replay_protection_unavailable = 503
status shutting_down = 503
status fiscal_provider_not_configured = 503
status payment_credentials_key_missing = 503
status mfa_key_missing = 503
status payment_provider_misconfigured = 503
status payment_resolution_unavailable = 503
status menu_ocr_not_configured = 503
status menu_ocr_unavailable = 503
status menu_ocr_unreadable_response = 503
status onboarding_not_configured = 503
status fiscal_draft_missing = 500
status internal_error = 500

-- The values that `details` carries.
pub data Detail : Type 0 where
  amount : ℤ → Detail
  text : String → Detail
  ids : List ℕ → Detail
  null : Detail

abbrev pub Details : Type 0
Details = List (String × Detail)

-- What is thrown: an `ApiError`, or any other `Error` with the `statusCode` that it may carry.
pub data Failure : Type 0 where
  api : Code → Details → Failure
  plain : Option ℕ → Failure

pub data Result {ℓ} (A : Type ℓ) : Type ℓ where
  err : Failure → Result A
  ok : A → Result A

infixl 5 ◌>>◌ ◌>>=◌
abbrev pub ◌>>=◌ {κ ℓ} : {B : Type κ} {A : Type ℓ} → Result A → (A → Result B) → Result B
err failure >>= next = err failure
ok value >>= next = next value

-- The next step, whatever a check that was passed has found.
abbrev pub ◌>>◌ {κ} : {B : Type κ} → Result (Unit {0}) → Result B → Result B
checked >> next = checked >>= λ _. next

-- `if (refused) throw ...`
abbrev pub throw_if : Bool → Failure → Result (Unit {0})
throw_if true e = err e
throw_if false e = ok tt

-- `new ApiError(code, message)`
abbrev pub bare : Code → Failure
bare c = api c []

-- `new Error(message)`
abbrev pub plain_error : Failure
plain_error = plain none

pub Result-cases {ℓ} :
    {A : Type ℓ} (r : Result A) → ((e : Failure) × (r ≡ err e)) ⊎ ((a : A) × (r ≡ ok a))
Result-cases (err e) = inl (e, refl)
Result-cases (ok a) = inr (a, refl)

pub ok-injective {ℓ} : {A : Type ℓ} {a b : A} → ok a ≡ ok b → a ≡ b
ok-injective h = cc

-- A guard that was passed.
pub if_err-ok {ℓ} :
    {A : Type ℓ} (b : Bool) (e : Failure) {a r : A}
    → (if b then err e else ok a) ≡ ok r
    → (b ≡ false) × (a ≡ r)
if_err-ok true e h = cc
if_err-ok false e h = (refl, ok-injective h)

-- What the first step of a chain returned, and that the rest went through from it.
module _ {ℓ κ} {A : Type ℓ} {B : Type κ} where
  pub >>=-eq-ok :
      (first : Result A) (next : A → Result B) {r : B}
      → (first >>= next) ≡ ok r
      → (a : A) × (first ≡ ok a) × (next a ≡ ok r)
  >>=-eq-ok (err failure) next h = cc
  >>=-eq-ok (ok value) next h = (value, refl, h)

pub throw_if-ok {ℓ} :
    {B : Type ℓ} (b : Bool) (e : Failure) (k : Result B) {r : B}
    → (throw_if b e >> k) ≡ ok r
    → (b ≡ false) × (k ≡ ok r)
throw_if-ok true e k h = cc
throw_if-ok false e k h = (refl, h)

-- A result, or an error that was raised for the caller: never a plain error.
abbrev pub IsApi {ℓ} : {A : Type ℓ} → Result A → Type 0
IsApi (ok a) = Unit
IsApi (err (api c d)) = Unit
IsApi (err (plain s)) = ⊥

pub IsApi->>= {ℓ κ} :
    {A : Type ℓ} {B : Type κ} (m : Result A) (f : A → Result B)
    → IsApi m
    → ((a : A) → m ≡ ok a → IsApi (f a))
    → IsApi (m >>= f)
IsApi->>= (ok a) f p q = q a refl
IsApi->>= (err (api c d)) f p q = tt
IsApi->>= (err (plain s)) f p q = absurd p

pub IsApi-throw_if {ℓ} :
    {B : Type ℓ} (b : Bool) (c : Code) (d : Details) (k : Result B)
    → (b ≡ false → IsApi k)
    → IsApi (throw_if b (api c d) >> k)
IsApi-throw_if true c d k h = tt
IsApi-throw_if false c d k h = h refl

-- A test that was passed before the rest went on.
pub if_err-else {ℓ} :
    {A : Type ℓ} (b : Bool) (e : Failure) (m : Result A) {r : A}
    → (if b then err e else m) ≡ ok r
    → (b ≡ false) × (m ≡ ok r)
if_err-else true e m h = cc
if_err-else false e m h = (refl, h)

pub if_then-err {ℓ} :
    {A : Type ℓ} (b : Bool) (e : Failure) (m : Result A) {r : A}
    → (if b then m else err e) ≡ ok r
    → (b ≡ true) × (m ≡ ok r)
if_then-err true e m h = (refl, h)
if_then-err false e m h = cc
