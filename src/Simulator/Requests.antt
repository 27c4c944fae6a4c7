-- ===== src/Simulator/Requests.antt =====
-- simulator/app/models.py: the requests, and their JSON as `model_dump` gives it to be hashed.
use found_roll.Prelude.{ℕ, String, List, Result, ok, err, domain}
use found_roll.Prelude.Json.{Json, text, number, object, array, texts, Fields, end, field}
use found_roll.Simulator.{Role, custodian, claimant}

-- A `datetime` of a request: its offset may be missing.
pub data Timestamp : Type 0 where
  aware naive : ℕ → Timestamp

pub record ReservationCreateRequest : Type 0 where
  pub case_id : String
  pub case_version : ℕ
  pub custodian_id : String
  pub item_id : String
  pub expected_item_version : ℕ
  pub expected_item_etag : String
  pub destination : String
  pub expires_at : Timestamp
  pub actor : String
  pub reason : String
  pub evidence_refs : List String
  pub idempotency_key : String

-- `ReservationBoundRequest`, which is also the whole of `HandoffAttestationRequest`
pub record ReservationBoundRequest : Type 0 where
  pub case_id : String
  pub case_version : ℕ
  pub item_id : String
  pub custodian_id : String
  pub expected_reservation_version : ℕ
  pub expected_reservation_etag : String
  pub actor : String
  pub reason : String
  pub evidence_refs : List String
  pub idempotency_key : String

-- the two requests that extend it
pub record CredentialIssueRequest : Type 0 where
  pub bound : ReservationBoundRequest
  pub token_expires_at : Timestamp

pub record TokenAttestationRequest : Type 0 where
  pub bound : ReservationBoundRequest
  pub role : Role
  pub token : String

-- `_aware`
unfoldable pub aware_instant : Timestamp → Result ℕ
aware_instant (aware t) = ok t
aware_instant (naive t) = err (domain 422 "TIMEZONE_REQUIRED")

abbrev pub role_word : Role → String
role_word custodian = "CUSTODIAN"
role_word claimant = "CLAIMANT"

-- `role.lower()`
abbrev pub role_lower : Role → String
role_lower custodian = "custodian"
role_lower claimant = "claimant"

abbrev timestamp_json : Timestamp → Json
timestamp_json (aware t) = object (field "utc" (number t) end)
timestamp_json (naive t) = object (field "naive" (number t) end)

-- `request.model_dump(mode="json")`
abbrev pub create_json : ReservationCreateRequest → Json
create_json r = object (
    field "case_id" (text r.case_id) (
      field "case_version" (number r.case_version) (
        field "custodian_id" (text r.custodian_id) (
          field "item_id" (text r.item_id) (
            field "expected_item_version" (number r.expected_item_version) (
              field "expected_item_etag" (text r.expected_item_etag) (
                field "destination" (text r.destination) (
                  field "expires_at" (timestamp_json r.expires_at) (
                    field "actor" (text r.actor) (
                      field "reason" (text r.reason) (
                        field "evidence_refs" (array (texts r.evidence_refs))
                          (field "idempotency_key" (text r.idempotency_key) end))))))))))))

abbrev bound_fields : ReservationBoundRequest → Fields → Fields
bound_fields r rest = field "case_id" (text r.case_id) (
    field "case_version" (number r.case_version) (
      field "item_id" (text r.item_id) (
        field "custodian_id" (text r.custodian_id) (
          field "expected_reservation_version" (number r.expected_reservation_version) (
            field "expected_reservation_etag" (text r.expected_reservation_etag) (
              field "actor" (text r.actor) (
                field "reason" (text r.reason) (
                  field "evidence_refs" (array (texts r.evidence_refs))
                    (field "idempotency_key" (text r.idempotency_key) rest)))))))))

abbrev pub handoff_json : ReservationBoundRequest → Json
handoff_json r = object (bound_fields r end)

abbrev pub issue_json : CredentialIssueRequest → Json
issue_json r =
    object (bound_fields r.bound (field "token_expires_at" (timestamp_json r.token_expires_at) end))

-- the payload that is fingerprinted: with the hash in place of the token
abbrev pub attest_json : TokenAttestationRequest → String → Json
attest_json r token_hash = object (
    bound_fields r.bound
      (field "role" (text (role_word r.role)) (field "token" (text token_hash) end)))
