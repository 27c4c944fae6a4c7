-- ===== src/Evidence/Upload.antt =====
-- `store_upload_pair` of service/app/evidence.py. The decoded image and its preview, which a
-- third-party library makes, are an argument, or the error that validation raised.
use Prim.Native.String.{slice, count}
use found_roll.Prelude.{
  ℕ, String, Bool, not, ◌||◌, none, some, List, Result, ok, Exec, domain, ltb, ◌==◌, strip,
  raise_if, and_then, on_ok, ◌>>◌, ◌<>◌, if◌then◌else◌,
}
use found_roll.Prelude.Json.{text, flag, object, field, end}
use found_roll.Evidence.{
  Digests, derived, original, EvidenceRecord, EvidenceStore, model_authorized, staff_only,
  PutRequest, put_evidence, source_matches_origin,
}
use found_roll.Evidence.Pairs.{Pair, original_transform, preview_transform}

pub record ValidatedImage : Type 0 where
  pub original : List ℕ
  pub original_mime_type : String
  pub preview : List ℕ

unfoldable pub check_upload_key : String → Result (Unit {0})
check_upload_key key =
    raise_if (key == "" || not (key == strip key) || ltb 240 (count key))
      (domain 422 "evidence_idempotency_key_invalid")

module _ ⦃d : Digests⦄ where
  -- `_pair_identity`
  unfoldable pub pair_identity : String → String → String → String
  pair_identity case_id workflow_epoch key = d.sha256_json (
      object (
        field "case_id" (text case_id) (
          field "idempotency_key" (text key) (
            field "schema_version" (text "1") (field "workflow_epoch" (text workflow_epoch) end)))))

  -- `_pair_record_id`
  unfoldable pub pair_record_id : String → String → String
  pair_record_id identity role = "evd-" <> slice (d.sha256_text (identity <> ":" <> role)) 0 32

  -- `_command_fingerprint`
  unfoldable pub command_fingerprint_of : String → String → ValidatedImage → Bool → String
  command_fingerprint_of case_id workflow_epoch image authorize = d.sha256_json (
      object (
        field "authorize_preview_for_model" (flag authorize) (
          field "case_id" (text case_id) (
            field "original_mime_type" (text image.original_mime_type) (
              field "original_sha256" (text (d.sha256_bytes image.original)) (
                field "preview_sha256" (text (d.sha256_bytes image.preview)) (
                  field "schema_version" (text "1")
                    (field "workflow_epoch" (text workflow_epoch) end))))))))

  unfoldable pub original_request :
      String → String → String → ValidatedImage → Bool → ℕ → PutRequest
  unfolding pair_identity pair_record_id command_fingerprint_of
  original_request case_id workflow_epoch key image authorize created_at = record {
    case_id = case_id;
    workflow_epoch = workflow_epoch;
    content = image.original;
    mime_type = image.original_mime_type;
    provenance = record {
      origin = original;
      source_evidence_id = none;
      transform = original_transform;
    };
    visibility = staff_only;
    record_id = some (pair_record_id (pair_identity case_id workflow_epoch key) "original");
    new_id = "";
    created_at = created_at;
    idempotency_key_hash = some (d.sha256_text key);
    command_fingerprint = some (command_fingerprint_of case_id workflow_epoch image authorize);
  }

  unfoldable pub preview_request :
      String → String → String → ValidatedImage → Bool → ℕ → String → PutRequest
  unfolding original_request pair_identity pair_record_id
  preview_request case_id workflow_epoch key image authorize created_at source =
      record (original_request case_id workflow_epoch key image authorize created_at) {
        content = image.preview;
        mime_type = "image/jpeg";
        provenance = record {
          origin = derived;
          source_evidence_id = some source;
          transform = preview_transform;
        };
        visibility = if authorize then model_authorized else staff_only;
        record_id = some (pair_record_id (pair_identity case_id workflow_epoch key) "preview");
      }

  -- `put`, of a provenance that is validated first
  unfoldable pub put_validated : PutRequest → Exec EvidenceStore EvidenceRecord
  unfolding source_matches_origin put_evidence
  put_validated r store =
      on_ok (source_matches_origin r.provenance) store (λ provenance. put_evidence r store)

  -- `store_upload_pair`
  unfoldable pub store_upload_pair :
      String → String → String → Result ValidatedImage → Bool → ℕ → Exec EvidenceStore Pair
  unfolding check_upload_key original_request preview_request put_validated
  store_upload_pair case_id workflow_epoch key upload authorize now store =
      on_ok (check_upload_key key >> upload) store (λ image.
        and_then
          (put_validated (original_request case_id workflow_epoch key image authorize now) store)
          (λ o stored.
            and_then
              (put_validated (preview_request case_id workflow_epoch key image authorize now o.id)
                stored)
              (λ p after. (ok (o, p), after))))
