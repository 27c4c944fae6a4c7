-- ===== src/Tests/Uploads.antt =====
-- A photograph of the wallet and its preview, uploaded to the empty evidence store.
use found_roll.Prelude.{
  ℕ, String, ◌≡◌, refl, true, some, none, List, [], ◌∷◌, Result, ok, err, get, length,
}
use found_roll.Tests.{show}
use found_roll.Evidence.{
  Digests, EvidenceRecord, EvidenceStore, staff_only, model_authorized, new_record, PutRequest,
  put_evidence, read_evidence, get_record,
}
use found_roll.Evidence.Pairs.{get_exact_complete_pair, Pair}
use found_roll.Evidence.Upload.{
  original_request, preview_request, store_upload_pair, ValidatedImage,
}
use found_roll.Evidence.Stored.{start, next, stored_readable}
use found_roll.Evidence.Uploads.{upload_exact, upload_retry}

instance unfoldable pub plain_digests : Digests
plain_digests = record { sha256_bytes = λ bytes. "d"; sha256_text = λ s. s; sha256_json = show }

abbrev photograph : ValidatedImage
photograph = record {
  original = 137 ∷ 80 ∷ 78 ∷ [];
  original_mime_type = "image/png";
  preview = 255 ∷ 216 ∷ [];
}

abbrev pub vacant : EvidenceStore
vacant = record { records = []; contents = [] }

abbrev upload : ℕ → EvidenceStore → Result Pair × EvidenceStore
upload now store = store_upload_pair "FR-42" "e1" "key-1" (ok photograph) true now store

abbrev first_request : PutRequest
first_request = original_request "FR-42" "e1" "key-1" photograph true 1_000

abbrev first_record : EvidenceRecord
first_record = new_record first_request

abbrev second_request : PutRequest
second_request = preview_request "FR-42" "e1" "key-1" photograph true 1_000 first_record.id

abbrev second_record : EvidenceRecord
second_record = new_record second_request

abbrev holding : EvidenceStore
holding = (put_evidence first_request vacant).1

abbrev pub filled : EvidenceStore
filled = (put_evidence second_request holding).1

stored_readable_example :
    (first_record.id ≡ first_record.id)
    × ((bytes : List ℕ) × (read_evidence holding first_record.id ≡ ok bytes)
        × (plain_digests.sha256_bytes bytes ≡ first_record.sha256)
        × (length bytes ≡ first_record.byte_size)
        × (get_record filled first_record.id ≡ ok first_record)
        × (read_evidence filled first_record.id ≡ ok bytes))
unfolding put_evidence new_record original_request get found_roll.Prelude.put plain_digests show
stored_readable_example =
    stored_readable holding first_record.id first_record second_request (next first_request start)
      refl

upload_retry_example : upload 2_000 filled ≡ (ok (first_record, second_record), filled)
unfolding store_upload_pair put_evidence new_record original_request preview_request
    found_roll.Prelude.strip get plain_digests show found_roll.Prelude.put
upload_retry_example =
    upload_retry "FR-42" "e1" "key-1" (ok photograph) true 1_000 2_000 vacant filled first_record
      second_record refl

upload_exact_example :
    (get_exact_complete_pair filled "FR-42" "e1" first_record.id second_record.id
      ≡ some (first_record, second_record))
    × (first_record.visibility ≡ staff_only)
    × (second_record.visibility ≡ model_authorized)
unfolding store_upload_pair put_evidence new_record original_request preview_request
    found_roll.Prelude.strip get plain_digests show found_roll.Prelude.put
upload_exact_example =
    upload_exact "FR-42" "e1" "key-1" (ok photograph) true 1_000 vacant filled first_record
      second_record start refl
