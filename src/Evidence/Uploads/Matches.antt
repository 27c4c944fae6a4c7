-- ===== src/Evidence/Uploads/Matches.antt =====
-- What a record of service/app/evidence.py that answers a request shares with it.
use found_roll.Prelude.{
  ℕ, String, ◌≡◌, refl, sym, ◌∙◌, true, ◌&&◌, Bool, length, arith, opt_eq, eqb, ◌==◌,
}
use found_roll.Evidence.{
  Digests, EvidenceProvenance, EvidenceRecord, EvidenceStore, evidence_id, EvidenceVisibility,
  PutRequest, same_upload, same_provenance, object_name_for_record_id, EvidenceVisibility-discrete,
  origin_eq, visibility_eq,
}
use found_roll.Evidence.Pairs.{records_are_one_pair}
use found_roll.Evidence.Upload.{original_request, preview_request, ValidatedImage}
use found_roll.Evidence.Uploads.Replies.{Answers, opt_eq→eq, opt_eq_refl, put_existing-ok}

module _ ⦃d : Digests⦄ where
  all_true :
      (a b c e f g h i j k : Bool)
      → a && b && c && e && f && g && h && i && j && k ≡ true
      → (a ≡ true) × (b ≡ true) × (g ≡ true) × (i ≡ true) × (j ≡ true) × (h ≡ true)
  all_true a b c e f g h i j k v =
      (ground arith, ground arith, ground arith, ground arith, ground arith, ground arith)

  same_provenance-true :
      (a b : EvidenceProvenance)
      → same_provenance a b ≡ true
      → (origin_eq a.origin b.origin ≡ true)
        × (opt_eq a.source_evidence_id b.source_evidence_id ≡ true)
        × ((a.transform == b.transform) ≡ true)
  unfolding same_provenance
  same_provenance-true a b v =
      three (origin_eq a.origin b.origin) (opt_eq a.source_evidence_id b.source_evidence_id)
        (a.transform == b.transform) v
    where
      three : (x y z : Bool) → x && y && z ≡ true → (x ≡ true) × (y ≡ true) × (z ≡ true)
      three x y z e = (ground arith, ground arith, ground arith)

  -- what a record that answers a request shares with it
  same_upload-true :
      (row : EvidenceRecord) (r : PutRequest) (name : String)
      → same_upload row r name ≡ true
      → ((row.case_id == r.case_id) ≡ true)
        × ((row.workflow_epoch == r.workflow_epoch) ≡ true)
        × (same_provenance row.provenance r.provenance ≡ true)
        × (opt_eq row.idempotency_key_hash r.idempotency_key_hash ≡ true)
        × (opt_eq row.command_fingerprint r.command_fingerprint ≡ true)
        × (visibility_eq row.visibility r.visibility ≡ true)
  unfolding same_upload
  same_upload-true row r name v =
      all_true (row.case_id == r.case_id) (row.workflow_epoch == r.workflow_epoch)
        (row.object_name == name) (row.sha256 == d.sha256_bytes r.content)
        (row.mime_type == r.mime_type) (same_provenance row.provenance r.provenance)
        (visibility_eq row.visibility r.visibility)
        (opt_eq row.idempotency_key_hash r.idempotency_key_hash)
        (opt_eq row.command_fingerprint r.command_fingerprint)
        (eqb row.byte_size (length r.content)) v

  pub uploaded_pair :
      (o p : EvidenceRecord) (case_id epoch key : String) (image : ValidatedImage)
      (authorize : Bool) (now : ℕ) (name name' : String)
      → same_upload o (original_request case_id epoch key image authorize now) name ≡ true
      → same_upload p (preview_request case_id epoch key image authorize now o.id) name' ≡ true
      → records_are_one_pair o p case_id epoch ≡ true
  unfolding original_request preview_request records_are_one_pair
  uploaded_pair o p case_id epoch key image authorize now name name' e f =
      let first = original_request case_id epoch key image authorize now in
      let second = preview_request case_id epoch key image authorize now o.id in
      let (case_o, epoch_o, prov_o, key_o, print_o, seen_o) = same_upload-true o first name e in
      let (case_p, epoch_p, prov_p, key_p, print_p, seen_p) = same_upload-true p second name' f in
      let (origin_o, source_o, transform_o) =
        same_provenance-true o.provenance first.provenance prov_o in
      let (origin_p, source_p, transform_p) =
        same_provenance-true p.provenance second.provenance prov_p in
      let keys : o.idempotency_key_hash ≡ p.idempotency_key_hash =
        opt_eq→eq o.idempotency_key_hash first.idempotency_key_hash key_o
        ∙ sym (opt_eq→eq p.idempotency_key_hash second.idempotency_key_hash key_p) in
      let prints : o.command_fingerprint ≡ p.command_fingerprint =
        opt_eq→eq o.command_fingerprint first.command_fingerprint print_o
        ∙ sym (opt_eq→eq p.command_fingerprint second.command_fingerprint print_p) in
      rw
        (
          case_o,
          case_p,
          epoch_o,
          epoch_p,
          origin_o,
          transform_o,
          origin_p,
          transform_p,
          source_p,
          keys,
          prints,
          opt_eq_refl p.idempotency_key_hash,
          opt_eq_refl p.command_fingerprint,
        )
        refl

  visibility_eq→eq : (a b : EvidenceVisibility) → visibility_eq a b ≡ true → a ≡ b
  unfolding EvidenceVisibility-discrete
  visibility_eq→eq a b e = ground arith

  pub answered_visibility :
      (s : EvidenceStore) (r : PutRequest) (row : EvidenceRecord)
      → Answers s r row
      → row.visibility ≡ r.visibility
  answered_visibility s r row (found, answers) =
      let (same, matches) = put_existing-ok s row row r answers in
      let (case_, epoch, prov, key, print, seen) =
        same_upload-true row r (object_name_for_record_id (evidence_id r)) matches in
      visibility_eq→eq row.visibility r.visibility seen
