-- ===== src/Evidence/Uploads.antt =====
-- What an upload of service/app/evidence.py, `store_upload_pair`, has stored, and how a retry of it and
-- the lookup of the exact pair answer.
mod Replies
mod Run
mod Matches
use found_roll.Prelude.{
  ℕ, String, ◌≡◌, refl, sym, ◌∙◌, ap, subst, inl, inr, true, ◌&&◌, Bool, Option, none, some, Result,
  ok, raised, returned, get, get-put, put, length, arith, eq_iff, eq_refl, opt_eq, eqb,
  Option-cases, Result-cases, ok_inj, ok≢err, and_then-eq-ok, ◌==◌, ◌>>◌, if◌then◌else◌,
}
use found_roll.Evidence.{
  Digests, EvidenceProvenance, EvidenceRecord, EvidenceStore, evidence_id, EvidenceVisibility,
  new_record, PutRequest, put_evidence, put_existing, same_upload, same_provenance,
  source_matches_origin, object_name_for_record_id, EvidenceOrigin, EvidenceOrigin-discrete,
  EvidenceVisibility-discrete, staff_only, model_authorized, origin_eq, visibility_eq,
}
use found_roll.Evidence.Pairs.{get_exact_complete_pair, Pair, records_are_one_pair}
use found_roll.Evidence.Stored.{
  Puts, known, new, put_evidence-Puts, put_evidence-keeps, put_evidence-IsSound, IsSound, Stores,
  Stores-IsSound,
}
use found_roll.Evidence.Upload.{
  check_upload_key, original_request, preview_request, put_validated, store_upload_pair,
  ValidatedImage,
}
use found_roll.Evidence.Uploads.Replies.{
  Answers, Answers-keeps, Answers-put, opt_eq_refl, put_evidence-Answers, put_existing-ok,
}
use found_roll.Evidence.Uploads.Run.{Uploaded, upload-Uploaded}
use found_roll.Evidence.Uploads.Matches.{uploaded_pair, answered_visibility}

module _ ⦃d : Digests⦄ where
  put_validated-again :
      (r : PutRequest) (s : EvidenceStore) (row : EvidenceRecord) (q : EvidenceProvenance)
      → source_matches_origin r.provenance ≡ ok q
      → Answers s r row
      → put_validated r s ≡ (ok row, s)
  unfolding put_validated
  put_validated-again r s row q valid answers =
      let w = Answers-put r s row answers in rw (valid, w) refl

  original_again :
      (case_id epoch key : String) (image : ValidatedImage) (authorize : Bool) (now later : ℕ)
      (s : EvidenceStore) (o : EvidenceRecord) (q : EvidenceProvenance)
      → source_matches_origin (original_request case_id epoch key image authorize now).provenance
        ≡ ok q
      → Answers s (original_request case_id epoch key image authorize now) o
      → put_validated (original_request case_id epoch key image authorize later) s ≡ (ok o, s)
  unfolding original_request put_existing same_upload evidence_id
  original_again case_id epoch key image authorize now later s o q valid answers =
      put_validated-again (original_request case_id epoch key image authorize later) s o q valid
        answers

  preview_again :
      (case_id epoch key : String) (image : ValidatedImage) (authorize : Bool) (now later : ℕ)
      (s : EvidenceStore) (source : String) (p : EvidenceRecord) (q : EvidenceProvenance)
      → source_matches_origin
          (preview_request case_id epoch key image authorize now source).provenance
        ≡ ok q
      → Answers s (preview_request case_id epoch key image authorize now source) p
      → put_validated (preview_request case_id epoch key image authorize later source) s ≡ (ok p, s)
  unfolding preview_request original_request put_existing same_upload evidence_id
  preview_again case_id epoch key image authorize now later s source p q valid answers =
      put_validated-again (preview_request case_id epoch key image authorize later source) s p q
        valid answers

  -- An upload that succeeded is stored once: the same upload, sent again at any time to the store that
  -- the first one left, returns the same pair of records and changes nothing.
  pub upload_retry :
      (case_id epoch key : String) (upload : Result ValidatedImage) (authorize : Bool)
      (now later : ℕ) (s after : EvidenceStore) (o p : EvidenceRecord)
      → store_upload_pair case_id epoch key upload authorize now s ≡ (ok (o, p), after)
      → store_upload_pair case_id epoch key upload authorize later after ≡ (ok (o, p), after)
  unfolding store_upload_pair
  upload_retry case_id epoch key upload authorize now later s after o p v =
      let w = upload-Uploaded case_id epoch key upload authorize now s after o p v in
      let first = original_request case_id epoch key w.image authorize now in
      let second = preview_request case_id epoch key w.image authorize now o.id in
      let a = put_evidence-Answers first s w.mid o w.original_put in
      let b : Answers after first o =
        subst (λ z. Answers z first o) (ap (λ z. z.1) w.preview_put)
          (Answers-keeps second first w.mid o a) in
      let c = put_evidence-Answers second w.mid after p w.preview_put in
      rw
        (
          w.checked,
          original_again case_id epoch key w.image authorize now later after o w.original_valid
              w.original_matches b,
          preview_again case_id epoch key w.image authorize now later after o.id p w.preview_valid
              w.preview_matches c,
        )
        refl

  -- An upload to a store that calls of `put` can reach, when it succeeds, is found again as exactly the
  -- pair that it returned: the lookup by the two identifiers answers the original and its preview, the
  -- original is for staff only, and the preview is authorised for the model exactly when the uploader
  -- asked for it.
  pub upload_exact :
      (case_id epoch key : String) (upload : Result ValidatedImage) (authorize : Bool) (now : ℕ)
      (s after : EvidenceStore) (o p : EvidenceRecord)
      → Stores s
      → store_upload_pair case_id epoch key upload authorize now s ≡ (ok (o, p), after)
      → (get_exact_complete_pair after case_id epoch o.id p.id ≡ some (o, p))
        × (o.visibility ≡ staff_only)
        × (p.visibility ≡ (if authorize then model_authorized else staff_only))
  unfolding get_exact_complete_pair original_request preview_request
  upload_exact case_id epoch key upload authorize now s after o p reach v =
      let w = upload-Uploaded case_id epoch key upload authorize now s after o p v in
      let first = original_request case_id epoch key w.image authorize now in
      let second = preview_request case_id epoch key w.image authorize now o.id in
      let a = put_evidence-Answers first s w.mid o w.original_put in
      let b : Answers after first o =
        subst (λ z. Answers z first o) (ap (λ z. z.1) w.preview_put)
          (Answers-keeps second first w.mid o a) in
      let c = put_evidence-Answers second w.mid after p w.preview_put in
      let sound_mid : IsSound w.mid =
        subst IsSound (ap (λ z. z.1) w.original_put)
          (put_evidence-IsSound first s (Stores-IsSound s reach)) in
      let sound : IsSound after =
        subst IsSound (ap (λ z. z.1) w.preview_put) (put_evidence-IsSound second w.mid sound_mid) in
      let found_o : get after.records o.id ≡ some o =
        subst (λ z. get after.records z ≡ some o) (sym (sound.own (evidence_id first) o b.0)) b.0 in
      let found_p : get after.records p.id ≡ some p =
        subst (λ z. get after.records z ≡ some p) (sym (sound.own (evidence_id second) p c.0))
          c.0 in
      let pair =
        uploaded_pair o p case_id epoch key w.image authorize now
          (object_name_for_record_id (evidence_id first))
          (object_name_for_record_id (evidence_id second)) (put_existing-ok after o o first b.1).1
          (put_existing-ok after p p second c.1).1 in
      (
        rw (found_o, found_p, pair) refl,
        answered_visibility after first o b,
        answered_visibility after second p c,
      )
