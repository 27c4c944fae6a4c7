-- ===== src/Evidence/Uploads/Run.antt =====
-- The steps of a successful `store_upload_pair` of service/app/evidence.py.
use found_roll.Prelude.{
  ℕ, String, ◌≡◌, sym, ◌∙◌, ap, subst, Bool, Result, ok, raised, returned, Result-cases, ok_inj,
  ok≢err, and_then-eq-ok, ◌>>◌,
}
use found_roll.Evidence.{
  Digests, EvidenceProvenance, EvidenceRecord, EvidenceStore, PutRequest, put_evidence,
  source_matches_origin,
}
use found_roll.Evidence.Pairs.{Pair}
use found_roll.Evidence.Upload.{
  check_upload_key, original_request, preview_request, put_validated, store_upload_pair,
  ValidatedImage,
}

module _ ⦃d : Digests⦄ where
  put_validated-ok :
      (r : PutRequest) (s after : EvidenceStore) (row : EvidenceRecord)
      → put_validated r s ≡ (ok row, after)
      → (q : EvidenceProvenance) × (source_matches_origin r.provenance ≡ ok q)
        × (put_evidence r s ≡ (ok row, after))
  unfolding put_validated
  put_validated-ok r s after row v = elim (Result-cases (source_matches_origin r.provenance)) [
    | raised e p ↦ absurd (ok≢err (sym (ap (λ z. z.0) (rw p at v))))
    | returned q p ↦ (q, p, rw p at v)
  ]

  -- what a successful upload has gone through
  pub record Uploaded (case_id epoch key : String) (upload : Result ValidatedImage)
      (authorize : Bool) (now : ℕ) (s after : EvidenceStore) (o p : EvidenceRecord) : Type 0 where
    pub image : ValidatedImage
    pub checked : (check_upload_key key >> upload) ≡ ok image
    pub mid : EvidenceStore
    pub original_valid : EvidenceProvenance
    pub original_matches :
        source_matches_origin (original_request case_id epoch key image authorize now).provenance
        ≡ ok original_valid
    pub original_put :
        put_evidence (original_request case_id epoch key image authorize now) s ≡ (ok o, mid)
    pub preview_valid : EvidenceProvenance
    pub preview_matches :
        source_matches_origin
          (preview_request case_id epoch key image authorize now o.id).provenance
        ≡ ok preview_valid
    pub preview_put :
        put_evidence (preview_request case_id epoch key image authorize now o.id) mid
        ≡ (ok p, after)

  pub upload-Uploaded :
      (case_id epoch key : String) (upload : Result ValidatedImage) (authorize : Bool) (now : ℕ)
      (s after : EvidenceStore) (o p : EvidenceRecord)
      → store_upload_pair case_id epoch key upload authorize now s ≡ (ok (o, p), after)
      → Uploaded case_id epoch key upload authorize now s after o p
  unfolding store_upload_pair
  upload-Uploaded case_id epoch key upload authorize now s after o p v =
      elim (Result-cases (check_upload_key key >> upload)) [
        | raised e c ↦ absurd (ok≢err (sym (ap (λ z. z.0) (rw c at v))))
        | returned image c ↦
            let first = original_request case_id epoch key image authorize now in
            let (o', mid, ran, v1) = and_then-eq-ok (put_validated first s) _ (rw c at v) in
            let (p', end, ran', v2) =
              and_then-eq-ok
                (put_validated (preview_request case_id epoch key image authorize now o'.id) mid) _
                v1 in
            let same : (o', p') ≡ (o, p) = ok_inj (ap (λ z. z.0) v2) in
            let same_o : o' ≡ o = ap (λ (z : Pair). z.0) same in
            let same_p : p' ≡ p = ap (λ (z : Pair). z.1) same in
            let (q, m, w) = put_validated-ok first s mid o' ran in
            let (q', m', w') =
              put_validated-ok (preview_request case_id epoch key image authorize now o'.id) mid end
                p' ran' in
            record {
              image = image;
              checked = c;
              mid = mid;
              original_valid = q;
              original_matches = m;
              original_put = w ∙ (λ i. (ok (same_o i), mid));
              preview_valid = q';
              preview_matches =
                  subst
                    (λ (z : EvidenceRecord).
                      source_matches_origin
                        (preview_request case_id epoch key image authorize now z.id).provenance
                      ≡ ok q')
                    same_o m';
              preview_put =
                  subst
                    (λ (z : EvidenceRecord).
                      put_evidence (preview_request case_id epoch key image authorize now z.id) mid
                      ≡ (ok p, after))
                    same_o (w' ∙ (λ i. (ok (same_p i), (ap (λ z. z.1) v2) i)));
            }
      ]
