-- ===== src/Evidence/Uploads/Replies.antt =====
-- A record of service/app/evidence.py that answers a request of `put`.
use found_roll.Prelude.{
  ℕ, String, ◌≡◌, refl, sym, ◌∙◌, ap, subst, inl, inr, true, Option, none, some, ok, get, get-put,
  put, length, arith, eq_iff, eq_refl, opt_eq, eqb, Option-cases, ok_inj,
}
use found_roll.Evidence.{
  Digests, EvidenceRecord, EvidenceStore, evidence_id, EvidenceVisibility, new_record, PutRequest,
  put_evidence, put_existing, same_upload, same_provenance, object_name_for_record_id,
  EvidenceOrigin, EvidenceOrigin-discrete, EvidenceVisibility-discrete, origin_eq, visibility_eq,
}
use found_roll.Evidence.Stored.{Puts, known, new, put_evidence-Puts, put_evidence-keeps}

pub opt_eq_refl : (a : Option String) → opt_eq a a ≡ true
opt_eq_refl none = refl
opt_eq_refl (some s) = eq_refl s

pub opt_eq→eq : (a b : Option String) → opt_eq a b ≡ true → a ≡ b
opt_eq→eq none none e = refl
opt_eq→eq (some a) (some b) e = ap some (ground (arith, eq_iff a b))
opt_eq→eq none (some b) e = absurd (ground arith)
opt_eq→eq (some a) none e = absurd (ground arith)

origin_eq_refl : (o : EvidenceOrigin) → origin_eq o o ≡ true
unfolding EvidenceOrigin-discrete
origin_eq_refl o = ground arith

visibility_eq_refl : (v : EvidenceVisibility) → visibility_eq v v ≡ true
unfolding EvidenceVisibility-discrete
visibility_eq_refl v = ground arith

eqb_refl : (n : ℕ) → eqb n n ≡ true
eqb_refl n = ground arith

module _ ⦃d : Digests⦄ where
  -- the record is stored under the identifier of the request, and answers it
  abbrev pub Answers : EvidenceStore → PutRequest → EvidenceRecord → Type 0
  Answers s r row = (get s.records (evidence_id r) ≡ some row) × (put_existing s row r ≡ ok row)

  same_upload_new :
      (r : PutRequest)
      → same_upload (new_record r) r (object_name_for_record_id (evidence_id r)) ≡ true
  unfolding same_upload new_record same_provenance
  same_upload_new r = ground (
    arith,
    eq_refl r.case_id,
    eq_refl r.workflow_epoch,
    eq_refl (object_name_for_record_id (evidence_id r)),
    eq_refl (d.sha256_bytes r.content),
    eq_refl r.mime_type,
    eq_refl r.provenance.transform,
    origin_eq_refl r.provenance.origin,
    opt_eq_refl r.provenance.source_evidence_id,
    visibility_eq_refl r.visibility,
    opt_eq_refl r.idempotency_key_hash,
    opt_eq_refl r.command_fingerprint,
    eqb_refl (length r.content),
  )

  pub put_existing-ok :
      (s : EvidenceStore) (row x : EvidenceRecord) (r : PutRequest)
      → put_existing s row r ≡ ok x
      → (row ≡ x) × (same_upload row r (object_name_for_record_id (evidence_id r)) ≡ true)
  unfolding put_existing
  put_existing-ok s row x r v = elim (Option-cases (get s.contents (evidence_id r))) [
    | inl missing ↦ absurd (ground arith)
    | inr (bytes, found) ↦ (ground arith, ground arith)
  ]

  put_existing-eq :
      (s t : EvidenceStore) (row : EvidenceRecord) (r : PutRequest)
      → get t.contents (evidence_id r) ≡ get s.contents (evidence_id r)
      → put_existing t row r ≡ put_existing s row r
  unfolding put_existing
  put_existing-eq s t row r e = rw e refl

  pub put_evidence-Answers :
      (r : PutRequest) (s after : EvidenceStore) (row : EvidenceRecord)
      → put_evidence r s ≡ (ok row, after)
      → Answers after r row
  unfolding put_existing new_record
  put_evidence-Answers r s after row v = go (put_evidence-Puts r s)
    where
      go : Puts r s (put_evidence r s).1 → Answers after r row
      go (known old found same ran) =
          let w = sym ran ∙ v in
          let (e, matches) = put_existing-ok s old row r (ap (λ z. z.0) w) in
          subst (λ z. Answers z r row) (ap (λ z. z.1) w)
            (found ∙ ap some e, subst (λ z. put_existing s z r ≡ ok row) e (ap (λ z. z.0) w))
      go (new missing same ran) =
          let w = sym ran ∙ v in
          let e : new_record r ≡ row = ok_inj (ap (λ z. z.0) w) in
          let id = evidence_id r in
          let match = same_upload_new r in
          let digest = eq_refl (d.sha256_bytes r.content) in
          subst (λ z. Answers z r row) (sym same ∙ ap (λ z. z.1) v)
            (subst
              (λ z.
                Answers
                  (record s {
                    records = put s.records id (new_record r);
                    contents = put s.contents id r.content;
                  })
                  r z)
              e
              (
                rw (get-put s.records id id (new_record r)) (rw (eq_refl id) refl),
                rw (match, get-put s.contents id id r.content, (eq_refl id), digest) refl,
              ))

  pub Answers-keeps :
      (q r : PutRequest) (s : EvidenceStore) (row : EvidenceRecord)
      → Answers s r row
      → Answers (put_evidence q s).1 r row
  Answers-keeps q r s row (found, answers) =
      let (stays, content) = put_evidence-keeps q s (evidence_id r) row found in
      (stays, put_existing-eq s (put_evidence q s).1 row r content ∙ answers)

  -- an upload that is answered from the store does not write
  pub Answers-put :
      (r : PutRequest) (s : EvidenceStore) (row : EvidenceRecord)
      → Answers s r row
      → put_evidence r s ≡ (ok row, s)
  unfolding put_evidence
  Answers-put r s row (found, answers) = rw (found, answers) refl
