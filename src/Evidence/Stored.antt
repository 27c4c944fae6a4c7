-- ===== src/Evidence/Stored.antt =====
-- What `InMemoryEvidenceStore` of service/app/evidence.py keeps of a stored image.
use found_roll.Prelude.{
  [], ℕ, String, ◌≡◌, refl, sym, ◌∙◌, ap, subst, inl, inr, true, none, some, List, ok, get, get-put,
  get-nil, put, length, arith, eq_iff, Bool-cases, Option-cases, some_inj, none≢some, ◌==◌,
}
use found_roll.Evidence.{
  Digests, EvidenceRecord, EvidenceStore, evidence_id, new_record, PutRequest, put_evidence,
  put_existing, read_evidence, get_record,
}

module _ ⦃d : Digests⦄ where
  -- a record is stored under its identifier, with content that has its digest and size
  pub record IsSound (s : EvidenceStore) : Type 0 where
    pub own : (id : String) (row : EvidenceRecord) → get s.records id ≡ some row → row.id ≡ id
    pub content :
        (id : String) (row : EvidenceRecord)
        → get s.records id ≡ some row
        → (bytes : List ℕ) × (get s.contents id ≡ some bytes)
          × (d.sha256_bytes bytes ≡ row.sha256)
          × (length bytes ≡ row.byte_size)

  -- the two ways in which `put` leaves the store
  pub data Puts (r : PutRequest) (s after : EvidenceStore) : Type 0 where
    known :
        (row : EvidenceRecord)
        → get s.records (evidence_id r) ≡ some row
        → after ≡ s
        → put_evidence r s ≡ (put_existing s row r, s)
        → Puts r s after
    new :
        get s.records (evidence_id r) ≡ none
        → after ≡ record s {
          records = put s.records (evidence_id r) (new_record r);
          contents = put s.contents (evidence_id r) r.content;
        }
        → put_evidence r s ≡ (ok (new_record r), after)
        → Puts r s after

  pub put_evidence-Puts : (r : PutRequest) (s : EvidenceStore) → Puts r s (put_evidence r s).1
  unfolding put_evidence
  put_evidence-Puts r s = elim (Option-cases (get s.records (evidence_id r))) [
    | inl missing ↦ rw missing (new missing refl (rw missing refl))
    | inr (row, found) ↦ rw found (known row found refl (rw found refl))
  ]

  Puts-IsSound :
      (r : PutRequest) (s after : EvidenceStore) → IsSound s → Puts r s after → IsSound after
  unfolding new_record
  Puts-IsSound r s after w (known row found same ran) = rw same w
  Puts-IsSound r s after w (new missing same ran) = rw same (record {
    own = λ id row p. elim (Bool-cases (evidence_id r == id)) [
      | inl mine ↦
          let e : new_record r ≡ row =
            some_inj (rw (get-put s.records (evidence_id r) id (new_record r), mine) at p) in
          ap (λ (z : EvidenceRecord). z.id) (sym e) ∙ ground (arith, eq_iff (evidence_id r) id)
      | inr other ↦
          w.own id row (rw (get-put s.records (evidence_id r) id (new_record r), other) at p)
    ];
    content = λ id row p. elim (Bool-cases (evidence_id r == id)) [
      | inl mine ↦
          let e : new_record r ≡ row =
            some_inj (rw (get-put s.records (evidence_id r) id (new_record r), mine) at p) in
          (
            r.content,
            rw (get-put s.contents (evidence_id r) id r.content, mine) refl,
            ap (λ (z : EvidenceRecord). z.sha256) e,
            ap (λ (z : EvidenceRecord). z.byte_size) e,
          )
      | inr other ↦
          let (bytes, stored, digest, size) =
            w.content id row
              (rw (get-put s.records (evidence_id r) id (new_record r), other) at p) in
          (bytes, rw (get-put s.contents (evidence_id r) id r.content, other) stored, digest, size)
    ];
  })

  pub put_evidence-IsSound :
      (r : PutRequest) (s : EvidenceStore) → IsSound s → IsSound (put_evidence r s).1
  put_evidence-IsSound r s w = Puts-IsSound r s (put_evidence r s).1 w (put_evidence-Puts r s)

  -- A stored record and its content are not changed by `put`.
  pub put_evidence-keeps :
      (r : PutRequest) (s : EvidenceStore) (id : String) (row : EvidenceRecord)
      → get s.records id ≡ some row
      → (get (put_evidence r s).1.records id ≡ some row)
        × (get (put_evidence r s).1.contents id ≡ get s.contents id)
  put_evidence-keeps r s id row found = go (put_evidence r s).1 (put_evidence-Puts r s)
    where
      go :
          (after : EvidenceStore)
          → Puts r s after
          → (get after.records id ≡ some row) × (get after.contents id ≡ get s.contents id)
      go after (known old here same ran) = rw same (found, refl)
      go after (new missing same ran) = elim (Bool-cases (evidence_id r == id)) [
        | inl mine ↦
            let e : evidence_id r ≡ id = ground (arith, eq_iff (evidence_id r) id) in
            absurd (none≢some (sym missing ∙ subst (λ z. get s.records z ≡ some row) (sym e) found))
        | inr other ↦
            rw
              (
                same,
                get-put s.records (evidence_id r) id (new_record r),
                get-put s.contents (evidence_id r) id r.content,
                other,
              )
              (found, refl)
      ]

  -- The runs of the store: any sequence of calls of `put`, whether they returned or raised.
  pub data Stores : EvidenceStore → Type 0 where
    start : Stores (record { records = []; contents = [] })
    next : {s : EvidenceStore} (r : PutRequest) → Stores s → Stores (put_evidence r s).1

  pub Stores-IsSound : (s : EvidenceStore) → Stores s → IsSound s
  Stores-IsSound s start = record {
    own = λ id row p. absurd (none≢some (rw get-nil at p));
    content = λ id row p. absurd (none≢some (rw get-nil at p));
  }
  Stores-IsSound s (next {s = before} r h) = put_evidence-IsSound r before (Stores-IsSound before h)

  -- In every store that calls of `put` can reach, a stored record stands under its own identifier and
  -- `read` returns its content, with the digest and the size that the record names; and after one more
  -- `put`, whether it stored or refused, the record is the same and `read` returns the same bytes.
  pub stored_readable :
      (s : EvidenceStore) (id : String) (row : EvidenceRecord) (r : PutRequest)
      → Stores s
      → get s.records id ≡ some row
      → (row.id ≡ id)
        × ((bytes : List ℕ) × (read_evidence s id ≡ ok bytes)
            × (d.sha256_bytes bytes ≡ row.sha256)
            × (length bytes ≡ row.byte_size)
            × (get_record (put_evidence r s).1 id ≡ ok row)
            × (read_evidence (put_evidence r s).1 id ≡ ok bytes))
  unfolding read_evidence get_record
  stored_readable s id row r h found =
      let w = Stores-IsSound s h in
      let (bytes, stored, digest, size) = w.content id row found in
      let (stays, content) = put_evidence-keeps r s id row found in
      let match : (d.sha256_bytes bytes == row.sha256) ≡ true =
        ground (arith, eq_iff (d.sha256_bytes bytes) row.sha256, digest) in
      (
        w.own id row found,
        (
          bytes,
          rw (found, stored, match) refl,
          digest,
          size,
          rw stays refl,
          rw (stays, content, stored, match) refl,
        ),
      )
