-- ===== src/Evidence/OnePair.antt =====
-- What `_records_are_one_pair` of service/app/evidence.py asks of an original and its preview.
use found_roll.Prelude.{
  String, ◌≡◌, Bool, true, some, arith, In, refl, ap, Option, none, values, eq_iff, opt_eq, ◌==◌,
  ◌&&◌,
}
use found_roll.Evidence.{
  EvidenceOrigin, EvidenceOrigin-discrete, origin_eq, original, derived, EvidenceRecord,
  EvidenceStore,
}
use found_roll.Evidence.Pairs.{original_transform, preview_transform, records_are_one_pair}

-- An original and a preview of one case and one epoch, both in the store: the preview was made from the
-- original by the transform of previews, by the same upload.
pub record IsPairOf (store : EvidenceStore) (case_id workflow_epoch : String) (o p : EvidenceRecord)
    : Type 0 where
  pub original_stored : In o (values store.records)
  pub preview_stored : In p (values store.records)
  pub original_case : o.case_id ≡ case_id
  pub preview_case : p.case_id ≡ case_id
  pub original_epoch : o.workflow_epoch ≡ workflow_epoch
  pub preview_epoch : p.workflow_epoch ≡ workflow_epoch
  pub original_origin : o.provenance.origin ≡ original
  pub preview_origin : p.provenance.origin ≡ derived
  pub original_made : o.provenance.transform ≡ "unaltered-upload-v1"
  pub preview_made : p.provenance.transform ≡ "exif-transpose-fit-1600-jpeg-v1"
  pub source : p.provenance.source_evidence_id ≡ some o.id
  pub same_key : o.idempotency_key_hash ≡ p.idempotency_key_hash
  pub same_command : o.command_fingerprint ≡ p.command_fingerprint

opt_eq→eq : (a b : Option String) → opt_eq a b ≡ true → a ≡ b
opt_eq→eq none none e = refl
opt_eq→eq (some a) (some b) e = ap some (ground (arith, eq_iff a b))
opt_eq→eq none (some b) e = absurd (ground arith)
opt_eq→eq (some a) none e = absurd (ground arith)

origin_eq→eq : (a b : EvidenceOrigin) → origin_eq a b ≡ true → a ≡ b
unfolding EvidenceOrigin-discrete
origin_eq→eq a b e = ground arith

text_eq→eq : (a b : String) → (a == b) ≡ true → a ≡ b
text_eq→eq a b e = ground (arith, eq_iff a b)

eleven :
    (a b c e f g h i j k l : Bool)
    → a && b && c && e && f && g && h && i && j && k && l ≡ true
    → (a ≡ true)
      × (b ≡ true)
      × (c ≡ true)
      × (e ≡ true)
      × (f ≡ true)
      × (g ≡ true)
      × (h ≡ true)
      × (i ≡ true)
      × (j ≡ true)
      × (k ≡ true)
      × (l ≡ true)
eleven a b c e f g h i j k l v = (
  ground arith,
  ground arith,
  ground arith,
  ground arith,
  ground arith,
  ground arith,
  ground arith,
  ground arith,
  ground arith,
  ground arith,
  ground arith,
)

pub one_pair-IsPairOf :
    (store : EvidenceStore) (case_id workflow_epoch : String) (o p : EvidenceRecord)
    → In o (values store.records)
    → In p (values store.records)
    → records_are_one_pair o p case_id workflow_epoch ≡ true
    → IsPairOf store case_id workflow_epoch o p
unfolding records_are_one_pair
one_pair-IsPairOf store case_id workflow_epoch o p o_in p_in v0 =
    let (
      case_o, case_p, epoch_o, epoch_p, origin_o, made_o, origin_p, made_p, source, key, command,
    ) =
      eleven (o.case_id == case_id) (p.case_id == case_id) (o.workflow_epoch == workflow_epoch)
        (p.workflow_epoch == workflow_epoch) (origin_eq o.provenance.origin original)
        (o.provenance.transform == original_transform) (origin_eq p.provenance.origin derived)
        (p.provenance.transform == preview_transform)
        (opt_eq p.provenance.source_evidence_id (some o.id))
        (opt_eq o.idempotency_key_hash p.idempotency_key_hash)
        (opt_eq o.command_fingerprint p.command_fingerprint) v0 in
    record {
      original_stored = o_in;
      preview_stored = p_in;
      original_case = text_eq→eq o.case_id case_id case_o;
      preview_case = text_eq→eq p.case_id case_id case_p;
      original_epoch = text_eq→eq o.workflow_epoch workflow_epoch epoch_o;
      preview_epoch = text_eq→eq p.workflow_epoch workflow_epoch epoch_p;
      original_origin = origin_eq→eq o.provenance.origin original origin_o;
      preview_origin = origin_eq→eq p.provenance.origin derived origin_p;
      original_made = text_eq→eq o.provenance.transform original_transform made_o;
      preview_made = text_eq→eq p.provenance.transform preview_transform made_p;
      source = opt_eq→eq p.provenance.source_evidence_id (some o.id) source;
      same_key = opt_eq→eq o.idempotency_key_hash p.idempotency_key_hash key;
      same_command = opt_eq→eq o.command_fingerprint p.command_fingerprint command;
    }
