-- ===== src/Evidence.antt =====
-- service/app/evidence.py: the metadata of uploaded images (`EvidenceRecord` of service/app/domain.py)
-- and `InMemoryEvidenceStore`. A byte is a number.
pub mod Pairs
pub mod OnePair
pub mod Latest
pub mod Upload
pub mod Stored
pub mod Uploads
use Prim.Native.String.{slice, len}
use found_roll.Prelude.{
  ℕ, String, Bool, true, false, not, ◌&&◌, ◌||◌, Option, none, some, List, [], ◌∷◌, Dict, Result,
  ok, err, Exec, domain, not_found, unavailable, value_error, key_error, length, keep, eqb, ◌==◌,
  opt_eq, truthy, is_some, or_else, passes, raise_if, require, on_ok, on_some, ◌>>=◌, ◌>>◌, ◌<>◌,
  get, put, values, if◌then◌else◌,
}
use found_roll.Prelude.Json.{Json}

-- What the store takes from the standard library: hexadecimal SHA-256 of bytes, of a text in UTF-8
-- and of canonical JSON. Nothing is assumed of them.
pub record Digests : Type 0 where
  pub sha256_bytes : List ℕ → String
  pub sha256_text : String → String
  pub sha256_json : Json → String

pub data EvidenceOrigin : Type 0 where
  original derived : EvidenceOrigin

pub data EvidenceVisibility : Type 0 where
  staff_only model_authorized : EvidenceVisibility

unfoldable pub EvidenceOrigin-discrete : Discrete EvidenceOrigin
EvidenceOrigin-discrete = hlevel

unfoldable pub EvidenceVisibility-discrete : Discrete EvidenceVisibility
EvidenceVisibility-discrete = hlevel

abbrev pub origin_eq : EvidenceOrigin → EvidenceOrigin → Bool
origin_eq a b = passes (EvidenceOrigin-discrete a b)

abbrev pub visibility_eq : EvidenceVisibility → EvidenceVisibility → Bool
visibility_eq a b = passes (EvidenceVisibility-discrete a b)

pub record EvidenceProvenance : Type 0 where
  pub origin : EvidenceOrigin
  pub source_evidence_id : Option String
  pub transform : String

-- `source_matches_origin`, the validator of a provenance
unfoldable pub source_matches_origin : EvidenceProvenance → Result EvidenceProvenance
unfolding EvidenceOrigin-discrete
source_matches_origin p =
    raise_if (origin_eq p.origin original && is_some p.source_evidence_id)
      (value_error "original evidence cannot cite a source evidence record")
    >> (raise_if (origin_eq p.origin derived && not (truthy p.source_evidence_id))
          (value_error "derived evidence must cite its source evidence record")
        >> ok p)

pub record EvidenceRecord : Type 0 where
  pub id : String
  pub case_id : String
  pub workflow_epoch : String
  pub object_name : String
  pub storage_uri : String
  pub provenance : EvidenceProvenance
  pub sha256 : String
  pub generation : ℕ
  pub mime_type : String
  pub byte_size : ℕ
  pub visibility : EvidenceVisibility
  pub idempotency_key_hash : Option String
  pub command_fingerprint : Option String
  pub created_at : ℕ

-- the arguments of `put`; where `record_id` is none, `new_id` is the random identifier
pub record PutRequest : Type 0 where
  pub case_id : String
  pub workflow_epoch : String
  pub content : List ℕ
  pub mime_type : String
  pub provenance : EvidenceProvenance
  pub visibility : EvidenceVisibility
  pub record_id : Option String
  pub new_id : String
  pub created_at : ℕ
  pub idempotency_key_hash : Option String
  pub command_fingerprint : Option String

pub record EvidenceStore : Type 0 where
  pub records : Dict EvidenceRecord
  pub contents : Dict (List ℕ)

-- `_object_name_for_record_id`
unfoldable pub object_name_for_record_id : String → String
object_name_for_record_id id =
    "evidence/" <> (if slice id 0 4 == "evd-" then slice id 4 (len id) else id)

-- `record_id or _new_record_id()`
unfoldable pub evidence_id : PutRequest → String
evidence_id r = on_some r.record_id (λ id. if id == "" then r.new_id else id) r.new_id

unfoldable pub same_provenance : EvidenceProvenance → EvidenceProvenance → Bool
unfolding EvidenceOrigin-discrete
same_provenance a b =
    origin_eq a.origin b.origin
    && opt_eq a.source_evidence_id b.source_evidence_id
    && a.transform == b.transform

module _ ⦃d : Digests⦄ where
  -- `actual == expected` of `_assert_idempotent_match`
  unfoldable pub same_upload : EvidenceRecord → PutRequest → String → Bool
  unfolding same_provenance EvidenceVisibility-discrete
  same_upload row r object_name =
      row.case_id == r.case_id
      && row.workflow_epoch == r.workflow_epoch
      && row.object_name == object_name
      && row.sha256 == d.sha256_bytes r.content
      && row.mime_type == r.mime_type
      && same_provenance row.provenance r.provenance
      && visibility_eq row.visibility r.visibility
      && opt_eq row.idempotency_key_hash r.idempotency_key_hash
      && opt_eq row.command_fingerprint r.command_fingerprint
      && eqb row.byte_size (length r.content)

  -- the answer of `put` for an identifier that is stored
  unfoldable pub put_existing : EvidenceStore → EvidenceRecord → PutRequest → Result EvidenceRecord
  unfolding same_upload evidence_id object_name_for_record_id
  put_existing store row r = do
    raise_if (not (same_upload row r (object_name_for_record_id (evidence_id r))))
        (domain 409 "evidence_idempotency_conflict")
    content ← require (get store.contents (evidence_id r)) (key_error (evidence_id r))
    raise_if (not (d.sha256_bytes content == row.sha256)) (unavailable "evidence_checksum_mismatch")
    ok row

  unfoldable pub new_record : PutRequest → EvidenceRecord
  unfolding evidence_id object_name_for_record_id
  new_record r =
      let object_name = object_name_for_record_id (evidence_id r) in
      record {
        id = evidence_id r;
        case_id = r.case_id;
        workflow_epoch = r.workflow_epoch;
        object_name = object_name;
        storage_uri = "memory://" <> object_name;
        provenance = r.provenance;
        sha256 = d.sha256_bytes r.content;
        generation = 1;
        mime_type = r.mime_type;
        byte_size = length r.content;
        visibility = r.visibility;
        idempotency_key_hash = r.idempotency_key_hash;
        command_fingerprint = r.command_fingerprint;
        created_at = r.created_at;
      }

  -- `InMemoryEvidenceStore.put`
  unfoldable pub put_evidence : PutRequest → Exec EvidenceStore EvidenceRecord
  unfolding put_existing new_record
  put_evidence r store =
      on_some (get store.records (evidence_id r)) (λ row. (put_existing store row r, store))
        (
          ok (new_record r),
          record store {
            records = put store.records (evidence_id r) (new_record r);
            contents = put store.contents (evidence_id r) r.content;
          },
        )

  -- `get_record`
  unfoldable pub get_record : EvidenceStore → String → Result EvidenceRecord
  get_record store id = require (get store.records id) (not_found "Evidence")

  -- `read`
  unfoldable pub read_evidence : EvidenceStore → String → Result (List ℕ)
  unfolding get_record
  read_evidence store id = do
    row ← get_record store id
    content ← require (get store.contents id) (key_error id)
    raise_if (not (d.sha256_bytes content == row.sha256)) (unavailable "evidence_checksum_mismatch")
    ok content
