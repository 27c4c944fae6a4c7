-- ===== src/Evidence/Pairs.antt =====
-- service/app/evidence.py: an original and its derived preview, which an upload stores together.
use Prim.Native.Nat.{Ordering}
use Prim.Native.String.{compare as compare_text}
use found_roll.Prelude.{
  ℕ, String, Bool, true, false, not, ◌&&◌, ◌||◌, Option, none, some, List, [], ◌∷◌, Dict, ltb, eqb,
  keep, ◌==◌, opt_eq, truthy, on_some, get, put, values, if◌then◌else◌,
}
use found_roll.Evidence.{
  EvidenceOrigin-discrete, origin_eq, original, derived, EvidenceRecord, EvidenceStore,
  EvidenceVisibility-discrete, visibility_eq, model_authorized,
}

abbrev pub preview_transform : String
preview_transform = "exif-transpose-fit-1600-jpeg-v1"

abbrev pub original_transform : String
original_transform = "unaltered-upload-v1"

-- `_records_are_one_pair`
unfoldable pub records_are_one_pair : EvidenceRecord → EvidenceRecord → String → String → Bool
unfolding EvidenceOrigin-discrete
records_are_one_pair o p case_id workflow_epoch =
    o.case_id == case_id
    && p.case_id == case_id
    && o.workflow_epoch == workflow_epoch
    && p.workflow_epoch == workflow_epoch
    && origin_eq o.provenance.origin original
    && o.provenance.transform == original_transform
    && origin_eq p.provenance.origin derived
    && p.provenance.transform == preview_transform
    && opt_eq p.provenance.source_evidence_id (some o.id)
    && opt_eq o.idempotency_key_hash p.idempotency_key_hash
    && opt_eq o.command_fingerprint p.command_fingerprint

-- `{record.id: record for record in records if record.provenance.origin == ORIGINAL}`
unfoldable pub originals : List EvidenceRecord → Dict EvidenceRecord → Dict EvidenceRecord
unfolding EvidenceOrigin-discrete
originals [] table = table
originals (r ∷ rs) table =
    originals rs (if origin_eq r.provenance.origin original then put table r.id r else table)

abbrev pub Pair : Type 0
Pair = EvidenceRecord × EvidenceRecord

-- the pair of one preview, if it completes one
unfoldable pub pair_of : Dict EvidenceRecord → String → String → EvidenceRecord → Option Pair
unfolding EvidenceOrigin-discrete records_are_one_pair
pair_of table case_id workflow_epoch preview =
    if not (origin_eq preview.provenance.origin derived)
      || not (truthy preview.provenance.source_evidence_id)
    then none
    else on_some preview.provenance.source_evidence_id
        (λ source_id.
          on_some (get table source_id)
            (λ row.
              if records_are_one_pair row preview case_id workflow_epoch
              then some (row, preview)
              else none)
            none)
        none

unfoldable pub complete_pairs :
    Dict EvidenceRecord → String → String → List EvidenceRecord → List Pair
unfolding pair_of
complete_pairs table case_id workflow_epoch [] = []
complete_pairs table case_id workflow_epoch (r ∷ rs) =
    let rest = complete_pairs table case_id workflow_epoch rs in
    on_some (pair_of table case_id workflow_epoch r) (λ p. p ∷ rest) rest

abbrev later_of : Pair → ℕ
later_of p = if ltb p.0.created_at p.1.created_at then p.1.created_at else p.0.created_at

-- the first key is less than the second, as tuples are compared
unfoldable pub key_lt : Pair → Pair → Bool
key_lt a b =
    ltb (later_of a) (later_of b)
    || eqb (later_of a) (later_of b)
      && (ltb a.1.created_at b.1.created_at
          || eqb a.1.created_at b.1.created_at
            && elim (compare_text a.1.id b.1.id) [ Ordering.lt ↦ true | _ ↦ false ])

-- `max(pairs, key=…)` from a first pair: the first of the greatest
unfoldable pub max_pair : Pair → List Pair → Pair
unfolding key_lt
max_pair best [] = best
max_pair best (p ∷ ps) = max_pair (if key_lt best p then p else best) ps

-- `max(pairs, key=…)`, `none` where there are no pairs
unfoldable pub greatest : List Pair → Option Pair
unfolding max_pair
greatest [] = none
greatest (p ∷ ps) = some (max_pair p ps)

-- `_latest_complete_pair`
unfoldable pub latest_pair : List EvidenceRecord → String → String → Option Pair
unfolding originals complete_pairs greatest
latest_pair records case_id workflow_epoch =
    greatest (complete_pairs (originals records []) case_id workflow_epoch records)

-- `sorted(rows, key=lambda row: row.id)`
unfoldable pub insert_by_id : EvidenceRecord → List EvidenceRecord → List EvidenceRecord
insert_by_id a [] = a ∷ []
insert_by_id a (b ∷ rest) =
    let later = insert_by_id a rest in
    elim (compare_text b.id a.id) [ Ordering.lt ↦ b ∷ later | _ ↦ a ∷ (b ∷ rest) ]

unfoldable pub sort_by_id : List EvidenceRecord → List EvidenceRecord
unfolding insert_by_id
sort_by_id [] = []
sort_by_id (a ∷ rest) = insert_by_id a (sort_by_id rest)

-- `list_records`
unfoldable pub list_records : EvidenceStore → String → List EvidenceRecord
unfolding sort_by_id
list_records store case_id =
    sort_by_id (keep (λ (row : EvidenceRecord). row.case_id == case_id) (values store.records))

-- `latest_complete_pair`
unfoldable pub latest_complete_pair : EvidenceStore → String → String → Option Pair
unfolding latest_pair list_records
latest_complete_pair store case_id workflow_epoch =
    latest_pair (list_records store case_id) case_id workflow_epoch

-- `get_exact_complete_pair`
unfoldable pub get_exact_complete_pair :
    EvidenceStore → String → String → String → String → Option Pair
unfolding records_are_one_pair
get_exact_complete_pair store case_id workflow_epoch original_id preview_id =
    on_some (get store.records original_id)
      (λ o.
        on_some (get store.records preview_id)
          (λ p. if records_are_one_pair o p case_id workflow_epoch then some (o, p) else none) none)
      none

-- `list_model_authorized`
unfoldable pub list_model_authorized : EvidenceStore → String → String → List EvidenceRecord
unfolding latest_complete_pair EvidenceVisibility-discrete
list_model_authorized store case_id workflow_epoch =
    on_some (latest_complete_pair store case_id workflow_epoch)
      (λ p. if visibility_eq p.1.visibility model_authorized then p.1 ∷ [] else []) []
