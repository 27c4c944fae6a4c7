-- ===== src/Evidence/Latest.antt =====
-- The pair that service/app/evidence.py chooses, `_latest_complete_pair`: it is one pair, of stored records.
use Prim.Native.Nat.{Ordering}
use Prim.Native.String.{compare as compare_text}
use found_roll.Prelude.{
  String, ◌≡◌, subst, inl, inr, Bool, true, false, some, List, [], ◌∷◌, Dict, get, Option-cases,
  Bool-cases, some_inj, none≢some, if◌then◌else◌, arith, In, refl, ◌⊎◌, keep, put, get-put, get-nil,
  values, ◌==◌,
}
use found_roll.Evidence.{origin_eq, original, EvidenceRecord, EvidenceStore}
use found_roll.Evidence.Pairs.{
  complete_pairs, greatest, key_lt, latest_complete_pair, latest_pair, list_records, max_pair,
  originals, insert_by_id, sort_by_id, Pair, pair_of, records_are_one_pair,
}
use found_roll.Evidence.OnePair.{IsPairOf, one_pair-IsPairOf}

-- the pair is one, of two records of the list
abbrev IsPair : List EvidenceRecord → String → String → Pair → Type 0
IsPair rows case_id workflow_epoch p =
    In p.0 rows × In p.1 rows × (records_are_one_pair p.0 p.1 case_id workflow_epoch ≡ true)

abbrev AllPairs : List EvidenceRecord → String → String → List Pair → Type 0
AllPairs rows case_id workflow_epoch [] = Unit
AllPairs rows case_id workflow_epoch (p ∷ ps) =
    IsPair rows case_id workflow_epoch p × AllPairs rows case_id workflow_epoch ps

-- every record of the table is in the list
abbrev Drawn : List EvidenceRecord → Dict EvidenceRecord → Type 0
Drawn rows table = (id : String) (row : EvidenceRecord) → get table id ≡ some row → In row rows

originals-Drawn :
    (rows rs : List EvidenceRecord) (table : Dict EvidenceRecord)
    → ((row : EvidenceRecord) → In row rs → In row rows)
    → Drawn rows table
    → Drawn rows (originals rs table)
unfolding originals
originals-Drawn rows [] table sub drawn = drawn
originals-Drawn rows (r ∷ rs) table sub drawn =
    originals-Drawn rows rs
      (if origin_eq r.provenance.origin original then put table r.id r else table)
      (λ row there. sub row (inr there)) (either (origin_eq r.provenance.origin original))
  where
    either : (first : Bool) → Drawn rows (if first then put table r.id r else table)
    either false id row p = drawn id row p
    either true id row p = elim (Bool-cases (r.id == id)) [
      | inl mine ↦ sub row (inl (some_inj (rw (get-put table r.id id r, mine) at p)))
      | inr other ↦ drawn id row (rw (get-put table r.id id r, other) at p)
    ]

pair_of-IsPair :
    (rows : List EvidenceRecord) (table : Dict EvidenceRecord) (case_id workflow_epoch : String)
    (r : EvidenceRecord) (p : Pair)
    → Drawn rows table
    → In r rows
    → pair_of table case_id workflow_epoch r ≡ some p
    → IsPair rows case_id workflow_epoch p
unfolding pair_of
pair_of-IsPair rows table case_id workflow_epoch r p drawn here v =
    elim (Option-cases r.provenance.source_evidence_id) [
      | inl missing ↦ absurd (ground arith)
      | inr (source, found) ↦ elim (Option-cases (get table source)) [
        | inl missing ↦ absurd (ground arith)
        | inr (row, stored) ↦
            elim (Bool-cases (records_are_one_pair row r case_id workflow_epoch)) [
              | inl one ↦
                  subst (IsPair rows case_id workflow_epoch) {x = (row, r)} {y = p} (ground arith)
                    (drawn source row stored, here, one)
              | inr other ↦ absurd (ground arith)
            ]
      ]
    ]

complete_pairs-AllPairs :
    (rows : List EvidenceRecord) (table : Dict EvidenceRecord) (case_id workflow_epoch : String)
    (rs : List EvidenceRecord)
    → Drawn rows table
    → ((row : EvidenceRecord) → In row rs → In row rows)
    → AllPairs rows case_id workflow_epoch (complete_pairs table case_id workflow_epoch rs)
unfolding complete_pairs
complete_pairs-AllPairs rows table case_id workflow_epoch [] drawn sub = tt
complete_pairs-AllPairs rows table case_id workflow_epoch (r ∷ rs) drawn sub =
    let rest =
      complete_pairs-AllPairs rows table case_id workflow_epoch rs drawn
        (λ row there. sub row (inr there)) in
    elim (Option-cases (pair_of table case_id workflow_epoch r)) [
      | inl missing ↦ rw missing rest
      | inr (p, found) ↦ rw found (
        pair_of-IsPair rows table case_id workflow_epoch r p drawn (sub r (inl refl)) found,
        rest,
      )
    ]

max_pair-IsPair :
    (rows : List EvidenceRecord) (case_id workflow_epoch : String) (best : Pair) (ps : List Pair)
    → IsPair rows case_id workflow_epoch best
    → AllPairs rows case_id workflow_epoch ps
    → IsPair rows case_id workflow_epoch (max_pair best ps)
unfolding max_pair
max_pair-IsPair rows case_id workflow_epoch best [] b all = b
max_pair-IsPair rows case_id workflow_epoch best (p ∷ ps) b (first, all) =
    max_pair-IsPair rows case_id workflow_epoch (if key_lt best p then p else best) ps
      (either (key_lt best p)) all
  where
    either : (later : Bool) → IsPair rows case_id workflow_epoch (if later then p else best)
    either true = first
    either false = b

greatest-IsPair :
    (rows : List EvidenceRecord) (case_id workflow_epoch : String) (ps : List Pair) (p : Pair)
    → AllPairs rows case_id workflow_epoch ps
    → greatest ps ≡ some p
    → IsPair rows case_id workflow_epoch p
unfolding greatest
greatest-IsPair rows case_id workflow_epoch [] p all v = absurd (none≢some v)
greatest-IsPair rows case_id workflow_epoch (q ∷ qs) p (first, all) v =
    subst (IsPair rows case_id workflow_epoch) (some_inj v)
      (max_pair-IsPair rows case_id workflow_epoch q qs first all)

In-insert_by_id :
    (a : EvidenceRecord) (l : List EvidenceRecord) (row : EvidenceRecord)
    → In row (insert_by_id a l)
    → (a ≡ row) ⊎ In row l
unfolding insert_by_id
In-insert_by_id a [] row h = h
In-insert_by_id a (b ∷ rest) row h = go (compare_text b.id a.id) (In-insert_by_id a rest row) h
  where
    go :
        (o : Ordering)
        → (In row (insert_by_id a rest) → (a ≡ row) ⊎ In row rest)
        → In row (elim o [ Ordering.lt ↦ b ∷ insert_by_id a rest | _ ↦ a ∷ (b ∷ rest) ])
        → (a ≡ row) ⊎ In row (b ∷ rest)
    go Ordering.lt ih (inl here) = inr (inl here)
    go Ordering.lt ih (inr there) = elim (ih there) [
      | inl mine ↦ inl mine
      | inr other ↦ inr (inr other)
    ]
    go Ordering.eq ih w = w
    go Ordering.gt ih w = w

In-sort_by_id : (l : List EvidenceRecord) (row : EvidenceRecord) → In row (sort_by_id l) → In row l
unfolding sort_by_id
In-sort_by_id [] row h = h
In-sort_by_id (a ∷ rest) row h = elim (In-insert_by_id a (sort_by_id rest) row h) [
  | inl mine ↦ inl mine
  | inr other ↦ inr (In-sort_by_id rest row other)
]

In-keep :
    (test : EvidenceRecord → Bool) (l : List EvidenceRecord) (row : EvidenceRecord)
    → In row (keep test l)
    → In row l
unfolding keep
In-keep test [] row h = h
In-keep test (a ∷ rest) row h = elim (Bool-cases (test a)) [
  | inl taken ↦
      elim (subst (λ z. In row (if z then a ∷ keep test rest else keep test rest)) taken h) [
        | inl here ↦ inl here
        | inr there ↦ inr (In-keep test rest row there)
      ]
  | inr dropped ↦ inr (
      In-keep test rest row
        (subst (λ z. In row (if z then a ∷ keep test rest else keep test rest)) dropped h))
]

pub latest_complete_pair-IsPairOf :
    (store : EvidenceStore) (case_id workflow_epoch : String) (p : Pair)
    → latest_complete_pair store case_id workflow_epoch ≡ some p
    → IsPairOf store case_id workflow_epoch p.0 p.1
unfolding latest_complete_pair latest_pair list_records
latest_complete_pair-IsPairOf store case_id workflow_epoch p v =
    let rows = list_records store case_id in
    let table = originals rows [] in
    let drawn =
      originals-Drawn rows rows [] (λ row there. there)
        (λ id row e. absurd (none≢some (rw get-nil at e))) in
    let (o_in, p_in, one) =
      greatest-IsPair rows case_id workflow_epoch (complete_pairs table case_id workflow_epoch rows)
        p
        (complete_pairs-AllPairs rows table case_id workflow_epoch rows drawn (λ row there. there))
        v in
    one_pair-IsPairOf store case_id workflow_epoch p.0 p.1 (stored p.0 o_in) (stored p.1 p_in) one
  where
    stored :
        (row : EvidenceRecord) → In row (list_records store case_id) → In row (values store.records)
    stored row there =
        In-keep (λ (r : EvidenceRecord). r.case_id == case_id) (values store.records) row
          (In-sort_by_id
            (keep (λ (r : EvidenceRecord). r.case_id == case_id) (values store.records)) row there)
