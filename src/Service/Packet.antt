-- ===== src/Service/Packet.antt =====
-- service/app/agent.py: `deterministic_candidate_packet`, the gates that the custody engine applies
-- before an analyst may ask a private question. A score is in units of 1/10000.
pub mod Leads
use found_roll.Prelude.{
  ℕ, zero, suc, ◌+◌, String, Bool, ◌&&◌, ◌||◌, not, Option, none, some, List, [], ◌∷◌, Result, ok,
  err, conflict, leb, ltb, ◌==◌, truthy, raise_if, ◌>>=◌, ◌>>◌, keep, if◌then◌else◌,
}
use found_roll.Domain.{Candidate, CaseRecord}

unfoldable pub is_eligible : CaseRecord → Candidate → Bool
is_eligible case item =
    item.category == case.category
    && item.route_compatible
    && item.time_compatible
    && item.availability == "AVAILABLE"

-- `sorted(eligible, key=score, reverse=True)`, which keeps the order of equal scores
unfoldable pub insert_score : Candidate → List Candidate → List Candidate
insert_score x [] = x ∷ []
insert_score x (y ∷ ys) =
    let rest = insert_score x ys in
    if leb y.frozen_score x.frozen_score then x ∷ (y ∷ ys) else y ∷ rest

unfoldable pub sort_scores : List Candidate → List Candidate
unfolding insert_score
sort_scores [] = []
sort_scores (x ∷ xs) = insert_score x (sort_scores xs)

-- `xs[:n]`
unfoldable pub take : ℕ → List Candidate → List Candidate
take zero xs = []
take (suc n) [] = []
take (suc n) (x ∷ xs) = x ∷ take n xs

-- `ranked[1].frozen_score if len(ranked) > 1 else 0.0`, of the list without its first candidate
unfoldable pub second_score : List Candidate → ℕ
second_score [] = 0
second_score (c ∷ cs) = c.frozen_score

-- the last check of the packet
unfoldable pub check_packet : List Candidate → Result (List Candidate)
unfolding second_score
check_packet [] = err (conflict "no_eligible_candidates")
check_packet (selected ∷ others) = do
  raise_if
      (ltb selected.visible_signal_count 2
        || ltb selected.frozen_score (second_score others + 1000)
        || not (truthy selected.restricted_attribute_id)
        || not (truthy selected.restricted_value_hash))
      (conflict "candidate_evidence_insufficient")
  ok (selected ∷ others)

unfoldable pub deterministic_candidate_packet :
    CaseRecord → List Candidate → Result (List Candidate)
unfolding is_eligible sort_scores take check_packet
deterministic_candidate_packet case candidates =
    check_packet (take 5 (sort_scores (keep (is_eligible case) candidates)))
