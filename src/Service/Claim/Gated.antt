-- ===== src/Service/Claim/Gated.antt =====
-- What the hard gates and the digest of an answer in `submit_claim_evidence` of
-- service/app/custody_service.py ask for.
use found_roll.Prelude.{
  ◌+◌, ◌≤◌, String, ◌≡◌, ◌≢◌, refl, sym, ap, ◌∙◌, Bool, true, ◌&&◌, Option, none, some, List, [],
  ◌∷◌, In, ok, get, arith, eq_iff, leb, is_some, Option-cases, inl, inr, on_some, ◌==◌,
}
use found_roll.Prelude.Json.{Hashing}
use found_roll.Domain.{Candidate, CaseRecord}
use found_roll.Repository.{Repo}
use found_roll.Repository.Commit.{get_candidate}
use found_roll.Service.{Settings}
use found_roll.Service.Secrets.{secret_digest}
use found_roll.Service.Claim.{
  answer_correct, hard_gates, list_candidates, runner_up, selected_candidate,
}

In-list_candidates :
    (repo : Repo) (ids : List String) (id : String) (c : Candidate)
    → In id ids
    → get repo.candidates id ≡ some c
    → In c (list_candidates repo ids)
unfolding list_candidates
In-list_candidates repo [] id c there found = absurd there
In-list_candidates repo (a ∷ ids) id c (inl here) found = rw (here, found) (inl refl)
In-list_candidates repo (a ∷ ids) id c (inr there) found =
    let rest = In-list_candidates repo ids id c there found in
    elim (Option-cases (get repo.candidates a)) [
      | inl missing ↦ rw missing rest
      | inr (d, known) ↦ rw known (inr rest)
    ]

other_le_runner_up :
    (id : String) (ranked : List Candidate) (c : Candidate)
    → In c ranked
    → c.id ≢ id
    → c.frozen_score ≤ runner_up id ranked
unfolding runner_up
other_le_runner_up id [] c there differ = absurd there
other_le_runner_up id (a ∷ rest) c (inl here) differ =
    let other : a.id ≢ id = λ e. differ (ap (λ (z : Candidate). z.id) (sym here) ∙ e) in
    let score : a.frozen_score ≡ c.frozen_score = ap (λ (z : Candidate). z.frozen_score) here in
    ground (arith, other, score, eq_iff a.id id)
other_le_runner_up id (a ∷ rest) c (inr there) differ =
    let ih = other_le_runner_up id rest c there differ in ground (arith, ih)

-- The selected candidate of a case and the answer that opens it: the candidate is of the case's
-- category, fits its route and time, is available and has two visible signals; its score leads that of
-- every other candidate of the case by 0.10; and the digest of the answer is that of its secret.
pub record IsAnswered ⦃h : Hashing⦄ (repo : Repo) (settings : Settings) (case : CaseRecord)
    (answer : String) : Type 0 where
  pub item_id : String
  pub selected : case.selected_item_id ≡ some item_id
  pub candidate : Candidate
  pub found : get repo.candidates item_id ≡ some candidate
  pub same_category : candidate.category ≡ case.category
  pub fits_route : candidate.route_compatible ≡ true
  pub fits_time : candidate.time_compatible ≡ true
  pub available : candidate.availability ≡ "AVAILABLE"
  pub signals : 2 ≤ candidate.visible_signal_count
  pub scored : 1000 ≤ candidate.frozen_score
  pub leads :
      (id : String) (other : Candidate)
      → In id case.candidate_ids
      → get repo.candidates id ≡ some other
      → other.id ≢ candidate.id
      → other.frozen_score + 1000 ≤ candidate.frozen_score
  pub same_digest :
      candidate.restricted_value_hash ≡ some (secret_digest answer settings.secret_pepper)

seven :
    (a b c e f g i : Bool)
    → a && b && c && e && f && g && i ≡ true
    → (a ≡ true) × (b ≡ true) × (c ≡ true) × (e ≡ true) × (f ≡ true) × (g ≡ true) × (i ≡ true)
seven a b c e f g i v = (
  ground arith,
  ground arith,
  ground arith,
  ground arith,
  ground arith,
  ground arith,
  ground arith,
)

both : (a b : Bool) → a && b ≡ true → (a ≡ true) × (b ≡ true)
both a b v = (ground arith, ground arith)

selected_candidate-ok :
    (repo : Repo) (case : CaseRecord) (c : Candidate)
    → selected_candidate repo case ≡ ok c
    → (id : String) × (case.selected_item_id ≡ some id) × (get repo.candidates id ≡ some c)
unfolding selected_candidate get_candidate
selected_candidate-ok repo case c v = elim (Option-cases case.selected_item_id) [
  | inl missing ↦ absurd (ground (arith, missing))
  | inr (id, selected) ↦ elim (Option-cases (get repo.candidates id)) [
    | inl missing ↦ absurd (ground (arith, selected, missing))
    | inr (d, found) ↦
        let e : d ≡ c = ground (arith, selected, found) in (id, selected, found ∙ ap some e)
  ]
]

module _ ⦃h : Hashing⦄ where
  stored_digest :
      (stored : Option String) (digest : String)
      → is_some stored ≡ true
      → (digest == on_some stored (λ d. d) "") ≡ true
      → stored ≡ some digest
  stored_digest none digest given e = absurd (ground (arith, given))
  stored_digest (some d) digest given e = ap some (ground (arith, eq_iff digest d))

  pub answer_correct-IsAnswered :
      (repo : Repo) (settings : Settings) (case : CaseRecord) (c : Candidate) (answer : String)
      → selected_candidate repo case ≡ ok c
      → answer_correct settings case c (list_candidates repo case.candidate_ids) answer ≡ true
      → IsAnswered repo settings case answer
  unfolding answer_correct hard_gates
  answer_correct-IsAnswered repo settings case c answer picked correct =
      let (id, selected, found) = selected_candidate-ok repo case c picked in
      let ranked = list_candidates repo case.candidate_ids in
      let digest = secret_digest answer settings.secret_pepper in
      let (gates, equal) =
        both (hard_gates case c ranked) (digest == on_some c.restricted_value_hash (λ d. d) "")
          correct in
      let (category, route, time, open_, signals, margin, secret) =
        seven (c.category == case.category) c.route_compatible c.time_compatible
          (c.availability == "AVAILABLE") (leb 2 c.visible_signal_count)
          (leb (runner_up c.id ranked + 1000) c.frozen_score) (is_some c.restricted_value_hash)
          gates in
      let best : runner_up c.id ranked + 1000 ≤ c.frozen_score = ground (arith, margin) in
      record {
        item_id = id;
        selected = selected;
        candidate = c;
        found = found;
        same_category = ground (arith, category, eq_iff c.category case.category);
        fits_route = route;
        fits_time = time;
        available = ground (arith, open_, eq_iff c.availability "AVAILABLE");
        signals = ground (arith, signals);
        scored = omega (arith, best);
        leads = λ i other listed known differ. omega (
          arith,
          best,
          other_le_runner_up c.id ranked other
              (In-list_candidates repo case.candidate_ids i other listed known) differ,
        );
        same_digest = stored_digest c.restricted_value_hash digest secret equal;
      }
