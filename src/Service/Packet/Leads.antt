-- ===== src/Service/Packet/Leads.antt =====
-- What a packet of `deterministic_candidate_packet` of service/app/agent.py is.
use found_roll.Prelude.{
  ℕ, zero, suc, ◌+◌, ◌≤◌, ◌≡◌, refl, Bool, true, List, [], ◌∷◌, ok, leb, arith, Bool-cases, inl,
  inr, All, length, keep,
}
use found_roll.Domain.{Candidate, CaseRecord}
use found_roll.Service.Packet.{
  check_packet, deterministic_candidate_packet, insert_score, is_eligible, second_score,
  sort_scores, take,
}

-- no later candidate scores more
abbrev Sorted : List Candidate → Type 0
Sorted [] = Unit
Sorted (x ∷ xs) = All (λ (c : Candidate). c.frozen_score ≤ x.frozen_score) xs × Sorted xs

All-insert_score {κ} :
    (P : Candidate → Type κ) (x : Candidate) (ys : List Candidate)
    → P x
    → All P ys
    → All P (insert_score x ys)
unfolding insert_score
All-insert_score P x [] px hs = (px, tt)
All-insert_score P x (y ∷ ys) px hs = elim (Bool-cases (leb y.frozen_score x.frozen_score)) [
  | inl p ↦ rw p (px, hs)
  | inr q ↦ rw q (hs.0, All-insert_score P x ys px hs.1)
]

All-sort_scores {κ} :
    (P : Candidate → Type κ) (xs : List Candidate) → All P xs → All P (sort_scores xs)
unfolding sort_scores
All-sort_scores P [] hs = tt
All-sort_scores P (x ∷ xs) hs =
    All-insert_score P x (sort_scores xs) hs.0 (All-sort_scores P xs hs.1)

All-lower :
    (a b : ℕ) (ys : List Candidate)
    → a ≤ b
    → All (λ (c : Candidate). c.frozen_score ≤ a) ys
    → All (λ (c : Candidate). c.frozen_score ≤ b) ys
All-lower a b [] le hs = tt
All-lower a b (y ∷ ys) le hs = (omega (arith, le, hs.0), All-lower a b ys le hs.1)

insert_score-Sorted : (x : Candidate) (ys : List Candidate) → Sorted ys → Sorted (insert_score x ys)
unfolding insert_score
insert_score-Sorted x [] s = (tt, tt)
insert_score-Sorted x (y ∷ ys) s = elim (Bool-cases (leb y.frozen_score x.frozen_score)) [
  | inl p ↦
      let le : y.frozen_score ≤ x.frozen_score = ground (arith, p) in
      rw p ((le, All-lower y.frozen_score x.frozen_score ys le s.0), s)
  | inr q ↦ rw q (
    All-insert_score (λ (c : Candidate). c.frozen_score ≤ y.frozen_score) x ys (ground (arith, q))
        s.0,
    insert_score-Sorted x ys s.1,
  )
]

sort_scores-Sorted : (xs : List Candidate) → Sorted (sort_scores xs)
unfolding sort_scores
sort_scores-Sorted [] = tt
sort_scores-Sorted (x ∷ xs) = insert_score-Sorted x (sort_scores xs) (sort_scores-Sorted xs)

All-take {κ} : (P : Candidate → Type κ) (n : ℕ) (xs : List Candidate) → All P xs → All P (take n xs)
unfolding take
All-take P zero xs hs = tt
All-take P (suc n) [] hs = tt
All-take P (suc n) (x ∷ xs) hs = (hs.0, All-take P n xs hs.1)

take-Sorted : (n : ℕ) (xs : List Candidate) → Sorted xs → Sorted (take n xs)
unfolding take
take-Sorted zero xs s = tt
take-Sorted (suc n) [] s = tt
take-Sorted (suc n) (x ∷ xs) s =
    (All-take (λ (c : Candidate). c.frozen_score ≤ x.frozen_score) n xs s.0, take-Sorted n xs s.1)

length-take : (n : ℕ) (xs : List Candidate) → length (take n xs) ≤ n
unfolding take
length-take zero xs = omega arith
length-take (suc n) [] = omega arith
length-take (suc n) (x ∷ xs) = omega (arith, length-take n xs)

All-keep : (test : Candidate → Bool) (xs : List Candidate) → All (λ c. test c ≡ true) (keep test xs)
unfolding keep
All-keep test [] = tt
All-keep test (x ∷ xs) = elim (Bool-cases (test x)) [
  | inl p ↦ rw p (p, All-keep test xs)
  | inr q ↦ rw q (All-keep test xs)
]

-- A packet: one selected candidate that leads all the others by the margin.
pub record IsPacket (case : CaseRecord) (packet : List Candidate) : Type 0 where
  pub selected : Candidate
  pub others : List Candidate
  pub made : packet ≡ selected ∷ others
  pub bounded : length packet ≤ 5
  pub eligible : All (λ (c : Candidate). is_eligible case c ≡ true) packet
  pub leads : All (λ (c : Candidate). c.frozen_score + 1000 ≤ selected.frozen_score) others
  pub signals : 2 ≤ selected.visible_signal_count

below :
    (s t : ℕ) (cs : List Candidate)
    → t + 1000 ≤ s
    → All (λ (c : Candidate). c.frozen_score ≤ t) cs
    → All (λ (c : Candidate). c.frozen_score + 1000 ≤ s) cs
below s t [] le hs = tt
below s t (c ∷ cs) le hs = (omega (arith, le, hs.0), below s t cs le hs.1)

leads-All :
    (s : ℕ) (others : List Candidate)
    → Sorted others
    → second_score others + 1000 ≤ s
    → All (λ (c : Candidate). c.frozen_score + 1000 ≤ s) others
unfolding second_score
leads-All s [] sorted le = tt
leads-All s (c ∷ cs) sorted le = (le, below s c.frozen_score cs le sorted.0)

check_packet-IsPacket :
    (case : CaseRecord) (ranked packet : List Candidate)
    → check_packet ranked ≡ ok packet
    → Sorted ranked
    → length ranked ≤ 5
    → All (λ (c : Candidate). is_eligible case c ≡ true) ranked
    → IsPacket case packet
unfolding check_packet
check_packet-IsPacket case [] packet v sorted few eligible = absurd (ground (arith, v))
check_packet-IsPacket case (x ∷ xs) packet v sorted few eligible =
    let same : packet ≡ x ∷ xs = ground (arith, v) in
    let margin : second_score xs + 1000 ≤ x.frozen_score = ground (arith, v) in
    rw same (record {
      selected = x;
      others = xs;
      made = refl;
      bounded = few;
      eligible = eligible;
      leads = leads-All x.frozen_score xs sorted.1 margin;
      signals = ground (arith, v);
    })

-- A packet holds at most five candidates, all eligible, and its first one leads every other of them
-- by the margin 0.10 and has two visible signals.
pub deterministic_candidate_packet-IsPacket :
    (case : CaseRecord) (candidates packet : List Candidate)
    → deterministic_candidate_packet case candidates ≡ ok packet
    → IsPacket case packet
unfolding deterministic_candidate_packet
deterministic_candidate_packet-IsPacket case candidates packet v =
    let kept = keep (is_eligible case) candidates in
    check_packet-IsPacket case (take 5 (sort_scores kept)) packet v
      (take-Sorted 5 (sort_scores kept) (sort_scores-Sorted kept))
      (length-take 5 (sort_scores kept))
      (All-take (λ (c : Candidate). is_eligible case c ≡ true) 5 (sort_scores kept)
        (All-sort_scores (λ (c : Candidate). is_eligible case c ≡ true) kept
          (All-keep (is_eligible case) candidates)))
