-- ===== src/Raft/Log/Order.antt =====
-- `isUpToDate` of raft/log.go orders logs by their last term, then by their last index.
use fraud_scoring_platform.Prelude.{ℕ, ◌≤◌, ◌<◌, ◌≡◌, ◌⊎◌, ◌↔◌, true, arith}
use fraud_scoring_platform.Raft.Log.{RaftLog, last_index, last_term, is_up_to_date}

-- A log that ends in `term` and `index` is at least as up to date as `l`.
abbrev pub IsAtLeast : RaftLog → ℕ → ℕ → Type 0
IsAtLeast l term index = (last_term l < term) ⊎ ((last_term l ≡ term) × (last_index l ≤ index))

pub is_up_to_date_iff :
    (l : RaftLog) (term index : ℕ) → (is_up_to_date l term index ≡ true) ↔ IsAtLeast l term index
unfolding is_up_to_date
is_up_to_date_iff l term index = ground arith

-- The voters' test accepts a log exactly if its last term is later than that of the voter's log, or
-- is the same and its last index is no less. This is a total preorder on logs: of two logs one is
-- at least as up to date as the other, the test carries on along a chain, and two logs that are
-- each at least as up to date as the other have the same last term and last index.
pub is_up_to_date_order :
    (a b c : RaftLog)
    → ((is_up_to_date a (last_term b) (last_index b) ≡ true)
        ↔ IsAtLeast a (last_term b) (last_index b))
      × ((is_up_to_date a (last_term b) (last_index b) ≡ true)
          ⊎ (is_up_to_date b (last_term a) (last_index a) ≡ true))
      × (is_up_to_date a (last_term b) (last_index b) ≡ true
          → is_up_to_date b (last_term c) (last_index c) ≡ true
          → is_up_to_date a (last_term c) (last_index c) ≡ true)
      × (is_up_to_date a (last_term b) (last_index b) ≡ true
          → is_up_to_date b (last_term a) (last_index a) ≡ true
          → (last_term a ≡ last_term b) × (last_index a ≡ last_index b))
unfolding is_up_to_date
is_up_to_date_order a b c =
    (is_up_to_date_iff a (last_term b) (last_index b), ground arith, ground arith, ground arith)
