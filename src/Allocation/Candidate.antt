-- ===== src/Allocation/Candidate.antt =====
-- The data of src/quant_pipeline/allocation/global_dp.py. Sizes are natural numbers: the tests of the
-- source on Boolean, fractional and negative sizes are the type here. The metadata of a candidate is a
-- type parameter, since the allocators hand it on unread.
use shapleymcg.Common.{
  ℕ, ◌≤◌, ◌≡◌, String, Bool, true, false, not, ◌&&◌, ◌||◌, List, arith, ltb, nat_eq, str_ltb,
}
use shapleymcg.Common.Double.{Double}

pub record Candidate (D M : Type 0) : Type 0 where
  pub unit_id : String
  pub choice_id : String
  pub stored_bytes : ℕ
  pub predicted_damage : D
  pub metadata : M

pub record Allocation (D M : Type 0) : Type 0 where
  pub choices : List (Candidate D M)
  pub stored_bytes : ℕ
  pub predicted_damage : D

pub record AccountedAllocation (D M : Type 0) : Type 0 where
  pub choices : List (Candidate D M)
  pub variable_payload_bytes : ℕ
  pub fixed_layer_shared_bytes : ℕ
  pub stored_bytes : ℕ
  pub predicted_damage : D

module _ {D M : Type 0} ⦃f : Double D⦄ where
  -- `(c.stored_bytes, c.predicted_damage, c.choice_id)`, compared as Python compares tuples
  unfoldable pub candidate_lt : Candidate D M → Candidate D M → Bool
  candidate_lt a b =
      ltb a.stored_bytes b.stored_bytes
      || nat_eq a.stored_bytes b.stored_bytes
        && (f.lt a.predicted_damage b.predicted_damage
            || not (f.lt b.predicted_damage a.predicted_damage) && str_ltb a.choice_id b.choice_id)

  pub candidate_lt_rises :
      (a b : Candidate D M) → candidate_lt a b ≡ true → a.stored_bytes ≤ b.stored_bytes
  unfolding candidate_lt
  candidate_lt_rises a b h = ground arith

  pub candidate_lt_falls :
      (a b : Candidate D M) → candidate_lt a b ≡ false → b.stored_bytes ≤ a.stored_bytes
  unfolding candidate_lt
  candidate_lt_falls a b h = ground arith
