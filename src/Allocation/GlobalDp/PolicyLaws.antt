-- ===== src/Allocation/GlobalDp/PolicyLaws.antt =====
-- The laws that the policy of `allocate` satisfies.
use native.Mathlib.Nat.{div-add-mod, le_trans}
use shapleymcg.Common.{
  ℕ, zero, suc, ◌*◌, ◌/◌, ◌%◌, ◌≤◌, ◌≡◌, refl, true, List, [], ◌∷◌, arith, ltb, ltb→le, ◌∈◌, All,
  Some, Memᴰ,
}
use shapleymcg.Common.Double.{Double, ◌≼◌, is_finite, ≼_of_lt}
use shapleymcg.Common.Sort.{sorted, sorted-mem, mem-sorted, sorted-IsAscending}
use shapleymcg.Allocation.Candidate.{Candidate}
use shapleymcg.Common.Sums.{sum_of}
use shapleymcg.Allocation.Staircase.{
  staircase-mem, staircase_complete, pareto_frontier-mem, pareto_frontier_complete,
}
use shapleymcg.Allocation.Table.{State, Table}
use shapleymcg.Allocation.Fill.Sound.{KeepsItems}
use shapleymcg.Allocation.Fill.Complete.{Covers}
use shapleymcg.Allocation.GlobalDp.{cost_lt, prune, policy}

div_mono : (a b q : ℕ) → a ≤ b → a / q ≤ b / q
div_mono a b zero h = omega arith
div_mono a b (suc q) h = grind arith

pub cost_rises : (a b : ℕ) → ltb a b ≡ true → a ≤ b
cost_rises a b h = ground arith

module _ {D M : Type 0} ⦃f : Double D⦄ where
  pub prune-mem : (t : Table D M) → All (λ x. x ∈ t) (prune t)
  prune-mem t x m =
      mem-sorted cost_lt t
        (staircase-mem (λ (s : State D M). s.1.0) f.infinity (sorted cost_lt t) (unfold prune in m))

  -- Pruning keeps, for every state with finite damage, one that uses and damages no more.
  pub prune_complete :
      (t : Table D M) (x : State D M)
      → x ∈ t
      → is_finite x.1.0 ≡ true
      → Some (λ y. (y.0 ≤ x.0) × (y.1.0 ≼ x.1.0)) (prune t)
  prune_complete t x m fin =
      let all =
        staircase_complete (λ (s : State D M). s.1.0) (λ s. s.0) (sorted cost_lt t) x
          (sorted-IsAscending cost_lt (λ s. s.0) (λ a b. cost_rises a.0 b.0) (λ a b. ltb→le a.0 b.0)
            t)
          (sorted-mem cost_lt t m) fin in
      unfold prune in all

  module _ (budget quantum : ℕ) where
    pub policy-KeepsItems : KeepsItems (policy {D = D} {M = M} budget quantum)
    unfolding policy
    policy-KeepsItems = record {
      pick-mem = λ cs c m. pareto_frontier-mem cs m;
      tidy-mem = prune-mem;
    }

    pub policy-Covers : Covers (policy {D = D} {M = M} budget quantum) ◌≤◌
    unfolding policy
    policy-Covers = record {
      better_le = λ v w h. ≼_of_lt v.0 w.0 h;
      worse_le = λ v w h. h;
      rel_trans = λ a b c h k. le_trans h k;
      rel_add = λ a b c d h k. omega arith;
      over_rel = λ a b h k. ground arith;
      over_add = λ a b h. ground arith;
      pick_covers = λ cs c m fin.
          let (b, mb, (le, dm)) = pareto_frontier_complete cs c m fin in
          (b, mb, (div_mono b.stored_bytes c.stored_bytes quantum le, dm));
      tidy_covers = prune_complete;
    }

    -- Where the quantum divides every size, the bytes of a selection are its cost times the quantum.
    pub sum_of_divided :
        (sel : List (Candidate D M))
        → All (λ c. c.stored_bytes % quantum ≡ 0) sel
        → sum_of (λ (c : Candidate D M). c.stored_bytes) sel
          ≡ quantum * sum_of (policy {D = D} {M = M} budget quantum).cost sel
    unfolding sum_of policy
    sum_of_divided [] h = omega arith
    sum_of_divided (c ∷ sel) h = omega (
      arith,
      div-add-mod c.stored_bytes quantum,
      h c (Memᴰ.head refl),
      sum_of_divided sel (λ x m. h x (Memᴰ.tail m)),
    )
