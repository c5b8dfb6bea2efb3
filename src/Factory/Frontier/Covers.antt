-- ===== src/Factory/Frontier/Covers.antt =====
-- The laws of the two policies of `_internal_frontier`.
use native.Mathlib.Nat.{le_trans}
use shapleymcg.Common.{
  ℕ, ◌+◌, ◌≤◌, ◌≡◌, refl, sym, ap₂, ◌∙◌, subst, Bool, true, false, List, [], ◌∷◌, arith, ◌∈◌, All,
  Some, Memᴰ, nat_keys, mem-map, mem_of_map,
}
use shapleymcg.Common.Dict.{Dict, get-mem}
use shapleymcg.Common.Double.{Double, ◌≼◌, ≼_refl, ≼_trans, ≼_of_lt}
use shapleymcg.Allocation.Candidate.{Candidate}
use shapleymcg.Allocation.Staircase.{pareto_frontier-mem, pareto_frontier_complete}
use shapleymcg.Allocation.Table.{offer, Holds, offer-Holds, offer-keeps, offer-All}
use shapleymcg.Allocation.Fill.Sound.{KeepsItems}
use shapleymcg.Allocation.Fill.Complete.{Covers}
use shapleymcg.Allocation.GlobalDp.PolicyLaws.{prune-mem, prune_complete}
use shapleymcg.Factory.Frontier.{cheaper, fill_costs, best_by_cost, frontier_policy}

-- How the costs of profiles are compared: exactly where every cost is kept.
abbrev pub FrontierRel : Bool → ℕ → ℕ → Type 0
FrontierRel true a b = a ≡ b
FrontierRel false a b = a ≤ b

module _ {D M : Type 0} ⦃f : Double D⦄ where
  cheaper_le : (a b : Candidate D M) → cheaper a b ≡ true → a.predicted_damage ≼ b.predicted_damage
  unfolding cheaper
  cheaper_le a b h = ground (arith, f.lt_asymm a.predicted_damage b.predicted_damage)

  not_cheaper_le :
      (a b : Candidate D M) → cheaper a b ≡ false → b.predicted_damage ≼ a.predicted_damage
  unfolding cheaper
  not_cheaper_le a b h = ground arith

  -- Each entry is a candidate at its cost.
  abbrev IsCosted : List (Candidate D M) → ℕ × Candidate D M → Type 0
  IsCosted all e = (e.1 ∈ all) × (e.1.stored_bytes ≡ e.0)

  fill_costs-IsCosted :
      (all cs : List (Candidate D M)) (t : Dict ℕ (Candidate D M))
      → All (λ c. c ∈ all) cs
      → All (IsCosted all) t
      → All (IsCosted all) (fill_costs cs t)
  unfolding fill_costs
  fill_costs-IsCosted all [] t sub h = h
  fill_costs-IsCosted all (c ∷ cs) t sub h =
      fill_costs-IsCosted all cs (offer cheaper c.stored_bytes c t) (λ x m. sub x (Memᴰ.tail m))
        (offer-All cheaper c.stored_bytes c t h (sub c (Memᴰ.head refl), refl))

  fill_costs-Holds :
      (d : D) (k : ℕ) (cs : List (Candidate D M)) (t : Dict ℕ (Candidate D M))
      → Holds cheaper (λ b. b.predicted_damage ≼ d) k t
      → Holds cheaper (λ b. b.predicted_damage ≼ d) k (fill_costs cs t)
  unfolding fill_costs
  fill_costs-Holds d k [] t h = h
  fill_costs-Holds d k (c ∷ cs) t h = fill_costs-Holds d k cs (offer cheaper c.stored_bytes c t) (
      offer-keeps cheaper (λ (b : Candidate D M). b.predicted_damage ≼ d) k c.stored_bytes c t
        (λ v w e p. ≼_trans v.predicted_damage w.predicted_damage d (cheaper_le v w e) p) h)

  fill_costs_reaches :
      (x : Candidate D M) (cs : List (Candidate D M)) (t : Dict ℕ (Candidate D M))
      → x ∈ cs
      → Holds cheaper
          (λ b. b.predicted_damage ≼ x.predicted_damage)
          x.stored_bytes
          (fill_costs cs t)
  unfolding fill_costs
  fill_costs_reaches x [] t m = elim m [ ]
  fill_costs_reaches x (c ∷ cs) t (Memᴰ.head e) =
      subst
        (λ z.
          Holds cheaper (λ b. b.predicted_damage ≼ z.predicted_damage) z.stored_bytes
            (fill_costs cs (offer cheaper c.stored_bytes c t)))
        (sym e)
        (fill_costs-Holds c.predicted_damage c.stored_bytes cs (offer cheaper c.stored_bytes c t) (
          offer-Holds cheaper (λ (b : Candidate D M). b.predicted_damage ≼ c.predicted_damage)
            c.stored_bytes c t (≼_refl c.predicted_damage) (λ w p. not_cheaper_le c w p)))
  fill_costs_reaches x (c ∷ cs) t (Memᴰ.tail m) =
      fill_costs_reaches x cs (offer cheaper c.stored_bytes c t) m

  no_entries : (all : List (Candidate D M)) → All (IsCosted all) []
  no_entries all e m = absurd (elim m [ ])

  best_by_cost-mem : (cs : List (Candidate D M)) → All (λ c. c ∈ cs) (best_by_cost cs)
  unfolding best_by_cost
  best_by_cost-mem cs c m =
      let (e, me, same) = mem_of_map (λ (e : ℕ × Candidate D M). e.1) (fill_costs cs []) m in
      subst (λ z. z ∈ cs) same (fill_costs-IsCosted cs cs [] (λ x k. k) (no_entries cs) e me).0

  -- Every candidate is matched by one that is kept at its own cost.
  best_by_cost_covers :
      (cs : List (Candidate D M)) (c : Candidate D M)
      → c ∈ cs
      → Some
          (λ b. (b.stored_bytes ≡ c.stored_bytes) × (b.predicted_damage ≼ c.predicted_damage))
          (best_by_cost cs)
  unfolding best_by_cost
  best_by_cost_covers cs c m =
      let (b, g, p) = fill_costs_reaches c cs [] m in
      let entry = get-mem c.stored_bytes (fill_costs cs []) g in
      (
        b,
        mem-map (λ (e : ℕ × Candidate D M). e.1) (fill_costs cs []) entry,
        ((fill_costs-IsCosted cs cs [] (λ x k. k) (no_entries cs) (c.stored_bytes, b) entry).1, p),
      )

  pub frontier_policy-KeepsItems :
      (exact : Bool) → KeepsItems (frontier_policy {D = D} {M = M} exact)
  unfolding frontier_policy
  frontier_policy-KeepsItems true = record { pick-mem = best_by_cost-mem; tidy-mem = λ t x m. m }
  frontier_policy-KeepsItems false = record {
    pick-mem = λ cs c m. pareto_frontier-mem cs m;
    tidy-mem = prune-mem;
  }

  pub frontier_policy-Covers :
      (exact : Bool) → Covers (frontier_policy {D = D} {M = M} exact) (FrontierRel exact)
  unfolding frontier_policy
  frontier_policy-Covers true = record {
    better_le = λ v w h. ≼_of_lt v.0 w.0 h;
    worse_le = λ v w h. h;
    rel_trans = λ a b c h k. h ∙ k;
    rel_add = λ a b c d h k. ap₂ ◌+◌ h k;
    over_rel = λ a b h k. refl;
    over_add = λ a b h. refl;
    pick_covers = λ cs c m fin. best_by_cost_covers cs c m;
    tidy_covers = λ t x m fin. (x, m, (refl, ≼_refl x.1.0));
  }
  frontier_policy-Covers false = record {
    better_le = λ v w h. ≼_of_lt v.0 w.0 h;
    worse_le = λ v w h. h;
    rel_trans = λ a b c h k. le_trans h k;
    rel_add = λ a b c d h k. omega arith;
    over_rel = λ a b h k. refl;
    over_add = λ a b h. refl;
    pick_covers = pareto_frontier_complete;
    tidy_covers = prune_complete;
  }
