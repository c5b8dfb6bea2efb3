-- ===== src/Allocation/Tests.antt =====
-- Runs of the allocator on small inputs, and its theorems at those inputs.
use shapleymcg.Common.{ℕ, ◌≤◌, ◌≡◌, refl, String, List, [], ◌∷◌, arith, All, All-cons, Memᴰ}
use shapleymcg.Common.Dict.{get, put}
use shapleymcg.Common.Double.{Capped, finite, capped}
use shapleymcg.Common.Result.{ok, err}
use shapleymcg.Allocation.Candidate.{Candidate, Allocation}
use shapleymcg.Allocation.Fill.{damage_from}
use shapleymcg.Common.Sums.{sum_of}
use shapleymcg.Allocation.GlobalDp.{
  budget_infeasible, not_divisible_by_quantum, allocate, allocate_with_fixed_layer_cost,
}
use shapleymcg.Allocation.GlobalDp.Bytes.{bytes_of, damage_of}
use shapleymcg.Allocation.GlobalDp.Grouping.{unit_ids}
use shapleymcg.Allocation.GlobalDp.Selection.{IsSelection}
use shapleymcg.Allocation.GlobalDp.Optimal.{IsOptimal, allocate-IsOptimal}
use shapleymcg.Allocation.GlobalDp.Total.{IsAdmissible, allocate_total}
use shapleymcg.Allocation.GlobalDp.FixedCost.{
  accounted, allocate_with_fixed_layer_cost_total, allocate_with_fixed_layer_cost-IsOptimal,
}

abbrev Choice : Type 0
Choice = Candidate Capped (Unit {0})

abbrev choice : String → String → ℕ → ℕ → Choice
choice unit name bytes damage = record {
  unit_id = unit;
  choice_id = name;
  stored_bytes = bytes;
  predicted_damage = finite damage;
  metadata = tt;
}

abbrev up3 : Choice
up3 = choice "up" "k3" 6 50

abbrev up4 : Choice
up4 = choice "up" "k4" 8 20

abbrev down3 : Choice
down3 = choice "down" "k3" 6 40

abbrev down4 : Choice
down4 = choice "down" "k4" 8 30

abbrev pool : List Choice
pool = up3 ∷ down4 ∷ up4 ∷ down3 ∷ []

-- 14 bytes buy one upgrade, and the better one is that of `up`
abbrev best : Allocation Capped (Unit {0})
best = record { choices = down3 ∷ up4 ∷ []; stored_bytes = 14; predicted_damage = finite 60 }

pool-best : allocate pool 14 2 ≡ ok best
unfolding allocate get put
pool-best = refl

pool_infeasible : allocate pool 10 2 ≡ err (budget_infeasible "up")
unfolding allocate get put
pool_infeasible = refl

pool_indivisible : allocate pool 15 2 ≡ err not_divisible_by_quantum
unfolding allocate get put
pool_indivisible = refl

pool-accounted : allocate_with_fixed_layer_cost pool 20 6 2 ≡ ok (accounted 6 best)
unfolding allocate_with_fixed_layer_cost get put
pool-accounted = refl

allocate-IsOptimal_example : IsOptimal pool 14 best
allocate-IsOptimal_example = allocate-IsOptimal pool 14 2 best pool-best

pool-IsAdmissible : All IsAdmissible pool
pool-IsAdmissible =
    All-cons {P = IsAdmissible}
      (record { named_unit = refl; named_choice = refl; finite_damage = refl })
      (All-cons (record { named_unit = refl; named_choice = refl; finite_damage = refl })
        (All-cons (record { named_unit = refl; named_choice = refl; finite_damage = refl })
          (All-cons (record { named_unit = refl; named_choice = refl; finite_damage = refl })
            (λ x m. absurd (elim m [ ])))))

best-IsSelection : IsSelection pool (down3 ∷ up4 ∷ [])
unfolding unit_ids
best-IsSelection = record {
  members =
      All-cons (Memᴰ.tail (Memᴰ.tail (Memᴰ.tail (Memᴰ.head refl))))
        (All-cons (Memᴰ.tail (Memᴰ.tail (Memᴰ.head refl))) (λ x m. absurd (elim m [ ])));
  units = refl;
}

best-fits : bytes_of (down3 ∷ up4 ∷ []) ≤ 14
unfolding sum_of
best-fits = omega arith

best-finite : damage_of (down3 ∷ up4 ∷ []) ≡ finite 60
unfolding damage_from
best-finite = refl

allocate_total_example : (a : Allocation Capped (Unit {0})) × (allocate pool 14 2 ≡ ok a)
allocate_total_example =
    allocate_total pool 14 2 (omega arith) refl (down3 ∷ up4 ∷ []) best-IsSelection best-fits
      (rw best-finite) pool-IsAdmissible

allocate_with_fixed_layer_cost_total_example :
    (allocate_with_fixed_layer_cost pool 20 6 2 ≡ ok (accounted 6 best))
    × ((accounted 6 best).stored_bytes ≤ 20)
allocate_with_fixed_layer_cost_total_example =
    allocate_with_fixed_layer_cost_total pool 20 6 2 best (omega arith) pool-best

allocate_with_fixed_layer_cost-IsOptimal_example :
    (6 ≤ 20)
    × (a : Allocation Capped (Unit {0})) × IsOptimal pool 14 a
    × (accounted 6 best ≡ accounted 6 a)
    × (20 ≤ 20)
allocate_with_fixed_layer_cost-IsOptimal_example =
    allocate_with_fixed_layer_cost-IsOptimal pool 20 6 2 (accounted 6 best) pool-accounted
