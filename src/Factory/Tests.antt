-- ===== src/Factory/Tests.antt =====
-- Runs of `_internal_frontier` on small inputs, and its theorems at those inputs.
use shapleymcg.Common.{
  string_keys, ℕ, ◌≡◌, refl, String, true, false, List, [], ◌∷◌, arith, All, All-cons, ◌%◌,
}
use shapleymcg.Common.Dict.{get, put, add_key, same_set}
use shapleymcg.Common.Double.{Capped, finite, capped, is_finite}
use shapleymcg.Common.Result.{ok, err}
use shapleymcg.Allocation.Candidate.{Candidate}
use shapleymcg.Allocation.GlobalDp.Grouping.{first_seen}
use shapleymcg.Factory.Metadata.{private_cost_not_divisible}
use shapleymcg.Factory.Frontier.{Profile, internal_frontier}
use shapleymcg.Factory.Frontier.Profiles.{IsFrontier, internal_frontier_total}

abbrev Choice : Type 0
Choice = Candidate Capped (Unit {0})

abbrev choice : String → String → ℕ → ℕ → Choice
choice unit name bytes damage = record {
  unit_id = unit;
  choice_id = name;
  stored_bytes = bytes;
  predicted_damage = finite damage;
  metadata = tt;
}

abbrev up3 : Choice
up3 = choice "up" "k3" 6 20

-- dearer than `up3` and no better: kept only where every cost is
abbrev up4 : Choice
up4 = choice "up" "k4" 8 50

abbrev down3 : Choice
down3 = choice "down" "k3" 6 40

abbrev pool : List Choice
pool = up3 ∷ down3 ∷ up4 ∷ []

abbrev units : List String
units = "down" ∷ "up" ∷ []

abbrev profile : ℕ → ℕ → List Choice → Profile Capped (Unit {0})
profile bytes damage selected = record {
  stored_bytes = bytes;
  predicted_damage = finite damage;
  selected_candidates = selected;
}

pool-pareto : internal_frontier pool units 2 false ≡ ok (profile 12 60 (down3 ∷ up3 ∷ []) ∷ [])
unfolding internal_frontier get put
pool-pareto = refl

abbrev every_cost : List (Profile Capped (Unit {0}))
every_cost = profile 12 60 (down3 ∷ up3 ∷ []) ∷ profile 14 90 (down3 ∷ up4 ∷ []) ∷ []

pool-every_cost : internal_frontier pool units 2 true ≡ ok every_cost
unfolding internal_frontier get put
pool-every_cost = refl

other_units : internal_frontier pool ("up" ∷ []) 2 false ≡ ok []
unfolding internal_frontier get put
other_units = refl

indivisible : internal_frontier pool units 4 false ≡ err private_cost_not_divisible
unfolding internal_frontier get put
indivisible = refl

pool-finite : All (λ (c : Choice). is_finite c.predicted_damage ≡ true) pool
pool-finite = All-cons refl (All-cons refl (All-cons refl (λ x m. absurd (elim m [ ]))))

pool-divides : All (λ (c : Choice). c.stored_bytes % 2 ≡ 0) pool
pool-divides = All-cons refl (All-cons refl (All-cons refl (λ x m. absurd (elim m [ ]))))

pool-units : same_set (first_seen pool []) units ≡ true
unfolding first_seen add_key
pool-units = refl

internal_frontier_total_example :
    (ps : List (Profile Capped (Unit {0}))) × (internal_frontier pool units 2 true ≡ ok ps)
    × IsFrontier pool true ps
internal_frontier_total_example =
    internal_frontier_total pool units 2 true (omega arith) pool-divides pool-finite pool-units
