-- ===== src/Allocation/Fill.antt =====
-- The loop of an allocator over its units: a round for each unit, an error when no state is left, and a
-- tidying of the table. The modules below show what it finds, and that it misses nothing.
pub mod Sound
pub mod Complete
pub mod Rounds
use shapleymcg.Common.{ℕ, ◌≡◌, Bool, true, false, List, [], ◌∷◌, String, ◌∈◌}
use shapleymcg.Common.Result.{Result, ok, ◌>>◌, raise_if}
use shapleymcg.Common.Double.{Double, ◌≼◌, is_finite, is_finite_left, ≼_refl}
use shapleymcg.Allocation.Candidate.{Candidate}
use shapleymcg.Allocation.Table.{Value, State, Table}
use shapleymcg.Allocation.Round.{round}

abbrev pub is_empty {ℓ} : {A : Type ℓ} → List A → Bool
is_empty [] = true
is_empty (x ∷ xs) = false

-- The candidates of each unit, in the order in which the units are filled.
abbrev pub Groups : Type 0 → Type 0 → Type 0
Groups D M = List (String × List (Candidate D M))

-- One candidate for each unit, in order.
abbrev pub Picks : {D M : Type 0} → Groups D M → List (Candidate D M) → Type 0
Picks [] [] = Unit
Picks [] (c ∷ cs) = ⊥
Picks (g ∷ gs) [] = ⊥
Picks (g ∷ gs) (c ∷ cs) = (c ∈ g.1) × Picks gs cs

module _ {D M : Type 0} ⦃f : Double D⦄ where
  -- The damages of a selection, added from the left.
  unfoldable pub damage_from : D → List (Candidate D M) → D
  damage_from d [] = d
  damage_from d (c ∷ cs) = damage_from (f.add d c.predicted_damage) cs

  pub damage_from_mono :
      (d e : D) (cs : List (Candidate D M)) → d ≼ e → damage_from d cs ≼ damage_from e cs
  unfolding damage_from
  damage_from_mono d e [] h = h
  damage_from_mono d e (c ∷ cs) h =
      damage_from_mono (f.add d c.predicted_damage) (f.add e c.predicted_damage) cs
        (f.add_mono d e c.predicted_damage c.predicted_damage h (≼_refl c.predicted_damage))

  -- A finite total was finite all along.
  pub damage_from_finite :
      (d : D) (cs : List (Candidate D M)) → is_finite (damage_from d cs) ≡ true → is_finite d ≡ true
  unfolding damage_from
  damage_from_finite d [] h = h
  damage_from_finite d (c ∷ cs) h =
      is_finite_left d c.predicted_damage (damage_from_finite (f.add d c.predicted_damage) cs h)

-- How an allocator fills its table: which of two values at one cost is better, which costs are over the
-- budget, what a candidate costs, which candidates of a unit are tried, and what is kept of a table.
pub record Policy (D M : Type 0) : Type 0 where
  pub better : Value D M → Value D M → Bool
  pub over : ℕ → Bool
  pub cost : Candidate D M → ℕ
  pub pick : List (Candidate D M) → List (Candidate D M)
  pub tidy : Table D M → Table D M

module _ {D M : Type 0} ⦃f : Double D⦄ (p : Policy D M) where
  -- one unit's round
  abbrev pub reached : Table D M → List (Candidate D M) → Table D M
  reached states candidates = round p.better p.over p.cost states (p.pick candidates)

module _ {D M E : Type 0} ⦃f : Double D⦄ (p : Policy D M) (infeasible : String → E) where
  unfoldable pub fill : Groups D M → Table D M → Result E (Table D M)
  unfolding round
  fill [] states = ok states
  fill ((unit, candidates) ∷ groups) states =
      raise_if (is_empty (reached p states candidates)) (infeasible unit)
      >> fill groups (p.tidy (reached p states candidates))

module _ {D M : Type 0} ⦃f : Double D⦄ (p : Policy D M) where
  -- the same loop where an empty table is no error
  unfoldable pub rounds : Groups D M → Table D M → Table D M
  unfolding round
  rounds [] states = states
  rounds (g ∷ groups) states = rounds groups (p.tidy (reached p states g.1))
