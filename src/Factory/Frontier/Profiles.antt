-- ===== src/Factory/Frontier/Profiles.antt =====
-- What `_internal_frontier` returns: selections of one candidate for each unit in the order of their
-- bytes, and for every selection a profile that is as good.
use native.Mathlib.Nat.{zero-add, le_refl}
use shapleymcg.Common.{
  string_keys, ℕ, ◌+◌, ◌%◌, ◌≤◌, ◌<◌, ◌≡◌, refl, sym, ap, ◌∙◌, subst, String, Bool, true, false,
  List, [], ◌∷◌, ◌++◌, arith, map, ◌∈◌, All, Some, Memᴰ, mem_one, mem-map, mem_of_map, ltb, ltb→le,
  any, ◌||◌, not, nat_eq, false-any,
}
use shapleymcg.Common.Dict.{Dict, keys, same_set}
use shapleymcg.Common.Double.{Double, ◌≼◌, is_finite, ≼_refl}
use shapleymcg.Common.Result.{ok}
use shapleymcg.Common.Sort.{sorted, mem-sorted, sorted-mem, IsAscending, sorted-IsAscending}
use shapleymcg.Allocation.Candidate.{Candidate}
use shapleymcg.Common.Sums.{sum_of}
use shapleymcg.Allocation.Table.{State, Table}
use shapleymcg.Allocation.Fill.{Picks, damage_from, rounds}
use shapleymcg.Allocation.Fill.Complete.{fill_complete}
use shapleymcg.Allocation.Fill.Rounds.{rounds_sound, rounds_of_fill}
use shapleymcg.Allocation.GlobalDp.{group_all, key_lt, cost_lt, first_states}
use shapleymcg.Allocation.GlobalDp.Grouping.{IsGrouping, group_all-IsGrouping, first_seen}
use shapleymcg.Allocation.GlobalDp.Bytes.{bytes_of, damage_of}
use shapleymcg.Allocation.GlobalDp.Selection.{
  IsSelection, IsSelection_of_Picks, Picks-of_IsSelection,
}
use shapleymcg.Allocation.GlobalDp.PolicyLaws.{cost_rises}
use shapleymcg.Factory.Frontier.{
  Profile, profile_of, frontier_policy, some_indivisible, frontier_states, internal_frontier,
}
use shapleymcg.Factory.Frontier.Covers.{
  FrontierRel, frontier_policy-KeepsItems, frontier_policy-Covers,
}

rel_refl : (exact : Bool) (k : ℕ) → FrontierRel exact k k
rel_refl true k = refl
rel_refl false k = le_refl k

module _ {D M : Type 0} ⦃f : Double D⦄ where
  -- The profile is a selection of the candidates, with its bytes and its damage.
  pub record IsProfile (cs : List (Candidate D M)) (p : Profile D M) : Type 0 where
    pub selection : IsSelection cs p.selected_candidates
    pub bytes : p.stored_bytes ≡ bytes_of p.selected_candidates
    pub damage : p.predicted_damage ≡ damage_of p.selected_candidates

  -- The profiles stand in the order of their bytes, and every selection with a finite damage has a profile
  -- that damages no more: at the same bytes where every cost is kept, and otherwise within them.
  pub record IsFrontier (cs : List (Candidate D M)) (exact : Bool) (ps : List (Profile D M))
      : Type 0 where
    pub profiles : All (IsProfile cs) ps
    pub ascending : IsAscending (λ (p : Profile D M). p.stored_bytes) ps
    pub covered :
        (sel : List (Candidate D M))
        → IsSelection cs sel
        → is_finite (damage_of sel) ≡ true
        → Some
            (λ (p : Profile D M).
              FrontierRel exact p.stored_bytes (bytes_of sel)
              × (p.predicted_damage ≼ damage_of sel))
            ps

  module _ (cs : List (Candidate D M)) (exact : Bool) (g : Dict String (List (Candidate D M)))
      (grouping : IsGrouping cs g) where
    IsProfile-of_start :
        (x s : State D M) (rest : List (Candidate D M))
        → s ≡ (0, (f.zero_point, []))
        → Picks (sorted key_lt g) rest
        → x.0 ≡ s.0 + sum_of (frontier_policy {D = D} {M = M} exact).cost rest
        → x.1.0 ≡ damage_from s.1.0 rest
        → x.1.1 ≡ s.1.1 ++ rest
        → IsProfile cs (profile_of x)
    unfolding frontier_policy
    IsProfile-of_start x s rest e p u d l =
        let sel : x.1.1 ≡ rest = l ∙ ap (λ (z : State D M). z.1.1 ++ rest) e in
        record {
          selection = subst (IsSelection cs) (sym sel) (IsSelection_of_Picks grouping rest p);
          bytes =
              u
              ∙ ap (λ (z : State D M). z.0 + bytes_of rest) e
              ∙ zero-add (bytes_of rest)
              ∙ ap bytes_of (sym sel);
          damage =
              d
              ∙ ap (λ (z : State D M). damage_from z.1.0 rest) e
              ∙ ap (damage_from f.zero_point) (sym sel);
        }

    states-IsProfile : All (λ x. IsProfile cs (profile_of x)) (frontier_states g exact)
    unfolding frontier_states
    states-IsProfile x m =
        let c =
          rounds_sound (frontier_policy exact) (frontier_policy-KeepsItems exact)
            (λ (u : String). u) (sorted key_lt g) first_states x m in
        IsProfile-of_start x c.start c.rest (mem_one c.from_states) c.picks c.used c.damage
          c.selected

    states_cover :
        (sel : List (Candidate D M))
        → All (λ c. is_finite c.predicted_damage ≡ true) cs
        → IsSelection cs sel
        → is_finite (damage_of sel) ≡ true
        → Some
            (λ x. FrontierRel exact x.0 (bytes_of sel) × (x.1.0 ≼ damage_of sel))
            (frontier_states g exact)
    unfolding frontier_policy
    states_cover sel fin s total =
        let (states, e, (x, mx, (rel, dm))) =
          fill_complete (frontier_policy {D = D} {M = M} exact) (λ (u : String). u)
            (FrontierRel exact) (frontier_policy-Covers exact) (sorted key_lt g) first_states 0
            f.zero_point sel
            ((0, (f.zero_point, [])), Memᴰ.head refl, (rel_refl exact 0, ≼_refl f.zero_point))
            (Picks-of_IsSelection grouping sel s) (λ c m. fin c (s.members c m)) refl total in
        let same : rounds (frontier_policy exact) (sorted key_lt g) first_states ≡ states =
          rounds_of_fill (frontier_policy exact) (λ (u : String). u) (sorted key_lt g) first_states
            states e in
        (
          x,
          unfold frontier_states in subst (λ t. x ∈ t) (sym same) mx,
          (subst (λ k. FrontierRel exact x.0 k) (zero-add (bytes_of sel)) rel, dm),
        )

  map-profile-IsAscending :
      (t : Table D M)
      → IsAscending (λ (s : State D M). s.0) t
      → IsAscending (λ (p : Profile D M). p.stored_bytes) (map profile_of t)
  map-profile-IsAscending [] h = tt
  map-profile-IsAscending (s ∷ t) (low, h) = (
    λ p m.
        let (x, mx, same) = mem_of_map profile_of t m in
        subst (λ (z : Profile D M). s.0 ≤ z.stored_bytes) same (low x mx),
    map-profile-IsAscending t h,
  )

  sorted-IsFrontier :
      (cs : List (Candidate D M)) (exact : Bool)
      → All (λ c. is_finite c.predicted_damage ≡ true) cs
      → IsFrontier cs exact
          (map profile_of (sorted cost_lt (frontier_states (group_all cs []) exact)))
  sorted-IsFrontier cs exact fin =
      let t = frontier_states (group_all cs []) exact in
      let grouping = group_all-IsGrouping cs in
      record {
        profiles = λ p m.
            let (x, mx, same) = mem_of_map profile_of (sorted cost_lt t) m in
            subst (IsProfile cs) same
              (states-IsProfile cs exact (group_all cs []) grouping x (mem-sorted cost_lt t mx));
        ascending = map-profile-IsAscending (sorted cost_lt t) (
            sorted-IsAscending cost_lt (λ (s : State D M). s.0) (λ a b h. cost_rises a.0 b.0 h)
              (λ a b h. ltb→le a.0 b.0 h) t);
        covered = λ sel s total.
            let (x, mx, good) = states_cover cs exact (group_all cs []) grouping sel fin s total in
            (profile_of x, mem-map profile_of (sorted cost_lt t) (sorted-mem cost_lt t mx), good);
      }

  grouped_divisible :
      (cs : List (Candidate D M)) (quantum : ℕ)
      → All (λ c. c.stored_bytes % quantum ≡ 0) cs
      → some_indivisible (group_all cs []) quantum ≡ false
  grouped_divisible cs quantum h =
      let divides = λ (c : Candidate D M). not (nat_eq (c.stored_bytes % quantum) 0) in
      false-any (λ (e : String × List (Candidate D M)). any divides e.1) (group_all cs [])
        (λ e m. false-any divides e.1 (λ c k.
          let size = h c ((group_all-IsGrouping cs).sound e m c k).0 in ground (arith, size)))

  -- With a positive quantum that divides every size, on candidates of finite damage whose units are the
  -- expected ones, `_internal_frontier` returns the frontier of the candidates' selections.
  pub internal_frontier_total :
      (cs : List (Candidate D M)) (units : List String) (quantum : ℕ) (exact : Bool)
      → 0 < quantum
      → All (λ c. c.stored_bytes % quantum ≡ 0) cs
      → All (λ c. is_finite c.predicted_damage ≡ true) cs
      → same_set (first_seen cs []) units ≡ true
      → (ps : List (Profile D M)) × (internal_frontier cs units quantum exact ≡ ok ps)
        × IsFrontier cs exact ps
  unfolding internal_frontier
  internal_frontier_total cs units quantum exact pos divides fin same =
      let units_of : same_set (keys (group_all cs [])) units ≡ true =
        subst (λ us. same_set us units ≡ true) (sym (group_all-IsGrouping cs).units) same in
      let passes : ltb quantum 1 || some_indivisible (group_all cs []) quantum ≡ false =
        ground (arith, pos, grouped_divisible cs quantum divides) in
      (_, rw (units_of, passes), sorted-IsFrontier cs exact fin)
