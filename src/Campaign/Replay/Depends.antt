-- ===== src/Campaign/Replay/Depends.antt =====
-- The stages that a replay finds completed have their dependencies among them.
use mathlib.Core.Bool.{false≢true}
use shapleymcg.Common.{
  of_negated, some_injective, ℕ, zero, suc, ◌≡◌, sym, ap, ◌∙◌, subst, String, true, some, List, [],
  ◌∷◌, length, take, ◌∈◌, All, Memᴰ, Bool-cases, ◌⊎◌, inl, inr, string_keys, ◌==◌,
}
use shapleymcg.Common.Dict.{keys, same_list-eq}
use shapleymcg.Common.Json.{Numbers, Fields}
use shapleymcg.Common.Result.{ok, bind-eq-ok, ok_injective, err-ne-ok}
use shapleymcg.Campaign.Definition.{contains}
use shapleymcg.Campaign.Stages.{StageSpec}
use shapleymcg.Campaign.Stages.Order.{IsOrdered, ids}
use shapleymcg.Campaign.Files.{System}
use shapleymcg.Campaign.Gates.{Plan}
use shapleymcg.Campaign.Replay.{State, stage_order, find_stage}
use shapleymcg.Campaign.Replay.Loop.{
  planned_state, replay_events, context_of, check_prefix, replay_all,
}
use shapleymcg.Campaign.Replay.Refines.{clean_append}

-- A stage in a prefix of stages in order depends on what was seen before them, or on that prefix.
prefix_depends :
    (seen : List String) (stages : List StageSpec) (k : ℕ) (id : String) {stage : StageSpec}
    → IsOrdered seen stages
    → find_stage id stages ≡ some stage
    → contains id (take k (ids stages)) ≡ true
    → All (λ d. (d ∈ seen) ⊎ (d ∈ take k (ids stages))) stage.dependencies
prefix_depends seen stages zero id h found there = absurd (false≢true there)
prefix_depends seen [] (suc k) id h found there = absurd (false≢true there)
prefix_depends seen (s ∷ ss) (suc k) id {stage} h found there =
    elim (Bool-cases (s.stage_id == id)) [
      | inl e ↦
          let same : s ≡ stage = some_injective (rw e at found) in
          λ d m. inl (h.0 d (subst (λ (z : StageSpec). d ∈ z.dependencies) (sym same) m))
      | inr e ↦ λ d m.
          elim (prefix_depends (s.stage_id ∷ seen) ss k id {stage = stage} h.1 (rw e at found)
            (rw e at there) d m) [
              | inl (Memᴰ.head q) ↦ inr (Memᴰ.head q)
              | inl (Memᴰ.tail q) ↦ inl q
              | inr q ↦ inr (Memᴰ.tail q)
            ]
    ]

module _ {N L P : Type 0} ⦃n : Numbers N⦄ (system : System N L P) (plan : Plan) where
  -- The completed stages are the first of the plan, in its order.
  completed_prefix :
      (events : List (Fields N)) (s : State N)
      → replay_all system plan events ≡ ok s
      → s.failures ≡ []
      → keys s.completed ≡ take (length s.completed) (stage_order plan)
  unfolding replay_all check_prefix
  completed_prefix [] s h e = absurd (err-ne-ok _ s h)
  completed_prefix (first ∷ events) s h e =
      let (s0, _, q) = bind-eq-ok (planned_state system plan first) _ {b = s} h in
      let (last, _, u) =
        bind-eq-ok (replay_events (context_of system plan (first ∷ events)) 1 events s0) _ {b = s}
          q in
      let same = ok_injective u in
      let (refused, _) =
        clean_append last.failures _ _ (ap (λ (z : State N). z.failures) same ∙ e) in
      subst (λ (z : State N). keys z.completed ≡ take (length z.completed) (stage_order plan)) same
        (same_list-eq (keys last.completed) (take (length last.completed) (stage_order plan))
          (of_negated _ refused))

  -- Where the stages of the plan stand in an order in which each depends on stages before it only: after a
  -- replay that reports no failure, every dependency of a completed stage is completed.
  pub replay_all-depends :
      (ordered : IsOrdered [] plan.stages) (events : List (Fields N)) (s : State N)
      → replay_all system plan events ≡ ok s
      → s.failures ≡ []
      → (id : String) (stage : StageSpec) → find_stage id plan.stages ≡ some stage
      → contains id (keys s.completed) ≡ true
      → All (λ dep. dep ∈ keys s.completed) stage.dependencies
  replay_all-depends ordered events s h e id stage found there =
      let prefix = completed_prefix events s h e in
      let inside = subst (λ ks. contains id ks ≡ true) prefix there in
      λ d m.
        elim (prefix_depends [] plan.stages (length s.completed) id {stage = stage} ordered found
          inside d m) [ inl q ↦ absurd (elim q [ ]) | inr q ↦ subst (λ ks. d ∈ ks) (sym prefix) q ]
