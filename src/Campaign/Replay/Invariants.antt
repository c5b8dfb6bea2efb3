-- ===== src/Campaign/Replay/Invariants.antt =====
-- What holds in every state of a campaign that a replay without failures reaches.
use mathlib.Core.Bool.{false≢true}
use shapleymcg.Common.{
  both_true, some_ne_none, some_injective, ◌≡◌, ◌<◌, refl, sym, ap, ◌∙◌, subst, String, Bool, true,
  false, not, ◌||◌, some, List, [], ◌∷◌, ◌++◌, all, any, arith, All, Memᴰ, Bool-cases, Option-cases,
  ◌⊎◌, inl, inr, string_keys, ◌==◌, nat_eq_iff,
}
use shapleymcg.Common.Dict.{keys}
use shapleymcg.Common.Json.{Numbers, Fields}
use shapleymcg.Common.Result.{ok}
use shapleymcg.Campaign.Definition.{contains}
use shapleymcg.Campaign.Stages.{StageSpec}
use shapleymcg.Campaign.Files.{System}
use shapleymcg.Campaign.Gates.{Plan}
use shapleymcg.Campaign.Replay.{State, stage_order, gate_kinds, find_stage, has_decision}
use shapleymcg.Campaign.Replay.Generations.{from_stage}
use shapleymcg.Campaign.Replay.Loop.{replay_all}
use shapleymcg.Campaign.Replay.Machine.{
  Machine, Move, stays, ends, completes, decides, supersedes, Reachable, start, step, is_gate,
  remove_key, remove_keys, present,
}
use shapleymcg.Campaign.Replay.Refines.Steps.{replay_all-Reachable}

contains-append :
    (x : String) (xs ys : List String) → contains x xs ≡ true → contains x (xs ++ ys) ≡ true
contains-append x [] ys h = absurd (false≢true h)
contains-append x (y ∷ xs) ys h = elim (Bool-cases (y == x)) [
  | inl e ↦ rw e refl
  | inr e ↦ rw e (contains-append x xs ys (ground (arith, h, e)))
]

append-contains :
    (x y : String) (xs : List String)
    → contains x (xs ++ y ∷ []) ≡ true
    → (contains x xs ≡ true) ⊎ (y ≡ x)
append-contains x y [] h = elim (Bool-cases (y == x)) [
  | inl e ↦ inr ((string_keys.same_iff y x).0 e)
  | inr e ↦ absurd (false≢true (rw e at h))
]
append-contains x y (z ∷ xs) h = elim (Bool-cases (z == x)) [
  | inl e ↦ inl (rw e refl)
  | inr e ↦ elim (append-contains x y xs (rw e at h)) [ inl p ↦ inl (rw e p) | inr p ↦ inr p ]
]

remove_key_gone : (key : String) (ks : List String) → contains key (remove_key key ks) ≡ false
remove_key_gone key [] = refl
remove_key_gone key (k ∷ ks) = elim (Bool-cases (k == key)) [
  | inl e ↦ rw e (remove_key_gone key ks)
  | inr e ↦ rw e (rw e (remove_key_gone key ks))
]

remove_key-contains :
    (x key : String) (ks : List String)
    → contains x (remove_key key ks) ≡ true
    → contains x ks ≡ true
remove_key-contains x key [] h = h
remove_key-contains x key (k ∷ ks) h = elim (Bool-cases (k == key)) [
  | inl e ↦ ground (arith, remove_key-contains x key ks (rw e at h))
  | inr e ↦ elim (Bool-cases (k == x)) [
    | inl q ↦ rw q refl
    | inr q ↦ rw q (remove_key-contains x key ks (rw q at (rw e at h)))
  ]
]

remove_keys-contains :
    (x : String) (js ks : List String)
    → contains x (remove_keys js ks) ≡ true
    → (contains x ks ≡ true) × (contains x js ≡ false)
remove_keys-contains x [] ks h = (h, refl)
remove_keys-contains x (j ∷ js) ks h =
    let (there, rest) = remove_keys-contains x js (remove_key j ks) h in
    elim (Bool-cases (j == x)) [
      | inl e ↦
          let same = (string_keys.same_iff j x).0 e in
          absurd (
            false≢true (
              sym (remove_key_gone x ks)
              ∙ subst (λ z. contains x (remove_key z ks) ≡ true) same there))
      | inr e ↦ (remove_key-contains x j ks there, rw e rest)
    ]

present-contains :
    (x : String) (completed ids : List String)
    → contains x completed ≡ true
    → contains x ids ≡ true
    → contains x (present completed ids) ≡ true
present-contains x completed [] h k = k
present-contains x completed (id ∷ ids) h k = elim (Bool-cases (id == x)) [
  | inl e ↦
      let here : contains id completed ≡ true =
        subst (λ z. contains z completed ≡ true) (sym ((string_keys.same_iff id x).0 e)) h in
      rw here (rw e refl)
  | inr e ↦
      let rest = present-contains x completed ids h (rw e at k) in
      elim (Bool-cases (contains id completed)) [ inl q ↦ rw q (rw e rest) | inr q ↦ rw q rest ]
]

all_contained :
    (xs ys : List String)
    → all (λ v. any (λ u. u == v) xs) ys ≡ true
    → All (λ v. contains v xs ≡ true) ys
all_contained xs [] h z m = absurd (elim m [ ])
all_contained xs (y ∷ ys) h z (Memᴰ.head e) =
    subst (λ v. contains v xs ≡ true) (sym e) (ground (arith, h))
all_contained xs (y ∷ ys) h z (Memᴰ.tail m) = all_contained xs ys (ground (arith, h)) z m

module _ (plan : Plan) where
  -- A campaign that is complete has completed every stage.
  Done : Machine → Type 0
  Done m = m.complete ≡ true → All (λ id. contains id m.completed ≡ true) (stage_order plan)

  Move-Done : {m m' : Machine} → Move plan m m' → Done m → Done m'
  unfolding Done
  Move-Done stays done = done
  Move-Done (ends {m} first calm whole) done =
      λ _. all_contained m.completed (stage_order plan) (both_true _ _ whole).1
  Move-Done (completes {m} stage found new calm pending) done =
      λ c id k. contains-append id m.completed (stage.stage_id ∷ []) (done c id k)
  Move-Done (decides id again gate there fresh awaited pending) done = done
  Move-Done (supersedes id later calm pending bound at) done = λ c. absurd (false≢true c)

  Reachable-Done : {m : Machine} → Reachable plan m → Done m
  unfolding Done
  Reachable-Done start = λ c. absurd (false≢true c)
  Reachable-Done (step r move) = Move-Done move (Reachable-Done r)

  Bounded : Machine → Type 0
  Bounded m = (m.generation ≡ 0) ⊎ (m.generation < plan.definition.max_generations)

  Reachable-Bounded : {m : Machine} → Reachable plan m → Bounded m
  unfolding Bounded
  Reachable-Bounded start = inl refl
  Reachable-Bounded (step r stays) = Reachable-Bounded r
  Reachable-Bounded (step r (ends first calm whole)) = Reachable-Bounded r
  Reachable-Bounded (step r (completes stage found new calm pending)) = Reachable-Bounded r
  Reachable-Bounded (step r (decides id again gate there fresh awaited pending)) =
      Reachable-Bounded r
  Reachable-Bounded (step r (supersedes id later calm pending bound at)) = inr bound

  -- Every completed gate awaits its decision, or was decided in this generation.
  Decided : Machine → Type 0
  Decided m =
      (id : String)
      → is_gate plan id ≡ true
      → contains id m.completed ≡ true
      → (m.gate ≡ some id) ⊎ (has_decision id m.generation m.decided ≡ true)

  -- The gates of a plan are among the stages from the allocation on.
  abbrev pub GatesFollow : Type 0
  GatesFollow =
      (id : String) (later : List String)
      → is_gate plan id ≡ true
      → from_stage "allocation" (stage_order plan) ≡ some later
      → contains id later ≡ true

  module _ (follow : GatesFollow) where
    Move-Decided : {m m' : Machine} → Move plan m m' → Decided m → Decided m'
    unfolding Decided
    Move-Decided stays d = d
    Move-Decided (ends first calm whole) d = d
    Move-Decided (completes {m} stage found new calm pending) d = λ id gate k.
        elim (append-contains id stage.stage_id m.completed k) [
          | inl old ↦ elim (d id gate old) [ inl p ↦ absurd (some_ne_none calm p) | inr p ↦ inr p ]
          | inr same ↦
              let own : is_gate plan stage.stage_id ≡ true =
                subst (λ z. is_gate plan z ≡ true) (sym same) gate in
              let kind : contains stage.kind gate_kinds ≡ true = rw (found, is_gate) at own in
              inl (rw kind (ap some same))
        ]
    Move-Decided (decides {m} i again gate there fresh awaited pending) d = λ id gate' k.
        elim (Bool-cases (i == id)) [
          | inl e ↦
              let now = (nat_eq_iff m.generation m.generation).1 refl in inr (rw e (rw now refl))
          | inr e ↦ elim (d id gate' k) [
            | inl p ↦
                absurd (false≢true (sym e ∙ (string_keys.same_iff i id).1 (sym (awaited id p))))
            | inr p ↦ inr (rw e p)
          ]
        ]
    Move-Decided (supersedes {m} i later calm pending bound at) d = λ id gate k.
        let (there, gone) = remove_keys-contains id (present m.completed later) m.completed k in
        absurd (
          false≢true
            (sym gone ∙ present-contains id m.completed later there (follow id later gate at)))

    Reachable-Decided : {m : Machine} → Reachable plan m → Decided m
    unfolding Decided
    Reachable-Decided start = λ id gate k. absurd (false≢true k)
    Reachable-Decided (step r move) = Move-Decided move (Reachable-Decided r)

-- A test of every stage holds of the one that is found.
find_stage-all :
    (test : StageSpec → Bool) (id : String) (stages : List StageSpec) {stage : StageSpec}
    → all test stages ≡ true
    → find_stage id stages ≡ some stage
    → (test stage ≡ true) × (stage.stage_id ≡ id)
find_stage-all test id [] h found = absurd (some_ne_none refl found)
find_stage-all test id (s ∷ ss) {stage} h found = elim (Bool-cases (s.stage_id == id)) [
  | inl e ↦
      let same : s ≡ stage = some_injective (rw e at found) in
      (
        subst (λ z. test z ≡ true) same (both_true (test s) _ h).0,
        ap (λ (z : StageSpec). z.stage_id) (sym same) ∙ (string_keys.same_iff s.stage_id id).0 e,
      )
  | inr e ↦ find_stage-all test id ss (both_true (test s) _ h).1 (rw e at found)
]

-- `GatesFollow`, as a test.
pub GatesFollow-test :
    (plan : Plan) (later : List String)
    → from_stage "allocation" (stage_order plan) ≡ some later
    → all (λ s. not (contains s.kind gate_kinds) || contains s.stage_id later) plan.stages ≡ true
    → GatesFollow plan
GatesFollow-test plan later at h id later' gate at' =
    elim (Option-cases (find_stage id plan.stages)) [
      | inl p ↦ absurd (false≢true (rw (p, is_gate) at gate))
      | inr (stage, p) ↦
          let (test, own) =
            find_stage-all (λ s. not (contains s.kind gate_kinds) || contains s.stage_id later) id
              plan.stages h p in
          let kind : contains stage.kind gate_kinds ≡ true = rw (p, is_gate) at gate in
          let here : contains stage.stage_id later ≡ true = rw kind at test in
          let same : later ≡ later' = some_injective (sym at ∙ at') in
          subst (λ l. contains id l ≡ true) same (subst (λ i. contains i later ≡ true) own here)
    ]

module _ {N L P : Type 0} ⦃n : Numbers N⦄ (system : System N L P) (plan : Plan) where
  -- A replay that reports no failure, of a campaign that is complete, has completed every stage of the plan.
  pub replay_all-Done :
      (events : List (Fields N)) (s : State N)
      → replay_all system plan events ≡ ok s
      → s.failures ≡ []
      → s.completion_seen ≡ true
      → All (λ id. contains id (keys s.completed) ≡ true) (stage_order plan)
  unfolding Done
  replay_all-Done events s h e = Reachable-Done plan (replay_all-Reachable system plan events s h e)

  -- A replay that reports no failure is in the first generation, or in one below the bound of the definition.
  pub replay_all-Bounded :
      (events : List (Fields N)) (s : State N)
      → replay_all system plan events ≡ ok s
      → s.failures ≡ []
      → (s.generation ≡ 0) ⊎ (s.generation < plan.definition.max_generations)
  unfolding Bounded
  replay_all-Bounded events s h e =
      Reachable-Bounded plan (replay_all-Reachable system plan events s h e)

  -- Where the gates of the plan are among the stages from the allocation on: after a replay that reports no
  -- failure, every completed gate awaits its decision, or was decided in the generation that the replay is in.
  pub replay_all-Decided :
      (follow : GatesFollow plan) (events : List (Fields N)) (s : State N)
      → replay_all system plan events ≡ ok s
      → s.failures ≡ []
      → (id : String) → is_gate plan id ≡ true
      → contains id (keys s.completed) ≡ true
      → (s.pending_gate ≡ some id) ⊎ (has_decision id s.generation s.gate_decisions_seen ≡ true)
  unfolding Decided
  replay_all-Decided follow events s h e =
      Reachable-Decided plan follow (replay_all-Reachable system plan events s h e)
