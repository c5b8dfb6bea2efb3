-- ===== src/Allocation/GlobalDp/Grouping.antt =====
-- What the allocator's grouping of the candidates by unit holds: every candidate stands in the group of its
-- unit and in no other, and each unit has one group.
use shapleymcg.Common.{
  ◌≡◌, refl, sym, ap, ◌∙◌, subst, String, true, ◌⊎◌, inl, inr, none, some, List, [], ◌∷◌, ◌++◌,
  Bool-cases, Option-cases, ◌∈◌, All, Memᴰ, ◌==◌, string_keys, str_ltb, All-append, All-cons,
  mem-append_left, mem-append_right, arith,
}
use shapleymcg.Common.Dict.{
  Dict, get, put, get-put_eq, get-put_ne, get-put_self, get-mem, put-All, IsDistinct, keys, add_key,
  add_key-IsDistinct, keys-put,
}
use shapleymcg.Common.Double.{Double, is_finite}
use shapleymcg.Common.Result.{ok, bind-eq-ok, ok_injective}
use shapleymcg.Common.Sort.{sorted}
use shapleymcg.Allocation.Candidate.{Candidate}
use shapleymcg.Allocation.GlobalDp.{append_to, check_candidate, group_all, group_by_unit}

module _ {D M : Type 0} where
  unfoldable pub first_seen : List (Candidate D M) → List String → List String
  first_seen [] units = units
  first_seen (c ∷ cs) units = first_seen cs (add_key c.unit_id units)

  -- `sorted({c.unit_id for c in candidates})`
  unfoldable pub unit_ids : List (Candidate D M) → List String
  unfolding first_seen add_key sorted
  unit_ids cs = sorted str_ltb (first_seen cs [])

  -- The dictionary holds the candidate under its unit.
  abbrev pub Has : Candidate D M → Dict String (List (Candidate D M)) → Type 0
  Has c d = (l : List (Candidate D M)) × (get c.unit_id d ≡ some l) × (c ∈ l)

  -- An entry holds candidates of its unit only.
  abbrev pub IsOfUnit : List (Candidate D M) → String × List (Candidate D M) → Type 0
  IsOfUnit cs e = All (λ c. (c ∈ cs) × (c.unit_id ≡ e.0)) e.1

  pub record IsGrouping (cs : List (Candidate D M)) (d : Dict String (List (Candidate D M)))
      : Type 0 where
    pub distinct : IsDistinct (keys d)
    pub sound : All (IsOfUnit cs) d
    pub complete : All (λ c. Has c d) cs
    pub units : keys d ≡ first_seen cs []

module _ {D M : Type 0} ⦃f : Double D⦄ where
  -- An append writes a group that holds what was there and the candidate.
  append_to-eq-put :
      (c : Candidate D M) (d : Dict String (List (Candidate D M)))
      → (l : List (Candidate D M)) × (append_to c d ≡ put c.unit_id (l ++ c ∷ []) d)
        × ((get c.unit_id d ≡ some l) ⊎ (get c.unit_id d ≡ none) × (l ≡ []))
  append_to-eq-put c d = elim (Option-cases (get c.unit_id d)) [
    | inl e ↦ ([], unfold append_to in rw (e, append_to), inr (e, refl))
    | inr (l, e) ↦ (l, unfold append_to in rw (e, append_to), inl e)
  ]

  old_group :
      (u : String) (d : Dict String (List (Candidate D M))) (k l : List (Candidate D M))
      → (get u d ≡ some l) ⊎ (get u d ≡ none) × (l ≡ [])
      → get u d ≡ some k
      → k ≡ l
  old_group u d k l (inl p) g = cc
  old_group u d k l (inr (p, _)) g = cc

  append_to-Has_self :
      (c : Candidate D M) (d : Dict String (List (Candidate D M))) → Has c (append_to c d)
  append_to-Has_self c d =
      let (l, e, _) = append_to-eq-put c d in
      (
        l ++ c ∷ [],
        rw e (get-put_self c.unit_id (l ++ c ∷ []) d),
        mem-append_right l (c ∷ []) (Memᴰ.head refl),
      )

  append_to-Has :
      (b c : Candidate D M) (d : Dict String (List (Candidate D M)))
      → Has b d
      → Has b (append_to c d)
  append_to-Has b c d (k, g, m) =
      let (l, e, was) = append_to-eq-put c d in
      elim (Bool-cases (c.unit_id == b.unit_id)) [
        | inl q ↦
            let same : c.unit_id ≡ b.unit_id = (string_keys.same_iff c.unit_id b.unit_id).0 q in
            let g' : get c.unit_id d ≡ some k = rw same g in
            (
              l ++ c ∷ [],
              ap (get b.unit_id) e ∙ get-put_eq c.unit_id b.unit_id (l ++ c ∷ []) d q,
              mem-append_left l (c ∷ []) (subst (λ z. b ∈ z) (old_group c.unit_id d k l was g') m),
            )
        | inr q ↦
            (k, ap (get b.unit_id) e ∙ get-put_ne c.unit_id b.unit_id (l ++ c ∷ []) d q ∙ g, m)
      ]

  old_IsOfUnit :
      (all : List (Candidate D M)) (u : String) (d : Dict String (List (Candidate D M)))
      (l : List (Candidate D M))
      → (get u d ≡ some l) ⊎ (get u d ≡ none) × (l ≡ [])
      → All (IsOfUnit all) d
      → IsOfUnit all (u, l)
  old_IsOfUnit all u d l (inl p) h = h (u, l) (get-mem u d p)
  old_IsOfUnit all u d l (inr (_, p)) h = λ c m. absurd (elim (subst (λ z. c ∈ z) p m) [ ])

  append_to_sound :
      (all : List (Candidate D M)) (c : Candidate D M) (d : Dict String (List (Candidate D M)))
      → c ∈ all
      → All (IsOfUnit all) d
      → All (IsOfUnit all) (append_to c d)
  append_to_sound all c d m h =
      let (l, e, was) = append_to-eq-put c d in
      subst (All (IsOfUnit all)) (sym e) (
        put-All c.unit_id (l ++ c ∷ []) d h (
          All-append l (c ∷ []) (old_IsOfUnit all c.unit_id d l was h)
            (All-cons (m, refl) (λ x k. absurd (elim k [ ])))))

  keys-append_to :
      (c : Candidate D M) (d : Dict String (List (Candidate D M)))
      → keys (append_to c d) ≡ add_key c.unit_id (keys d)
  keys-append_to c d =
      let (l, e, _) = append_to-eq-put c d in ap keys e ∙ keys-put c.unit_id (l ++ c ∷ []) d

  group_all-Has :
      (b : Candidate D M) (cs : List (Candidate D M)) (d : Dict String (List (Candidate D M)))
      → Has b d
      → Has b (group_all cs d)
  unfolding group_all
  group_all-Has b [] d p = p
  group_all-Has b (c ∷ cs) d p = group_all-Has b cs (append_to c d) (append_to-Has b c d p)

  group_all_complete :
      (cs : List (Candidate D M)) (d : Dict String (List (Candidate D M)))
      → All (λ c. Has c (group_all cs d)) cs
  unfolding group_all
  group_all_complete [] d b m = elim m [ ]
  group_all_complete (c ∷ cs) d b (Memᴰ.head e) =
      subst (λ x. Has x (group_all cs (append_to c d))) (sym e)
        (group_all-Has c cs (append_to c d) (append_to-Has_self c d))
  group_all_complete (c ∷ cs) d b (Memᴰ.tail m) = group_all_complete cs (append_to c d) b m

  group_all_sound :
      (all cs : List (Candidate D M)) (d : Dict String (List (Candidate D M)))
      → All (λ c. c ∈ all) cs
      → All (IsOfUnit all) d
      → All (IsOfUnit all) (group_all cs d)
  unfolding group_all
  group_all_sound all [] d sub p = p
  group_all_sound all (c ∷ cs) d sub p =
      group_all_sound all cs (append_to c d) (λ x m. sub x (Memᴰ.tail m))
        (append_to_sound all c d (sub c (Memᴰ.head refl)) p)

  keys-group_all :
      (cs : List (Candidate D M)) (d : Dict String (List (Candidate D M)))
      → keys (group_all cs d) ≡ first_seen cs (keys d)
  unfolding first_seen group_all
  keys-group_all [] d = refl
  keys-group_all (c ∷ cs) d =
      keys-group_all cs (append_to c d) ∙ ap (first_seen cs) (keys-append_to c d)

  first_seen-IsDistinct :
      (cs : List (Candidate D M)) (us : List String) → IsDistinct us → IsDistinct (first_seen cs us)
  unfolding first_seen
  first_seen-IsDistinct [] us h = h
  first_seen-IsDistinct (c ∷ cs) us h =
      first_seen-IsDistinct cs (add_key c.unit_id us) (add_key-IsDistinct c.unit_id us h)

  pub group_all-IsGrouping : (cs : List (Candidate D M)) → IsGrouping cs (group_all cs [])
  group_all-IsGrouping cs =
      let units : keys (group_all cs []) ≡ first_seen cs [] = keys-group_all cs [] in
      record {
        distinct = subst IsDistinct (sym units) (first_seen-IsDistinct cs [] tt);
        sound = group_all_sound cs cs [] (λ c m. m) (λ x m. absurd (elim m [ ]));
        complete = group_all_complete cs [];
        units = units;
      }

  group_step :
      (c : Candidate D M) (cs : List (Candidate D M)) (d g : Dict String (List (Candidate D M)))
      → group_by_unit (c ∷ cs) d ≡ ok g
      → (check_candidate c ≡ ok tt) × (group_by_unit cs (append_to c d) ≡ ok g)
  unfolding group_by_unit
  group_step c cs d g h =
      let (u, p, q) =
        bind-eq-ok (check_candidate c) (λ _. group_by_unit cs (append_to c d)) {b = g} h in
      (p, q)

  -- The loop that also checks the candidates has the same groups, if it returns.
  group_by_unit-eq-group_all :
      (cs : List (Candidate D M)) (d g : Dict String (List (Candidate D M)))
      → group_by_unit cs d ≡ ok g
      → group_all cs d ≡ g
  unfolding group_by_unit group_all
  group_by_unit-eq-group_all [] d g h = ok_injective h
  group_by_unit-eq-group_all (c ∷ cs) d g h =
      group_by_unit-eq-group_all cs (append_to c d) g (group_step c cs d g h).1

  check_finite :
      (c : Candidate D M) → check_candidate c ≡ ok tt → is_finite c.predicted_damage ≡ true
  unfolding check_candidate
  check_finite c h = ground arith

  -- What is grouped passed the test on its damage.
  pub group_finite :
      (cs : List (Candidate D M)) (d g : Dict String (List (Candidate D M)))
      → group_by_unit cs d ≡ ok g
      → All (λ c. is_finite c.predicted_damage ≡ true) cs
  group_finite [] d g h = λ x m. absurd (elim m [ ])
  group_finite (c ∷ cs) d g h =
      let (p, q) = group_step c cs d g h in
      All-cons (check_finite c p) (group_finite cs (append_to c d) g q)

  pub group_by_unit-IsGrouping :
      (cs : List (Candidate D M)) (g : Dict String (List (Candidate D M)))
      → group_by_unit cs [] ≡ ok g
      → IsGrouping cs g
  group_by_unit-IsGrouping cs g h =
      subst (IsGrouping cs) (group_by_unit-eq-group_all cs [] g h) (group_all-IsGrouping cs)
