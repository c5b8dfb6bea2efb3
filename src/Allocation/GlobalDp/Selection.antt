-- ===== src/Allocation/GlobalDp/Selection.antt =====
-- A selection: one of the candidates for each of their units, in the order of the units. It is what the
-- allocator's groups pick.
use shapleymcg.Common.{
  ◌≡◌, refl, sym, ap, ap₂, ◌∙◌, subst, String, some, List, [], ◌∷◌, map, ◌∈◌, All, All-cons, Memᴰ,
  str_ltb, string_keys, arith,
}
use shapleymcg.Common.Dict.{Dict, get, keys, get_of_mem}
use shapleymcg.Common.Sort.{sorted, map-sorted, mem-sorted}
use shapleymcg.Allocation.Candidate.{Candidate}
use shapleymcg.Allocation.Fill.{Groups, Picks}
use shapleymcg.Allocation.GlobalDp.{key_lt}
use shapleymcg.Allocation.GlobalDp.Grouping.{unit_ids, Has, IsOfUnit, IsGrouping}

module _ {D M : Type 0} where
  pub record IsSelection (cs sel : List (Candidate D M)) : Type 0 where
    pub members : All (λ c. c ∈ cs) sel
    pub units : map (λ (c : Candidate D M). c.unit_id) sel ≡ unit_ids cs

  Picks-members :
      (cs : List (Candidate D M)) (gs : Groups D M) (sel : List (Candidate D M))
      → All (IsOfUnit cs) gs
      → Picks gs sel
      → All (λ c. c ∈ cs) sel
  Picks-members cs [] [] h p = λ x m. absurd (elim m [ ])
  Picks-members cs [] (c ∷ sel) h p = absurd p
  Picks-members cs (g ∷ gs) [] h p = absurd p
  Picks-members cs (g ∷ gs) (c ∷ sel) h p =
      All-cons (h g (Memᴰ.head refl) c p.0).0
        (Picks-members cs gs sel (λ x m. h x (Memᴰ.tail m)) p.1)

  Picks-units :
      (cs : List (Candidate D M)) (gs : Groups D M) (sel : List (Candidate D M))
      → All (IsOfUnit cs) gs
      → Picks gs sel
      → map (λ (c : Candidate D M). c.unit_id) sel ≡ keys gs
  Picks-units cs [] [] h p = refl
  Picks-units cs [] (c ∷ sel) h p = absurd p
  Picks-units cs (g ∷ gs) [] h p = absurd p
  Picks-units cs (g ∷ gs) (c ∷ sel) h p =
      ap₂ ◌∷◌ (h g (Memᴰ.head refl) c p.0).1 (Picks-units cs gs sel (λ x m. h x (Memᴰ.tail m)) p.1)

  Picks-intro :
      (cs : List (Candidate D M)) (d : Dict String (List (Candidate D M))) (gs : Groups D M)
      (sel : List (Candidate D M))
      → All (λ c. Has c d) cs
      → All (λ e. get e.0 d ≡ some e.1) gs
      → All (λ c. c ∈ cs) sel
      → map (λ (c : Candidate D M). c.unit_id) sel ≡ keys gs
      → Picks gs sel
  Picks-intro cs d [] [] has found mem units = tt
  Picks-intro cs d [] (c ∷ sel) has found mem units = absurd (cc)
  Picks-intro cs d (g ∷ gs) [] has found mem units = absurd (cc)
  Picks-intro cs d ((u, l) ∷ gs) (c ∷ sel) has found mem units =
      let (k, at, m) = has c (mem c (Memᴰ.head refl)) in
      let same : c.unit_id ≡ u = cc in
      let at' : get u d ≡ some k = rw same at at in
      let there : get u d ≡ some l = found (u, l) (Memᴰ.head refl) in
      (
        subst (λ z. c ∈ z) (ground (arith, at', there)) m,
        Picks-intro cs d gs sel has (λ x n. found x (Memᴰ.tail n)) (λ x n. mem x (Memᴰ.tail n))
            (cc),
      )

module _ {D M : Type 0} {cs : List (Candidate D M)} {d : Dict String (List (Candidate D M))} where
  keys-sorted : IsGrouping cs d → keys (sorted key_lt d) ≡ unit_ids cs
  unfolding unit_ids
  keys-sorted g =
      map-sorted (λ (e : String × List (Candidate D M)). e.0) str_ltb d
      ∙ ap (sorted str_ltb) g.units

  -- The groups in the order of their units pick the selections of the candidates, and nothing else.
  pub IsSelection_of_Picks :
      IsGrouping cs d
      → (sel : List (Candidate D M)) → Picks (sorted key_lt d) sel
      → IsSelection cs sel
  IsSelection_of_Picks g sel p =
      let sound : All (IsOfUnit cs) (sorted key_lt d) = λ e m. g.sound e (mem-sorted key_lt d m) in
      record {
        members = Picks-members cs (sorted key_lt d) sel sound p;
        units = Picks-units cs (sorted key_lt d) sel sound p ∙ keys-sorted g;
      }

  pub Picks-of_IsSelection :
      IsGrouping cs d
      → (sel : List (Candidate D M)) → IsSelection cs sel
      → Picks (sorted key_lt d) sel
  Picks-of_IsSelection g sel s =
      Picks-intro cs d (sorted key_lt d) sel g.complete
        (λ e m. get_of_mem d g.distinct (mem-sorted key_lt d m)) s.members
        (s.units ∙ sym (keys-sorted g))
