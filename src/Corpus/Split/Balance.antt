-- ===== src/Corpus/Split/Balance.antt =====
-- The split is stratified: the documents of each domain are spread over the roles evenly.
use shapleymcg.Common.{
  ℕ, zero, suc, ◌+◌, ◌-◌, ◌/◌, ◌%◌, ◌≤◌, ◌<◌, ◌≡◌, ◌≢◌, refl, sym, ap, ◌∙◌, subst, String, true,
  false, List, [], ◌∷◌, ◌++◌, arith, length, get_or, str_ltb, ◌==◌, string_keys, Bool-cases,
  Option-cases, inl, inr, All, All-cons, All-append, Memᴰ,
}
use shapleymcg.Common.Dict.{
  Dict, get, keys, keys-put, add_key, add_key-IsDistinct, IsDistinct, get-mem, put-All,
  sorted-IsDistinct,
}
use shapleymcg.Common.Sort.{sorted, mem-sorted, map-sorted}
use shapleymcg.Common.Sums.{sum_of, sum_of-append, one_if, how_many, file_under}
use shapleymcg.Corpus.Documents.{Document}
use shapleymcg.Corpus.Split.{
  Role, fit, conditional_fit, selection, confirmation, final, roles, role_index, same_role, Split,
  role_at, assign, deal, by_domain, domain_lt, earlier, deal_domains, document_split,
}
use shapleymcg.Corpus.Split.Partition.{not_same}

-- How many documents of the role are of the domain.
abbrev pub share : String → Split → Role → ℕ
share u split r = how_many (λ d. d.domain == u) (split r)

index_of_get : (k : ℕ) → k < 5 → role_index (get_or roles k fit) ≡ k
index_of_get zero h = refl
index_of_get (suc zero) h = refl
index_of_get (suc (suc zero)) h = refl
index_of_get (suc (suc (suc zero))) h = refl
index_of_get (suc (suc (suc (suc zero)))) h = refl
index_of_get (suc (suc (suc (suc (suc k))))) h = absurd (omega (arith, h))

index_of_role_at : (i : ℕ) → role_index (role_at i) ≡ i % 5
index_of_role_at i = index_of_get (i % 5) (omega arith)

role_index_small : (r : Role) → role_index r < 5
role_index_small fit = omega arith
role_index_small conditional_fit = omega arith
role_index_small selection = omega arith
role_index_small confirmation = omega arith
role_index_small final = omega arith

module _ (u : String) (role : Role) (row : Document) (split : Split) (r : Role) where
  -- One more document in the role that it is assigned to.
  share-assign_same :
      same_role role r ≡ true
      → share u (assign role row split) r ≡ share u split r + one_if (row.domain == u)
  unfolding assign sum_of
  share-assign_same e =
      rw (e, assign)
        (omega
          (arith, sum_of-append (λ (d : Document). one_if (d.domain == u)) (split r) (row ∷ [])))

  share-assign_other :
      same_role role r ≡ false → share u (assign role row split) r ≡ share u split r
  unfolding assign
  share-assign_other e = rw (e, assign) refl

-- Documents of other domains change no share.
share-deal_other :
    (u : String) (rows : List Document) (i : ℕ) (split : Split) (r : Role)
    → All (λ d. (d.domain == u) ≡ false) rows
    → share u (deal i rows split) r ≡ share u split r
unfolding deal
share-deal_other u [] i split r h = refl
share-deal_other u (row ∷ rows) i split r h =
    let none_new : one_if (row.domain == u) ≡ 0 = ap one_if (h row (Memᴰ.head refl)) in
    share-deal_other u rows (suc i) (assign (role_at i) row split) r (λ d m. h d (Memᴰ.tail m))
    ∙ elim (Bool-cases (same_role (role_at i) r)) [
      | inl e ↦ omega (arith, share-assign_same u (role_at i) row split r e, none_new)
      | inr e ↦ share-assign_other u (role_at i) row split r e
    ]

-- The share of a role after the documents of the domain were dealt to the roles in turn.
share-deal :
    (u : String) (rows : List Document) (i : ℕ) (split : Split) (r : Role)
    → All (λ d. (d.domain == u) ≡ true) rows
    → share u (deal i rows split) r + (i + 4 - role_index r) / 5
      ≡ share u split r + (i + length rows + 4 - role_index r) / 5
unfolding deal
share-deal u [] i split r h = ap (λ n. share u split r + (n + 4 - role_index r) / 5) (omega arith)
share-deal u (row ∷ rows) i split r h =
    let one_new : one_if (row.domain == u) ≡ 1 = ap one_if (h row (Memᴰ.head refl)) in
    let next = assign (role_at i) row split in
    let rest = share-deal u rows (suc i) next r (λ d m. h d (Memᴰ.tail m)) in
    let small = role_index_small r in
    let turn = index_of_role_at i in
    elim (Bool-cases (same_role (role_at i) r)) [
      | inl e ↦
          let at : i % 5 ≡ role_index r = ground (arith, e, turn) in
          let more = share-assign_same u (role_at i) row split r e in
          omega (arith, rest, more, one_new, at, small)
      | inr e ↦
          let at : i % 5 ≢ role_index r = ground (arith, e, turn) in
          let same = share-assign_other u (role_at i) row split r e in
          omega (arith, rest, same, at, small)
    ]

-- Every group holds documents of its domain only.
abbrev IsByDomain : List (String × List Document) → Type 0
IsByDomain groups = All (λ (e : String × List Document). All (λ d. d.domain ≡ e.0) e.1) groups

file_under-IsByDomain :
    (d : Document) (groups : Dict String (List Document))
    → IsByDomain groups
    → IsByDomain (file_under d.domain d groups)
unfolding file_under
file_under-IsByDomain d groups h =
    let here : All (λ x. x.domain ≡ d.domain) (d ∷ []) =
      All-cons refl (λ x m. absurd (elim m [ ])) in
    elim (Option-cases (get d.domain groups)) [
      | inl e ↦ rw (e, file_under) (put-All d.domain (d ∷ []) groups h here)
      | inr (ds, e) ↦
          rw (e, file_under)
            (put-All d.domain (ds ++ d ∷ []) groups h
              (All-append ds (d ∷ []) (h (d.domain, ds) (get-mem d.domain groups e)) here))
    ]

keys-file_under :
    (d : Document) (groups : Dict String (List Document))
    → keys (file_under d.domain d groups) ≡ add_key d.domain (keys groups)
unfolding file_under
keys-file_under d groups = elim (Option-cases (get d.domain groups)) [
  | inl e ↦ rw (e, file_under) (keys-put d.domain (d ∷ []) groups)
  | inr (ds, e) ↦ rw (e, file_under) (keys-put d.domain (ds ++ d ∷ []) groups)
]

by_domain-IsByDomain :
    (ds : List Document) (groups : Dict String (List Document))
    → IsByDomain groups
    → IsDistinct (keys groups)
    → IsByDomain (by_domain ds groups) × IsDistinct (keys (by_domain ds groups))
unfolding by_domain
by_domain-IsByDomain [] groups h k = (h, k)
by_domain-IsByDomain (d ∷ ds) groups h k =
    by_domain-IsByDomain ds (file_under d.domain d groups) (file_under-IsByDomain d groups h) (
      subst IsDistinct (sym (keys-file_under d groups))
        (add_key-IsDistinct d.domain (keys groups) k))

-- The shares of the domain in two roles differ by one at most.
abbrev pub IsEven : String → Split → Type 0
IsEven u split = (r q : Role) → share u split r ≤ share u split q + 1

module _ (sha256 : String → String) (seed : String) (u : String) where
  share-deal_domains :
      (groups : List (String × List Document)) (split : Split) (r : Role)
      → IsByDomain groups
      → All (λ k. k ≢ u) (keys groups)
      → share u (deal_domains sha256 seed groups split) r ≡ share u split r
  unfolding deal_domains
  share-deal_domains [] split r h k = refl
  share-deal_domains ((domain, rows) ∷ rest) split r h k =
      let rows' = sorted (earlier sha256 seed domain) rows in
      share-deal_domains rest (deal 0 rows' split) r (λ e m. h e (Memᴰ.tail m))
        (λ z m. k z (Memᴰ.tail m))
      ∙ share-deal_other u rows' 0 split r (λ d m.
        let same =
          h (domain, rows) (Memᴰ.head refl) d (mem-sorted (earlier sha256 seed domain) rows m) in
        not_same d.domain u (λ p. k domain (Memᴰ.head refl) (sym same ∙ p)))

  deal_domains-IsEven :
      (groups : List (String × List Document)) (split : Split)
      → IsByDomain groups
      → IsDistinct (keys groups)
      → ((r : Role) → share u split r ≡ 0)
      → IsEven u (deal_domains sha256 seed groups split)
  unfolding deal_domains
  deal_domains-IsEven [] split h k none_yet = λ r q. omega (arith, none_yet r)
  deal_domains-IsEven ((domain, rows) ∷ rest) split h k none_yet =
      let rows' = sorted (earlier sha256 seed domain) rows in
      let of_domain : All (λ d. d.domain ≡ domain) rows' = λ d m.
        h (domain, rows) (Memᴰ.head refl) d (mem-sorted (earlier sha256 seed domain) rows m) in
      let later : IsByDomain rest = λ e m. h e (Memᴰ.tail m) in
      elim (Bool-cases (domain == u)) [
        | inl e ↦
            let same : domain ≡ u = (string_keys.same_iff domain u).0 e in
            let dealt = λ (r : Role).
              share-deal u rows' 0 split r
                (λ d m. (string_keys.same_iff d.domain u).1 (of_domain d m ∙ same)) in
            let kept = λ (r : Role).
              share-deal_domains rest (deal 0 rows' split) r later
                (λ z m p. k.0 z m (p ∙ sym same)) in
            λ r q. omega (
              arith,
              dealt r,
              dealt q,
              kept r,
              kept q,
              none_yet r,
              none_yet q,
              role_index_small r,
              role_index_small q,
            )
        | inr e ↦ deal_domains-IsEven rest (deal 0 rows' split) later k.1 (λ r.
            share-deal_other u rows' 0 split r
              (λ d m. subst (λ z. (z == u) ≡ false) (sym (of_domain d m)) e)
            ∙ none_yet r)
      ]

  -- `document_split` spreads the documents of each domain evenly: the numbers of them in two roles differ by
  -- one at most.
  pub document_split-IsEven :
      (documents : List Document) → IsEven u (document_split sha256 seed documents)
  unfolding document_split
  document_split-IsEven documents =
      let (by, distinct) = by_domain-IsByDomain documents [] (λ e m. absurd (elim m [ ])) tt in
      let groups = by_domain documents [] in
      let keys_sorted = map-sorted (λ (e : String × List Document). e.0) str_ltb groups in
      deal_domains-IsEven (sorted domain_lt groups) (λ r. [])
        (λ e m. by e (mem-sorted domain_lt groups m))
        (subst IsDistinct (sym keys_sorted) (sorted-IsDistinct str_ltb (keys groups) distinct))
        (λ r. unfold sum_of in refl)
