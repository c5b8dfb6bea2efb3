-- ===== src/Corpus/Split/Partition.antt =====
-- The split is a partition of the documents: nothing is lost, nothing is repeated, and so no document is
-- in two roles.
use mathlib.Core.Bool.{false≢true}
use shapleymcg.Common.{
  ℕ, suc, ◌+◌, ◌≤◌, ◌≡◌, ◌≢◌, refl, sym, ap, ◌∙◌, String, Bool, true, false, List, [], ◌∷◌, map,
  ◌∈◌, Memᴰ, arith, ◌==◌, string_keys, Bool-cases, inl, inr, mem-map, nat_eq_iff,
}
use shapleymcg.Common.Dict.{Dict, IsDistinct}
use shapleymcg.Common.Result.{ok}
use shapleymcg.Common.Sort.{sorted}
use shapleymcg.Common.Sums.{
  sum_of, sum_of-append, sum_of-sorted, one_if, how_many, how_many-mem, how_many-none, total_of,
  total_of-file_under, two_le-sum_of, file_under,
}
use shapleymcg.Corpus.Documents.{Document, read_documents, read_documents-IsDistinct}
use shapleymcg.Corpus.Split.{
  Role, fit, conditional_fit, selection, confirmation, final, roles, role_index, same_role, Split,
  role_at, assign, deal, by_domain, domain_lt, earlier, deal_domains, document_split,
}

module _ (test : Document → Bool) where
  -- How many documents of all the roles pass the test.
  abbrev pub in_roles : Split → ℕ
  in_roles split = sum_of (λ r. how_many test (split r)) roles

  in_roles-assign :
      (role : Role) (row : Document) (split : Split)
      → in_roles (assign role row split) ≡ one_if (test row) + in_roles split
  unfolding sum_of assign
  in_roles-assign fit row split =
      omega (arith, sum_of-append (λ d. one_if (test d)) (split fit) (row ∷ []))
  in_roles-assign conditional_fit row split =
      omega (arith, sum_of-append (λ d. one_if (test d)) (split conditional_fit) (row ∷ []))
  in_roles-assign selection row split =
      omega (arith, sum_of-append (λ d. one_if (test d)) (split selection) (row ∷ []))
  in_roles-assign confirmation row split =
      omega (arith, sum_of-append (λ d. one_if (test d)) (split confirmation) (row ∷ []))
  in_roles-assign final row split =
      omega (arith, sum_of-append (λ d. one_if (test d)) (split final) (row ∷ []))

  in_roles-deal :
      (index : ℕ) (rows : List Document) (split : Split)
      → in_roles (deal index rows split) ≡ how_many test rows + in_roles split
  unfolding deal sum_of
  in_roles-deal index [] split = omega arith
  in_roles-deal index (row ∷ rows) split =
      in_roles-deal (suc index) rows (assign (role_at index) row split)
      ∙ omega (arith, in_roles-assign (role_at index) row split)

  empty_split : in_roles (λ r. []) ≡ 0
  unfolding sum_of
  empty_split = refl

  total_of-by_domain :
      (ds : List Document) (groups : Dict String (List Document))
      → total_of (λ d. one_if (test d)) (by_domain ds groups)
        ≡ how_many test ds + total_of (λ d. one_if (test d)) groups
  unfolding by_domain sum_of
  total_of-by_domain [] groups = omega arith
  total_of-by_domain (d ∷ ds) groups =
      total_of-by_domain ds (file_under d.domain d groups)
      ∙ omega (arith, total_of-file_under (λ x. one_if (test x)) d.domain d groups)

  module _ (sha256 : String → String) (seed : String) where
    in_roles-deal_domains :
        (groups : List (String × List Document)) (split : Split)
        → in_roles (deal_domains sha256 seed groups split)
          ≡ total_of (λ d. one_if (test d)) groups + in_roles split
    unfolding deal_domains sum_of
    in_roles-deal_domains [] split = omega arith
    in_roles-deal_domains ((domain, rows) ∷ rest) split =
        let rows' = sorted (earlier sha256 seed domain) rows in
        in_roles-deal_domains rest (deal 0 rows' split)
        ∙ omega (
          arith,
          in_roles-deal 0 rows' split,
          sum_of-sorted (λ x. one_if (test x)) (earlier sha256 seed domain) rows,
        )

    -- Whatever is asked of a document, as many documents of all the roles pass as of those that are split.
    pub document_split_partition :
        (documents : List Document)
        → in_roles (document_split sha256 seed documents) ≡ how_many test documents
    unfolding document_split sum_of
    document_split_partition documents =
        in_roles-deal_domains (sorted domain_lt (by_domain documents [])) (λ r. [])
        ∙ omega (
          arith,
          sum_of-sorted (λ (g : String × List Document). how_many test g.1) domain_lt
              (by_domain documents []),
          total_of-by_domain documents [],
          empty_split,
        )

pub not_same : (i j : String) → i ≢ j → (i == j) ≡ false
not_same i j ne = elim (Bool-cases (i == j)) [
  | inl e ↦ absurd (ne ((string_keys.same_iff i j).0 e))
  | inr e ↦ e
]

-- At most one item of a list with no repetition is the item.
count_le_one :
    (id : String) (documents : List Document)
    → IsDistinct (map (λ (d : Document). d.id) documents)
    → how_many (λ (d : Document). d.id == id) documents ≤ 1
unfolding sum_of
count_le_one id [] h = omega arith
count_le_one id (d ∷ ds) (apart, h) = elim (Bool-cases (d.id == id)) [
  | inl e ↦
      let same : d.id ≡ id = (string_keys.same_iff d.id id).0 e in
      let rest =
        how_many-none (λ (x : Document). x.id == id) ds
          (λ x m.
            not_same x.id id
              (λ p. apart x.id (mem-map (λ (z : Document). z.id) ds m) (p ∙ sym same))) in
      omega (arith, ap one_if e, rest)
  | inr e ↦ omega (arith, ap one_if e, count_le_one id ds h)
]

pub role_of_index : (r : Role) → role_at (role_index r) ≡ r
role_of_index fit = refl
role_of_index conditional_fit = refl
role_of_index selection = refl
role_of_index confirmation = refl
role_of_index final = refl

same_role-eq : (r q : Role) → same_role r q ≡ true → r ≡ q
same_role-eq r q h =
    sym (role_of_index r)
    ∙ ap role_at ((nat_eq_iff (role_index r) (role_index q)).0 h)
    ∙ role_of_index q

pub same_role-ne : (r q : Role) → same_role r q ≡ false → r ≢ q
same_role-ne r q h e =
    absurd (false≢true (sym h ∙ (nat_eq_iff (role_index r) (role_index q)).1 (ap role_index e)))

role-mem : (r : Role) → r ∈ roles
role-mem fit = Memᴰ.head refl
role-mem conditional_fit = Memᴰ.tail (Memᴰ.head refl)
role-mem selection = Memᴰ.tail (Memᴰ.tail (Memᴰ.head refl))
role-mem confirmation = Memᴰ.tail (Memᴰ.tail (Memᴰ.tail (Memᴰ.head refl)))
role-mem final = Memᴰ.tail (Memᴰ.tail (Memᴰ.tail (Memᴰ.tail (Memᴰ.head refl))))

-- Of the documents that `read_documents` returns, `document_split` puts none into two roles: two documents
-- with one id are in one role.
pub document_split_no_leak :
    {V : Type 0} (loads : String → Dict String V) (str : V → String) (is_blank : String → Bool)
    (sha256 : String → String) (seed : String) (lines : List String) (documents : List Document)
    (r q : Role) (d e : Document)
    → read_documents loads str is_blank lines ≡ ok documents
    → d ∈ document_split sha256 seed documents r
    → e ∈ document_split sha256 seed documents q
    → d.id ≡ e.id
    → r ≡ q
document_split_no_leak loads str is_blank sha256 seed lines documents r q d e read md me same =
    elim (Bool-cases (same_role r q)) [
      | inl h ↦ same_role-eq r q h
      | inr h ↦
          let split = document_split sha256 seed documents in
          let is_d : Document → Bool = λ x. x.id == d.id in
          let once =
            count_le_one d.id documents
              (read_documents-IsDistinct loads str is_blank lines documents read) in
          let both =
            two_le-sum_of (λ z. how_many is_d (split z)) roles (role-mem r) (role-mem q)
              (same_role-ne r q h) in
          absurd (
            omega (
              arith,
              once,
              both,
              document_split_partition is_d sha256 seed documents,
              how_many-mem is_d (split r) md ((string_keys.same_iff d.id d.id).1 refl),
              how_many-mem is_d (split q) me ((string_keys.same_iff e.id d.id).1 (sym same)),
            ))
    ]
