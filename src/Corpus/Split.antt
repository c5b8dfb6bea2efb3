-- ===== src/Corpus/Split.antt =====
-- `document_split`: the whole documents are dealt to the roles, by domain. `sha256` is the digest, a string
-- of bytes, and `seed` the printed seed.
pub mod Partition
pub mod Balance
use Prim.Native.String.{◌++◌ as append}
use shapleymcg.Common.{
  ℕ, suc, ◌%◌, String, Bool, true, false, List, [], ◌∷◌, ◌++◌, str_ltb, get_or, length,
  if◌then◌else◌, ◌==◌, nat_eq, string_keys,
}
use shapleymcg.Common.Dict.{Dict, get, put}
use shapleymcg.Common.Sort.{sorted}
use shapleymcg.Common.Sums.{file_under}
use shapleymcg.Corpus.Documents.{Document}

pub data Role : Type 0 where
  fit conditional_fit selection confirmation final : Role

-- `ROLES`
abbrev pub roles : List Role
roles = fit ∷ conditional_fit ∷ selection ∷ confirmation ∷ final ∷ []

abbrev pub role_index : Role → ℕ
role_index fit = 0
role_index conditional_fit = 1
role_index selection = 2
role_index confirmation = 3
role_index final = 4

abbrev pub same_role : Role → Role → Bool
same_role r q = nat_eq (role_index r) (role_index q)

-- The dictionary from roles to documents, which has every role as a key.
abbrev pub Split : Type 0
Split = Role → List Document

-- `ROLES[index % len(ROLES)]`
abbrev pub role_at : ℕ → Role
role_at index = get_or roles (index % length roles) fit

-- `result[role].append(row)`
unfoldable pub assign : Role → Document → Split → Split
assign role row result = λ r. if same_role role r then result r ++ row ∷ [] else result r

-- the loop over the rows of one domain, from `index` on
unfoldable pub deal : ℕ → List Document → Split → Split
unfolding assign
deal index [] result = result
deal index (row ∷ rows) result = deal (suc index) rows (assign (role_at index) row result)

-- `by_domain[document["domain"]].append(document)` for all of them
unfoldable pub by_domain : List Document → Dict String (List Document) → Dict String (List Document)
unfolding file_under
by_domain [] groups = groups
by_domain (d ∷ ds) groups = by_domain ds (file_under d.domain d groups)

abbrev pub domain_lt : String × List Document → String × List Document → Bool
domain_lt a b = str_ltb a.0 b.0

module _ (sha256 : String → String) (seed : String) where
  -- the digest that a document is sorted by
  unfoldable pub sort_key : String → Document → String
  sort_key domain row = sha256 (append seed (append "\0" (append domain (append "\0" row.id))))

  abbrev pub earlier : String → Document → Document → Bool
  earlier domain a b = str_ltb (sort_key domain a) (sort_key domain b)

  -- the loop over the domains
  unfoldable pub deal_domains : List (String × List Document) → Split → Split
  unfolding deal sorted sort_key
  deal_domains [] result = result
  deal_domains ((domain, rows) ∷ rest) result =
      deal_domains rest (deal 0 (sorted (earlier domain) rows) result)

  unfoldable pub document_split : List Document → Split
  unfolding deal_domains by_domain sorted
  document_split documents = deal_domains (sorted domain_lt (by_domain documents [])) (λ r. [])
