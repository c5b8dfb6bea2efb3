-- ===== src/Factory/Metadata.antt =====
-- The coupling metadata of a factory candidate, and its test `_candidate_metadata`. A metadata mapping that
-- has the required keys, with the types that the source asks for, is a record here; no mapping is `none`.
use shapleymcg.Common.Texts.{is_sha256}
use shapleymcg.Common.{ℕ, String, not, Option, none, some, ◌==◌, string_keys}
use shapleymcg.Common.Double.{Double, is_finite}
use shapleymcg.Common.Result.{Result, ok, err, ◌>>◌, raise_if}
use shapleymcg.Allocation.Candidate.{Candidate}

-- The exceptions of `_candidate_metadata` and `_internal_frontier`, by what raises them.
pub data FactoryError : Type 0 where
  lacks_metadata empty_coupling_group invalid_domain damage_not_finite : FactoryError
  private_cost_not_divisible : FactoryError

pub record Metadata (D : Type 0) : Type 0 where
  pub factory_name : String
  pub rate : ℕ
  pub coupling_group_id : String
  pub compatibility_domain_sha256 : String
  pub fixed_shared_bytes : ℕ
  pub domain_fixed_damage : D
  pub proposal_sha256 : String
  pub common_score_sha256 : String
  pub record_sha256 : String

abbrev pub FactoryCandidate : Type 0 → Type 0
FactoryCandidate D = Candidate D (Option (Metadata D))

module _ {D : Type 0} ⦃f : Double D⦄ where
  check_metadata : Metadata D → Result FactoryError (Metadata D)
  unfolding is_sha256
  check_metadata metadata = do
    raise_if (metadata.coupling_group_id == "") empty_coupling_group
    raise_if (not (is_sha256 metadata.compatibility_domain_sha256)) invalid_domain
    raise_if (not (is_finite metadata.domain_fixed_damage)) damage_not_finite
    ok metadata

  unfoldable pub candidate_metadata : FactoryCandidate D → Result FactoryError (Metadata D)
  unfolding check_metadata
  candidate_metadata candidate = elim candidate.metadata [
    | none ↦ err lacks_metadata
    | some metadata ↦ check_metadata metadata
  ]
