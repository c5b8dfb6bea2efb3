-- ===== src/Common/Double.antt =====
-- The floating-point numbers that the allocators add and compare. Python's `float` is not under the
-- repository, so its carrier, its addition and its `<` are a parameter, with the laws of IEEE 754 that
-- hold of the values which a run meets: the finite numbers and +inf. (NaN is refused by the source's
-- `math.isfinite`, and no sum that a run forms falls to -inf.) Addition rounds, so it is monotone and
-- nothing more: it is neither associative nor strictly monotone.
use Prim.Native.Nat.{ℕ, ◌+◌}
use mathlib.Core.Path.{◌≡◌, refl}
use mathlib.Core.Bool.{Bool, true, false}
use native.Mathlib.Omega.{arith}
use shapleymcg.Common.Tests.{ltb, Bool-cases}
use mathlib.Core.Logic.{inl, inr}

pub record Double (D : Type 0) : Type 0 where
  pub zero_point : D
  pub infinity : D
  pub add : D → D → D
  pub lt : D → D → Bool
  pub lt_irrefl : (a : D) → lt a a ≡ false
  -- `not (b < a)` and `not (c < b)` give `not (c < a)`
  pub ge_trans : (a b c : D) → lt b a ≡ false → lt c b ≡ false → lt c a ≡ false
  pub lt_asymm : (a b : D) → lt a b ≡ true → lt b a ≡ false
  pub add_mono : (a b c d : D) → lt b a ≡ false → lt d c ≡ false → lt (add b d) (add a c) ≡ false
  pub infinity_top : (a : D) → lt infinity a ≡ false
  -- a sum with +inf is +inf
  pub add_infinity : (a c : D) → lt a infinity ≡ false → lt (add a c) infinity ≡ false

module _ {D : Type 0} ⦃f : Double D⦄ where
  -- `not (b < a)`
  infix 50 ◌≼◌
  abbrev pub ◌≼◌ : D → D → Type 0
  a ≼ b = f.lt b a ≡ false

  -- `math.isfinite(a)`, of a value that is neither NaN nor -inf
  abbrev pub is_finite : D → Bool
  is_finite a = f.lt a f.infinity

  pub ≼_refl : (a : D) → a ≼ a
  ≼_refl a = f.lt_irrefl a

  pub ≼_trans : (a b c : D) → a ≼ b → b ≼ c → a ≼ c
  ≼_trans a b c p q = f.ge_trans a b c p q

  pub ≼_of_lt : (a b : D) → f.lt a b ≡ true → a ≼ b
  ≼_of_lt a b h = f.lt_asymm a b h

  -- What is not above a finite value is finite.
  pub is_finite_of_≼ : (a b : D) → a ≼ b → is_finite b ≡ true → is_finite a ≡ true
  is_finite_of_≼ a b p h = elim (Bool-cases (is_finite a)) [
    | inl e ↦ e
    | inr e ↦ cc (f.ge_trans f.infinity a b e p)
  ]

  -- A finite sum has a finite left part.
  pub is_finite_left : (a c : D) → is_finite (f.add a c) ≡ true → is_finite a ≡ true
  is_finite_left a c h = elim (Bool-cases (is_finite a)) [
    | inl e ↦ e
    | inr e ↦ cc (f.add_infinity a c e)
  ]

-- An instance: natural numbers with a top.
pub data Capped : Type 0 where
  finite : ℕ → Capped
  top : Capped

abbrev pub capped_add : Capped → Capped → Capped
capped_add (finite a) (finite b) = finite (a + b)
capped_add (finite a) top = top
capped_add top b = top

abbrev pub capped_lt : Capped → Capped → Bool
capped_lt (finite a) (finite b) = ltb a b
capped_lt (finite a) top = true
capped_lt top b = false

pub capped_irrefl : (a : Capped) → capped_lt a a ≡ false
capped_irrefl (finite a) = ground arith
capped_irrefl top = refl

pub capped_ge_trans :
    (a b c : Capped) → capped_lt b a ≡ false → capped_lt c b ≡ false → capped_lt c a ≡ false
capped_ge_trans (finite a) (finite b) (finite c) p q = ground arith
capped_ge_trans (finite a) (finite b) top p q = refl
capped_ge_trans (finite a) top (finite c) p q = cc
capped_ge_trans (finite a) top top p q = refl
capped_ge_trans top (finite b) c p q = cc
capped_ge_trans top top (finite c) p q = cc
capped_ge_trans top top top p q = refl

pub capped_asymm : (a b : Capped) → capped_lt a b ≡ true → capped_lt b a ≡ false
capped_asymm (finite a) (finite b) h = ground arith
capped_asymm (finite a) top h = refl
capped_asymm top b h = cc

pub capped_mono :
    (a b c d : Capped)
    → capped_lt b a ≡ false
    → capped_lt d c ≡ false
    → capped_lt (capped_add b d) (capped_add a c) ≡ false
capped_mono a top c d p q = refl
capped_mono a (finite b) c top p q = refl
capped_mono (finite a) (finite b) (finite c) (finite d) p q = ground arith
capped_mono top (finite b) c (finite d) p q = cc
capped_mono (finite a) (finite b) top (finite d) p q = cc

pub capped_top : (a : Capped) → capped_lt top a ≡ false
capped_top a = refl

pub capped_add_top :
    (a c : Capped) → capped_lt a top ≡ false → capped_lt (capped_add a c) top ≡ false
capped_add_top (finite a) c h = cc
capped_add_top top c h = refl

instance abbrev pub capped : Double Capped
capped = record {
  zero_point = finite 0;
  infinity = top;
  add = capped_add;
  lt = capped_lt;
  lt_irrefl = capped_irrefl;
  ge_trans = capped_ge_trans;
  lt_asymm = capped_asymm;
  add_mono = capped_mono;
  infinity_top = capped_top;
  add_infinity = capped_add_top;
}
