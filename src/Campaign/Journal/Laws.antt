-- ===== src/Campaign/Journal/Laws.antt =====
-- What the journal relies on: JSON that is written and read back, and hashes of 64 hexadecimal digits.
use shapleymcg.Common.{ℕ, String, ◌≡◌, true, some}
use shapleymcg.Common.Json.{
  Numbers, Json, text, number, object, Fields, get_field, del_field, is_finite_json,
}
use shapleymcg.Common.Texts.{is_sha256}
use shapleymcg.Campaign.Journal.{Format}

module _ {N L : Type 0} ⦃n : Numbers N⦄ (format : Format N L) where
  -- The mapping `gs` that is read back where `fs` was written: its texts and numbers are those of `fs`, and
  -- it is written as `fs` is, also without a key.
  pub record Reads (fs gs : Fields N) : Type 0 where
    pub texts : (k s : String) → get_field k fs ≡ some (text s) → get_field k gs ≡ some (text s)
    pub numbers :
        (k : String) (x : N) → get_field k fs ≡ some (number x) → get_field k gs ≡ some (number x)
    pub without :
        (k : String)
        → format.canonical (object (del_field k gs)) ≡ format.canonical (object (del_field k fs))
    pub written : format.canonical (object gs) ≡ format.canonical (object fs)
    pub finite : is_finite_json (object gs) ≡ true

  -- What was written is read back, and written again as the same line.
  abbrev pub ReadsBack : Type 0
  ReadsBack =
      (fs : Fields N) (l : L)
      → format.canonical (object fs) ≡ some l
      → (gs : Fields N) × (format.loads l ≡ some (object gs))
        × (format.canonical (object gs) ≡ some l)
        × Reads fs gs

  pub record IsLawful : Type 0 where
    -- a natural number equals itself and is finite
    pub same_nat : (i : ℕ) → n.same_number (n.of_nat i) (n.of_nat i) ≡ true
    pub finite_nat : (i : ℕ) → n.is_finite_number (n.of_nat i) ≡ true
    -- what is finite is written
    pub writes : (v : Json N) → is_finite_json v ≡ true → (l : L) × (format.canonical v ≡ some l)
    pub reads : ReadsBack
    pub hashes : (l : L) → is_sha256 (format.sha256 l) ≡ true
