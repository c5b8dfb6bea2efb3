-- ===== src/Campaign/Journal/Sealed.antt =====
-- The event that `append` makes of a body: what it has at each key.
use shapleymcg.Common.{
  ℕ, ◌≡◌, refl, sym, ap, ◌∙◌, String, if◌then◌else◌, ◌==◌, Bool-cases, inl, inr, true, false,
  Option, none, some, Keyed, string_keys, arith,
}
use shapleymcg.Common.Json.{
  Numbers, Json, text, number, object, Fields, end, get_field, put_field, del_field,
}
use shapleymcg.Common.Json.Mappings.{
  HasUniqueKeys, get_field-put_field, get_field-put_fields, get_field-put_fields_all,
  del_field-put_field,
}
use shapleymcg.Campaign.Journal.{Format, journal_schema, unsealed}
use shapleymcg.Campaign.Journal.Lines.{IsPlaced}

module _ {N : Type 0} where
  -- A body that sets none of the keys that `append` sets.
  pub record IsFree (body : Fields N) : Type 0 where
    pub no_schema : get_field "schema" body ≡ none
    pub no_index : get_field "event_index" body ≡ none
    pub no_timestamp : get_field "timestamp" body ≡ none
    pub no_previous : get_field "previous_event_sha256" body ≡ none
    pub no_hash : get_field "event_sha256" body ≡ none
    pub unique : HasUniqueKeys body

module _ {N : Type 0} ⦃n : Numbers N⦄ where
  -- What the event number `index` has at a key: what `append` sets, or what the body has.
  abbrev pub sealed_value : ℕ → String → String → String → Fields N → String → Option (Json N)
  sealed_value index timestamp previous hash body key =
      if "event_sha256" == key
      then some (text hash)
      else if "schema" == key
      then some (text journal_schema)
      else if "event_index" == key
      then some (number (n.of_nat index))
      else if "timestamp" == key
      then some (text timestamp)
      else if "previous_event_sha256" == key
      then some (text previous)
      else get_field key body

module _ {N L : Type 0} ⦃n : Numbers N⦄ ⦃k : Keyed L⦄ (format : Format N L) where
  -- The event has the body and what `append` sets, and its hash is that of the line that it is without it.
  pub record IsSealed (index : ℕ) (timestamp previous : String) (body sealed : Fields N)
      : Type 0 where
    pub line : L
    pub written : format.canonical (object (del_field "event_sha256" sealed)) ≡ some line
    pub values :
        (key : String)
        → get_field key sealed ≡ sealed_value index timestamp previous (format.sha256 line) body key

  pub unsealed-IsPlaced :
      (index : ℕ) (timestamp previous : String) (body : Fields N)
      → IsFree body
      → IsPlaced format index previous (unsealed format index timestamp previous body)
  unsealed-IsPlaced index timestamp previous body free =
      let first = unsealed format index timestamp previous end in
      record {
        schema = get_field-put_fields "schema" first body free.no_schema;
        event_index = get_field-put_fields "event_index" first body free.no_index;
        previous_hash = get_field-put_fields "previous_event_sha256" first body free.no_previous;
        open_hash = get_field-put_fields "event_sha256" first body free.no_hash;
      }

  -- The key `name`, which the body does not have, is not hidden.
  not_hidden :
      (name key : String) (body : Fields N)
      → (name == key) ≡ true
      → get_field name body ≡ none
      → get_field key body ≡ none
  not_hidden name key body e h =
      ap (λ z. get_field z body) (sym ((string_keys.same_iff name key).0 e)) ∙ h

  get_field-unsealed :
      (index : ℕ) (timestamp previous hash : String) (body : Fields N) (key : String)
      → IsFree body
      → ("event_sha256" == key) ≡ false
      → get_field key (unsealed format index timestamp previous body)
        ≡ sealed_value index timestamp previous hash body key
  get_field-unsealed index timestamp previous hash body key free h =
      get_field-put_fields_all key (unsealed format index timestamp previous end) body free.unique
      ∙ ground (
        arith,
        h,
        not_hidden "schema" key body,
        not_hidden "event_index" key body,
        not_hidden "timestamp" key body,
        not_hidden "previous_event_sha256" key body,
        free.no_schema,
        free.no_index,
        free.no_timestamp,
        free.no_previous,
      )

  pub unsealed-IsSealed :
      (index : ℕ) (timestamp previous : String) (body : Fields N) (line : L)
      → IsFree body
      → format.canonical (object (unsealed format index timestamp previous body)) ≡ some line
      → IsSealed index timestamp previous body (
          put_field "event_sha256"
            (text (format.sha256 line))
            (unsealed format index timestamp previous body))
  unsealed-IsSealed index timestamp previous body line free written =
      let event = unsealed format index timestamp previous body in
      let hash = format.sha256 line in
      record {
        line = line;
        written =
            ap (λ z. format.canonical (object z))
              (del_field-put_field "event_sha256" (text hash) event
                (unsealed-IsPlaced index timestamp previous body free).open_hash)
            ∙ written;
        values = λ key.
            get_field-put_field "event_sha256" key (text hash) event
            ∙ elim (Bool-cases ("event_sha256" == key)) [
              | inl e ↦ rw e refl
              | inr e ↦
                  let q = get_field-unsealed index timestamp previous hash body key free e in
                  rw e (rw e at q)
            ];
      }
