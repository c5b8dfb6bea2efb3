-- ===== src/Campaign/Journal/Line.antt =====
-- What a line is that passes the tests of `read`.
use shapleymcg.Common.{
  ℕ, ◌≡◌, sym, ap, ◌∙◌, subst, String, Bool, true, not, ◌||◌, Option, none, some, Keyed, ◌==◌,
  string_keys, arith,
}
use shapleymcg.Common.Json.{
  Numbers, Json, null, boolean, array, number, text, object, Fields, get_field, del_field,
  is_finite_json,
}
use shapleymcg.Common.Result.{or_raise, ok, raise_if, bind-eq-ok, raise_if-eq-ok, ok_injective}
use shapleymcg.Common.Texts.{is_sha256}
use shapleymcg.Campaign.Journal.{
  Format, journal_schema, check_line, require_hash, has_value, fields_of, invalid_event_hash,
  malformed, not_serializable, not_canonical, not_a_mapping, invalid_schema_or_index, chain_breaks,
  event_hash_mismatch, line_not_finite,
}

module _ {N L : Type 0} ⦃n : Numbers N⦄ ⦃k : Keyed L⦄ (format : Format N L) where
  -- the test on the schema and the index
  abbrev bad_place : ℕ → Fields N → Bool
  bad_place index fields =
      not (has_value (get_field "schema" fields) (text journal_schema))
      || not (has_value (get_field "event_index" fields) (number (n.of_nat index)))

  require_hash_text :
      {E : Type 0} (v : Option (Json N)) (e : E) {h : String}
      → require_hash v e ≡ ok h
      → v ≡ some (text h)
  require_hash_text none e q = absurd (cc)
  require_hash_text (some (text s)) e {h} q =
      let (_, _, p) = bind-eq-ok (raise_if (not (is_sha256 s)) e) (λ _. ok s) q in
      let same : s ≡ h = ok_injective p in ap (λ z. some (text z)) same
  require_hash_text (some null) e q = absurd (cc)
  require_hash_text (some (boolean b)) e q = absurd (cc)
  require_hash_text (some (number x)) e q = absurd (cc)
  require_hash_text (some (array vs)) e q = absurd (cc)
  require_hash_text (some (object fs)) e q = absurd (cc)

  -- What a line that passes the tests is.
  pub record IsLine (index : ℕ) (previous : String) (raw : L) (fields : Fields N) (hash : String)
      : Type 0 where
    pub loaded : format.loads raw ≡ some (object fields)
    pub written : format.canonical (object fields) ≡ some raw
    pub bound : has_value (get_field "previous_event_sha256" fields) (text previous) ≡ true
    pub own_hash : get_field "event_sha256" fields ≡ some (text hash)
    pub body : L
    pub body_written : format.canonical (object (del_field "event_sha256" fields)) ≡ some body
    pub sealed : format.sha256 body ≡ hash

  fields_of-eq-some : (v : Json N) {fs : Fields N} → fields_of v ≡ some fs → v ≡ object fs
  fields_of-eq-some (object gs) h = ap object (cc h)
  fields_of-eq-some null h = cc
  fields_of-eq-some (boolean b) h = cc
  fields_of-eq-some (number x) h = cc
  fields_of-eq-some (text s) h = cc
  fields_of-eq-some (array vs) h = cc

  or_raise-eq-ok {ℓ} :
      {E : Type 0} {A : Type ℓ} (o : Option A) (e : E) {a : A} → or_raise o e ≡ ok a → o ≡ some a
  or_raise-eq-ok none e h = absurd (cc)
  or_raise-eq-ok (some b) e h = ap some (ok_injective h)

  pub check_line-IsLine :
      (index : ℕ) (previous : String) (raw : L) (fields : Fields N) (hash : String)
      → check_line format index previous raw ≡ ok (fields, hash)
      → IsLine index previous raw fields hash
  unfolding check_line
  check_line-IsLine index previous raw fields hash h =
      let (event, p0, h0) =
        bind-eq-ok (or_raise (format.loads raw) (malformed index)) _ {b = (fields, hash)} h in
      let (line, p1, h1) =
        bind-eq-ok (or_raise (format.canonical event) not_serializable) _ {b = (fields, hash)} h0 in
      let (_, p2, h2) =
        bind-eq-ok (raise_if (not (line == raw)) (not_canonical index)) _ {b = (fields, hash)} h1 in
      let (fs, p3, h3) =
        bind-eq-ok (or_raise (fields_of event) (not_a_mapping index)) _ {b = (fields, hash)} h2 in
      let (_, p4, h4) =
        bind-eq-ok (raise_if (bad_place index fs) (invalid_schema_or_index index)) _
          {b = (fields, hash)} h3 in
      let (_, p5, h5) =
        bind-eq-ok
          (raise_if (not (has_value (get_field "previous_event_sha256" fs) (text previous)))
            (chain_breaks index))
          _ {b = (fields, hash)} h4 in
      let (expected, p6, h6) =
        bind-eq-ok (require_hash (get_field "event_sha256" fs) (invalid_event_hash index)) _
          {b = (fields, hash)} h5 in
      let (body, p7, h7) =
        bind-eq-ok
          (or_raise (format.canonical (object (del_field "event_sha256" fs))) not_serializable) _
          {b = (fields, hash)} h6 in
      let (_, p8, h8) =
        bind-eq-ok (raise_if (not (format.sha256 body == expected)) (event_hash_mismatch index)) _
          {b = (fields, hash)} h7 in
      let (_, _, h9) =
        bind-eq-ok (raise_if (not (is_finite_json (object fs))) (line_not_finite index)) _
          {b = (fields, hash)} h8 in
      let pair : ◌≡◌ {A = Fields N × String} (fs, expected) (fields, hash) = ok_injective h9 in
      let same_fields : fs ≡ fields = ap (λ (z : Fields N × String). z.0) pair in
      let same_hash : expected ≡ hash = ap (λ (z : Fields N × String). z.1) pair in
      let is_object : event ≡ object fields =
        fields_of-eq-some event (or_raise-eq-ok (fields_of event) (not_a_mapping index) p3)
        ∙ ap object same_fields in
      let same_line : line ≡ raw =
        (k.same_iff line raw).0
          (ground (arith, raise_if-eq-ok (not (line == raw)) (not_canonical index) p2)) in
      let sealed = (string_keys.same_iff (format.sha256 body) expected).0 (
        ground (
          arith,
          raise_if-eq-ok (not (format.sha256 body == expected)) (event_hash_mismatch index) p8,
        )) in
      let chained =
        raise_if-eq-ok (not (has_value (get_field "previous_event_sha256" fs) (text previous)))
          (chain_breaks index) p5 in
      record {
        loaded = or_raise-eq-ok (format.loads raw) (malformed index) p0 ∙ ap some is_object;
        written =
            ap format.canonical (sym is_object)
            ∙ or_raise-eq-ok (format.canonical event) not_serializable p1
            ∙ ap some same_line;
        bound =
            subst (λ z. has_value (get_field "previous_event_sha256" z) (text previous) ≡ true)
              same_fields (ground (arith, chained));
        own_hash =
            ap (get_field "event_sha256") (sym same_fields)
            ∙ require_hash_text (get_field "event_sha256" fs) (invalid_event_hash index) p6
            ∙ ap (λ z. some (text z)) same_hash;
        body = body;
        body_written =
            ap (λ z. format.canonical (object (del_field "event_sha256" z))) (sym same_fields)
            ∙ or_raise-eq-ok (format.canonical (object (del_field "event_sha256" fs)))
                not_serializable p7;
        sealed = sealed ∙ same_hash;
      }
