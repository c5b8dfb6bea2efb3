-- ===== src/Campaign/Journal/Chain.antt =====
-- The last hash of a journal binds all of it: two journals with as many events and the same last hash have the
-- same events, or show at one place two events whose lines without the hash are different and have one hash.
use shapleymcg.Common.{
  ℕ, suc, ◌≡◌, ◌≢◌, refl, sym, ap, ap₂, ◌∙◌, String, true, false, Option, none, some, List, [], ◌∷◌,
  map, get_elem?, length, Keyed, ◌==◌, string_keys, arith, ◌⊎◌, inl, inr, Bool-cases,
}
use mathlib.Core.Bool.{false≢true}
use shapleymcg.Common.Json.{
  Numbers, Json, null, boolean, array, number, text, object, Fields, end, field, get_field,
  del_field, same_json,
}
use shapleymcg.Common.Result.{ok, ok_injective}
use shapleymcg.Campaign.Journal.{
  Format, File, zero_hash, has_value, read_lines, read_file, hash_of, last_hash,
}
use shapleymcg.Campaign.Journal.Laws.{ReadsBack}
use shapleymcg.Campaign.Journal.Line.{IsLine, check_line-IsLine}
use shapleymcg.Campaign.Journal.Append.{read_file_inv}
use shapleymcg.Campaign.Journal.Lines.{read_step}

module _ {N L : Type 0} ⦃n : Numbers N⦄ ⦃k : Keyed L⦄ (format : Format N L) where
  -- The events, each as it is written without its hash.
  abbrev pub bodies : List (Fields N) → List (Option L)
  bodies events =
      map (λ (e : Fields N). format.canonical (object (del_field "event_sha256" e))) events

  -- The events at one place of two journals are different without their hashes, and the hashes are equal.
  pub record Collision (events events' : List (Fields N)) : Type 0 where
    pub index : ℕ
    pub left : L
    pub right : L
    pub left_there : get_elem? (bodies events) index ≡ some (some left)
    pub right_there : get_elem? (bodies events') index ≡ some (some right)
    pub apart : left ≢ right
    pub same_hash : format.sha256 left ≡ format.sha256 right

  -- A collision of the events after the first.
  later-Collision :
      (events events' rest rest' : List (Fields N)) (f f' : Fields N)
      → events ≡ f ∷ rest
      → events' ≡ f' ∷ rest'
      → Collision rest rest'
      → Collision events events'
  later-Collision events events' rest rest' f f' s s' c = record {
    index = suc c.index;
    left = c.left;
    right = c.right;
    left_there = ap (λ es. get_elem? (bodies es) (suc c.index)) s ∙ c.left_there;
    right_there = ap (λ es. get_elem? (bodies es) (suc c.index)) s' ∙ c.right_there;
    apart = c.apart;
    same_hash = c.same_hash;
  }

  has_value_text :
      (v : Option (Json N)) (s : String) → has_value v (text s) ≡ true → v ≡ some (text s)
  unfolding same_json
  has_value_text none s h = cc
  has_value_text (some (text t)) s h = ap (λ z. some (text z)) ((string_keys.same_iff t s).0 h)
  has_value_text (some null) s h = cc
  has_value_text (some (boolean b)) s h = cc
  has_value_text (some (number x)) s h = cc
  has_value_text (some (array vs)) s h = cc
  has_value_text (some (object fs)) s h = cc

  get_field-del_field_ne :
      (key j : String) (fs : Fields N)
      → (key == j) ≡ false
      → get_field j (del_field key fs) ≡ get_field j fs
  get_field-del_field_ne key j end h = refl
  get_field-del_field_ne key j (field i v fs) h = ground (
    arith,
    h,
    string_keys.same_iff i key,
    string_keys.same_iff i j,
    string_keys.same_iff key j,
    get_field-del_field_ne key j fs h,
  )

  module _ (reads_back : ReadsBack format) where
    -- The hash that an event is bound to is read back from its body.
    previous_of_body :
        (index : ℕ) (previous : String) (raw : L) (fields : Fields N) (hash : String)
        → (line : IsLine format index previous raw fields hash)
        → (gs : Fields N) × (format.loads line.body ≡ some (object gs))
          × (get_field "previous_event_sha256" gs ≡ some (text previous))
    previous_of_body index previous raw fields hash line =
        let (gs, loaded, _, reads) =
          reads_back (del_field "event_sha256" fields) line.body line.body_written in
        (
          gs,
          loaded,
          reads.texts "previous_event_sha256" previous (
              get_field-del_field_ne "event_sha256" "previous_event_sha256" fields refl
              ∙ has_value_text (get_field "previous_event_sha256" fields) previous line.bound),
        )

    same_previous :
        (i j : ℕ) (p q : String) (raw raw' : L) (fields fields' : Fields N) (g g' : String)
        → (line : IsLine format i p raw fields g) → (line' : IsLine format j q raw' fields' g')
        → line.body ≡ line'.body
        → p ≡ q
    same_previous i j p q raw raw' fields fields' g g' line line' same =
        let (gs, loaded, at) = previous_of_body i p raw fields g line in
        let (gs', loaded', at') = previous_of_body j q raw' fields' g' line' in
        let both : ◌≡◌ {A = Option (Json N)} (some (object gs)) (some (object gs')) =
          sym loaded ∙ ap format.loads same ∙ loaded' in
        let equal : gs ≡ gs' = cc both in
        let texts : ◌≡◌ {A = Option (Json N)} (some (text p)) (some (text q)) =
          sym at ∙ ap (get_field "previous_event_sha256") equal ∙ at' in
        cc texts

    same_lines :
        (index : ℕ) (p q : String) (lines lines' : List L) (events events' : List (Fields N))
        → read_lines format index p lines ≡ ok events
        → read_lines format index q lines' ≡ ok events'
        → length lines ≡ length lines'
        → last_hash format p events ≡ last_hash format q events'
        → ((p ≡ q) × (bodies events ≡ bodies events')) ⊎ Collision events events'
    unfolding read_lines
    same_lines index p q [] [] events events' h h' e last =
        let nil : [] ≡ events = ok_injective h in
        let nil' : [] ≡ events' = ok_injective h' in
        inl (
          ap (last_hash format p) nil ∙ last ∙ ap (last_hash format q) (sym nil'),
          ap bodies (sym nil) ∙ ap bodies nil',
        )
    same_lines index p q [] (raw' ∷ lines') events events' h h' e last = absurd (omega (arith, e))
    same_lines index p q (raw ∷ lines) [] events events' h h' e last = absurd (omega (arith, e))
    same_lines index p q (raw ∷ lines) (raw' ∷ lines') events events' h h' e last =
        let (f, g, rest, c, r, s) = read_step format index p raw lines events h in
        let (f', g', rest', c', r', s') = read_step format index q raw' lines' events' h' in
        let line = check_line-IsLine format index p raw f g c in
        let line' = check_line-IsLine format index q raw' f' g' c' in
        let threaded : last_hash format p events ≡ last_hash format g rest =
          ap (last_hash format p) s
          ∙ ap (λ v. last_hash format (hash_of format v) rest) line.own_hash in
        let threaded' : last_hash format q events' ≡ last_hash format g' rest' =
          ap (last_hash format q) s'
          ∙ ap (λ v. last_hash format (hash_of format v) rest') line'.own_hash in
        elim (same_lines (suc index) g g' lines lines' rest rest' r r' (omega (arith, e))
          (sym threaded ∙ last ∙ threaded')) [
            | inr collision ↦ inr (later-Collision events events' rest rest' f f' s s' collision)
            | inl (same_hash, same_rest) ↦
                let one_hash = line.sealed ∙ same_hash ∙ sym line'.sealed in
                elim (Bool-cases (line.body == line'.body)) [
                  | inl q' ↦
                      let same : line.body ≡ line'.body = (k.same_iff line.body line'.body).0 q' in
                      inl (
                        same_previous index index p q raw raw' f f' g g' line line' same,
                        ap bodies s
                            ∙ ap₂ ◌∷◌ (line.body_written ∙ ap some same ∙ sym line'.body_written)
                                same_rest
                            ∙ ap bodies (sym s'),
                      )
                  | inr q' ↦ inr (record {
                    index = 0;
                    left_there = ap (λ es. get_elem? (bodies es) 0) s ∙ ap some line.body_written;
                    right_there =
                        ap (λ es. get_elem? (bodies es) 0) s' ∙ ap some line'.body_written;
                    left = line.body;
                    right = line'.body;
                    apart =
                        λ z. absurd (false≢true (sym q' ∙ (k.same_iff line.body line'.body).1 z));
                    same_hash = one_hash;
                  })
                ]
          ]

    -- Where a mapping that was written is read back: two journals that can be read, with as many lines and the
    -- same last hash, have the same events, as they are written without their hashes, or there is a place at
    -- which the two events are written differently without their hashes and those lines have one hash.
    pub last_hash_binds :
        (left right : File L) (events events' : List (Fields N))
        → read_file format left ≡ ok events
        → read_file format right ≡ ok events'
        → length left.lines ≡ length right.lines
        → last_hash format zero_hash events ≡ last_hash format zero_hash events'
        → (bodies events ≡ bodies events') ⊎ Collision events events'
    last_hash_binds left right events events' h h' e last =
        let (lines, _) = read_file_inv format left events h in
        let (lines', _) = read_file_inv format right events' h' in
        elim (same_lines 0 zero_hash zero_hash left.lines right.lines events events' lines lines' e
          last) [ inl (_, same) ↦ inl same | inr collision ↦ inr collision ]
