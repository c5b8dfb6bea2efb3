-- ===== src/Campaign/Replay/Refines.antt =====
-- The handlers of `_replay` move the state machine of a campaign, or report a failure.
pub mod Runs
pub mod Decisions
pub mod Generations
pub mod Events
pub mod Steps
use shapleymcg.Common.{
  ℕ, suc, ◌≡◌, refl, sym, ap, ◌∙◌, subst, String, Bool, true, false, not, ◌&&◌, ◌||◌, Option, none,
  some, List, [], ◌∷◌, ◌++◌, map, arith, Bool-cases, Option-cases, ◌⊎◌, inl, inr, if◌then◌else◌,
  string_keys, ◌==◌,
}
use mathlib.Core.Bool.{false≢true}
use shapleymcg.Common.Json.{
  Numbers, Json, Fields, get_or_null, get_default, as_mapping, object, text,
}
use shapleymcg.Common.Result.{map_all, Result, ok, err, ◌>>=◌, bind-eq-ok, ok_injective}
use shapleymcg.Campaign.Files.{RunnerError, Entry, retired_entry}
use shapleymcg.Campaign.Gates.{Plan, Artifact}
use shapleymcg.Campaign.Replay.{
  State, Context, Failure, Attempt, failure_if, flag, flag_event, differs, text_of,
}
use shapleymcg.Campaign.Replay.Notices.{replay_recovery, replay_preflight, report_differs}
use shapleymcg.Campaign.Replay.Retirement.{
  replay_retirement, replay_retirement_completed, see_completion, see_files, some_exist,
  replay_retirement_rows, replay_found, find_retirement, Retirement,
}
use shapleymcg.Campaign.Replay.Machine.{Machine, machine_of}

pub clean_append :
    {N : Type 0} (xs : List (Failure N)) (b : Bool) (f : Failure N)
    → xs ++ failure_if b f ≡ []
    → (b ≡ false) × (xs ≡ [])
clean_append [] true f h = absurd (cc)
clean_append [] false f h = (refl, refl)
clean_append (x ∷ xs) b f h = absurd (cc)

module _ {N : Type 0} ⦃n : Numbers N⦄ where
  -- A step that adds failures only: it leaves none where there were some, and the machine stays as it is.
  pub record Keeps (s t : State N) : Type 0 where
    pub clean : t.failures ≡ [] → s.failures ≡ []
    pub same : machine_of t ≡ machine_of s

  pub Keeps-refl : (s : State N) → Keeps s s
  Keeps-refl s = record { clean = λ h. h; same = refl }

  pub Keeps-trans : {s t u : State N} → Keeps s t → Keeps t u → Keeps s u
  Keeps-trans p q = record { clean = λ h. p.clean (q.clean h); same = q.same ∙ p.same }

  pub flag_clean :
      (b : Bool) (f : Failure N) (s : State N)
      → (flag b f s).failures ≡ []
      → (b ≡ false) × (s.failures ≡ [])
  flag_clean b f s h = clean_append s.failures b f h

  pub flag-Keeps : (b : Bool) (f : Failure N) (s : State N) → Keeps s (flag b f s)
  flag-Keeps b f s = record { clean = λ h. (flag_clean b f s h).1; same = refl }

module _ {N : Type 0} ⦃n : Numbers N⦄ where
  -- A failure that was added is there.
  pub refused :
      {E : Type 0} (f : Failure N) (s : State N) {t : State N}
      → ◌≡◌ {A = Result E (State N)} (ok (flag true f s)) (ok t)
      → t.failures ≡ []
      → ⊥
  refused f s {t} h e = absurd (
      false≢true
        (sym (flag_clean true f s (ap (λ (z : State N). z.failures) (ok_injective h) ∙ e)).0))

module _ {N L P : Type 0} ⦃n : Numbers N⦄ (context : Context N L P) where
  pub replay_recovery-Keeps :
      (event : Fields N) (s : State N) → Keeps s (replay_recovery context event s)
  unfolding replay_recovery
  replay_recovery-Keeps event s = flag-Keeps _ _ s

  pub replay_preflight-Keeps :
      (passed : Bool) (event : Fields N) (s t : State N)
      → replay_preflight context passed event s ≡ ok t
      → Keeps s t
  unfolding replay_preflight
  replay_preflight-Keeps false event s t h =
      subst (Keeps s) (ok_injective h) (Keeps-trans (flag-Keeps _ _ s) (flag-Keeps _ _ _))
  replay_preflight-Keeps true event s t h =
      let (different, _, q) = bind-eq-ok (report_differs context event) _ {b = t} h in
      subst (Keeps s) (ok_injective q)
        (Keeps-trans (flag-Keeps _ _ s) (Keeps-trans (flag-Keeps _ _ _) (flag-Keeps _ _ _)))

  see_completion-Keeps :
      (event : Fields N) (o : Option String) (s : State N)
      → Keeps s (see_completion context event o s)
  unfolding see_completion
  see_completion-Keeps event none s = Keeps-refl s
  see_completion-Keeps event (some hash) s = record {
    clean = λ h. (flag_clean _ _ s h).1;
    same = refl;
  }

  see_files-Keeps :
      (event : Fields N) (r : Result RunnerError Bool) (s : State N)
      → Keeps s (see_files context event r s)
  see_files-Keeps event (ok there) s = flag-Keeps there _ s
  see_files-Keeps event (err e) s = flag-Keeps true _ s

  replay_retirement_completed-Keeps :
      (event : Fields N) (attempt : Attempt) (id : String) (producer : Artifact)
      (details : Fields N) (files : List (Json N)) (rows : List (Entry N)) (s : State N)
      → Keeps s (replay_retirement_completed context event attempt id producer details files rows s)
  unfolding replay_retirement_completed
  replay_retirement_completed-Keeps event attempt id producer details files rows s =
      Keeps-trans (flag-Keeps _ _ s) (
        Keeps-trans
          (see_completion-Keeps event (text_of (get_or_null "planned_event_sha256" details)) _)
          (Keeps-trans (flag-Keeps _ _ _)
            (see_files-Keeps event (some_exist context producer rows) _)))

  replay_retirement_rows-Keeps :
      (is_completion : Bool) (event : Fields N) (attempt : Attempt) (found : Retirement N)
      (rows : Result RunnerError (List (Entry N))) (s : State N)
      → Keeps s (replay_retirement_rows context is_completion event attempt found rows s)
  unfolding replay_retirement_rows
  replay_retirement_rows-Keeps b event attempt found (err e) s = flag-Keeps true _ s
  replay_retirement_rows-Keeps false event attempt found (ok rows) s =
      Keeps-trans (flag-Keeps _ _ s) (Keeps-trans (flag-Keeps _ _ _) (flag-Keeps _ _ _))
  replay_retirement_rows-Keeps true event attempt found (ok rows) s =
      Keeps-trans (flag-Keeps _ _ s) (
        Keeps-trans (flag-Keeps _ _ _) (
          replay_retirement_completed-Keeps event attempt found.producer_id found.producer
            found.details found.files rows _))

  replay_found-Keeps :
      (is_completion : Bool) (event : Fields N) (attempt : Attempt)
      (found : Result String (Retirement N)) (s : State N)
      → Keeps s (replay_found context is_completion event attempt found s)
  unfolding replay_found
  replay_found-Keeps b event attempt (err what) s = flag-Keeps true _ s
  replay_found-Keeps b event attempt (ok found) s =
      replay_retirement_rows-Keeps b event attempt found
        (map_all (retired_entry context.system) found.files) s

  pub replay_retirement-Keeps :
      (is_completion : Bool) (event : Fields N) (attempt : Attempt) (s : State N)
      → Keeps s (replay_retirement context is_completion event attempt s)
  unfolding replay_retirement
  replay_retirement-Keeps b event attempt s =
      replay_found-Keeps b event attempt (find_retirement context event s) s
