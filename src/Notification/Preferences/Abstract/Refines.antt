-- ===== src/Notification/Preferences/Abstract/Refines.antt =====
-- What the use case does is what the map does.
use thiam_api.Notification.UseCases.{preferences_get, preferences_update}
use thiam_api.Errors.{wrap, errors_is, Error}
use thiam_api.Base.{
  none, some, refl, Bool, true, false, String, if◌then◌else◌, Option, [], ◌∷◌, List, arith, ◌+◌, ℕ,
  subst, sym, ◌≡◌,
}
use thiam_api.Exec.{
  Env, World, Result, ok, err, Outcome, done, refused, lost, fault, settle, call, call_if, fail,
  pure, wrapping, gets, ◌>>=◌, ◌>>◌,
}
use thiam_api.Notification.Preferences.Abstract.{
  Answer, saved, loaded, saves, fails_after, fails_before, loads, misses, fails, Do, nothing, first,
  view, put, perform, perform_all, IsOther, NoSentinels, Does, save, load, Preferences, Operation,
}
use thiam_api.Notification.Inbox.{row_or, no_rows_as}
use thiam_api.Notification.{UserPreferences, Tables}
use thiam_api.Notification.Preferences.{
  get_preferences, upsert, preferences_not_found, upsert_row, saved_row, are_times,
}
use thiam_api.Notification.Preferences.RoundTrip.{find-upsert_row}

abbrev upserted : UserPreferences → Tables → Tables
upserted p s = record s { preferences = upsert_row p s.preferences }

view-upserted : (p : UserPreferences) (s : Tables) → put p (view s) ≡ view (upserted p s)
unfolding upsert_row
view-upserted p s = sym (λ i user. find-upsert_row p user s.preferences i)

module _ (env : Env) (time_of : String → Option String) where
  Does-put :
      (o : Operation) (r : Result Answer) (m : Preferences) (p : UserPreferences) (s : Tables)
      → Does time_of m o r (put p (view s))
      → Does time_of m o r (view (upserted p s))
  Does-put o r m p s d = subst (Does time_of m o r) (view-upserted p s) d

  -- What an operation did, by its result and the tables that it left.
  abbrev Did : Preferences → Operation → Result Answer × World Tables → Type 0
  Did m o x = Does time_of m o x.0 (view x.1.state)

  -- A save whose statement came to `o`, by whether its quiet hours are times.
  abbrev saving : Bool → UserPreferences → Outcome → World Tables → Result Answer × World Tables
  saving fits p o w =
      (wrapping "PreferencesUseCase - Update - uc.repo.Upsert: " (
            wrapping "NotificationPreferencesRepo - Upsert - r.Pool.Exec: " (λ v.
              if fits
              then settle env o (upserted (saved_row time_of (env.now w.calls) p)) v
              else (settle env o (λ s. s) >> fail env.violation) v))
          >> pure saved)
        w

  Does-saving :
      (fits : Bool) (p : UserPreferences) (o : Outcome) (w : World Tables)
      → are_times time_of p ≡ fits
      → Did (view w.state) (save p) (saving fits p o w)
  Does-saving true p done w h = Does-put (save p) _ _ _ w.state (saves p (env.now w.calls) h)
  Does-saving true p (refused e) w h = fails_before p _
  Does-saving true p (lost e) w h =
      Does-put (save p) _ _ _ w.state (fails_after p (env.now w.calls) _ h)
  Does-saving false p done w h = fails_before p _
  Does-saving false p (refused e) w h = fails_before p _
  Does-saving false p (lost e) w h = fails_before p _

  -- The query of a load, of which the driver made `o`.
  abbrev querying : ℕ → Outcome → World Tables → Result Answer × World Tables
  querying user o w =
      (do
        p ← wrapping "PreferencesUseCase - Get - uc.repo.Get: " (
            no_rows_as preferences_not_found "NotificationPreferencesRepo - Get - r.Pool.QueryRow: "
              (settle env o (λ s. s) >> (gets (λ v. view v.state user) >>= row_or)))
        pure (loaded p))
        w

  querying-failed :
      (user : ℕ) (e : Error) (w : World Tables)
      → errors_is e 10 ≡ false
      → (querying user (refused e) w ≡ (
        err (
            wrap "PreferencesUseCase - Get - uc.repo.Get: " ""
              (wrap "NotificationPreferencesRepo - Get - r.Pool.QueryRow: " "" e)),
        record { calls = w.calls + 1; state = w.state },
      ))
        × (querying user (lost e) w ≡ querying user (refused e) w)
  querying-failed user e w h = ground (arith, h)

  Does-failed :
      (user : ℕ) (e : Error) (w : World Tables)
      → IsOther (some e)
      → Did (view w.state) (load user) (querying user (refused e) w)
  unfolding errors_is
  Does-failed user e w h =
      subst (Did (view w.state) (load user)) (sym (querying-failed user e w h.0).0)
        (fails user _ h.1)

  found_as : Option UserPreferences → World Tables → Result Answer × World Tables
  found_as none w =
      (err (wrap "PreferencesUseCase - Get - uc.repo.Get: " "" preferences_not_found), w)
  found_as (some p) w = (ok (loaded p), w)

  Does-found :
      (user : ℕ) (w : World Tables) (n : ℕ) (found : Option UserPreferences)
      → view w.state user ≡ found
      → Did (view w.state) (load user) (found_as found (record { calls = n; state = w.state }))
  unfolding found_as errors_is
  Does-found user w n none f = misses user _ f refl
  Does-found user w n (some p) f = loads user p f

  querying-done :
      (user : ℕ) (w : World Tables)
      → querying user done w
        ≡ found_as (view w.state user) (record { calls = w.calls + 1; state = w.state })
  unfolding found_as errors_is
  querying-done user w = ground arith

  Does-querying :
      (user : ℕ) (o : Outcome) (w : World Tables)
      → IsOther (fault o)
      → Did (view w.state) (load user) (querying user o w)
  Does-querying user done w h =
      subst (Did (view w.state) (load user)) (sym (querying-done user w))
        (Does-found user w (w.calls + 1) (view w.state user) refl)
  Does-querying user (refused e) w h = Does-failed user e w h
  Does-querying user (lost e) w h =
      subst (Did (view w.state) (load user)) (sym (querying-failed user e w h.0).1)
        (Does-failed user e w h)

  -- A load, of whose first call the builder made `o`.
  abbrev loading : ℕ → Outcome → World Tables → Result Answer × World Tables
  loading user o w =
      (do
        p ← wrapping "PreferencesUseCase - Get - uc.repo.Get: " (
            wrapping "NotificationPreferencesRepo - Get - r.Builder: " (settle env o (λ s. s))
            >> no_rows_as preferences_not_found
                "NotificationPreferencesRepo - Get - r.Pool.QueryRow: "
                (λ v.
                  (settle env (env.outcome v.calls) (λ s. s)
                      >> (gets (λ v. view v.state user) >>= row_or))
                    v))
        pure (loaded p))
        w

  Does-loading :
      (user : ℕ) (o : Outcome) (w : World Tables)
      → IsOther (fault o)
      → NoSentinels env
      → Did (view w.state) (load user) (loading user o w)
  unfolding errors_is
  Does-loading user done w h other =
      Does-querying user (env.outcome (w.calls + 1))
        (record { calls = w.calls + 1; state = w.state }) (other (w.calls + 1))
  Does-loading user (refused e) w h other = fails user _ h.1
  Does-loading user (lost e) w h other = fails user _ h.1

  Does-perform :
      (o : Operation) (w : World Tables)
      → NoSentinels env
      → Did (view w.state) o (perform env time_of o w)
  unfolding perform preferences_update upsert preferences_get get_preferences call call_if
  Does-perform (save p) w other = Does-saving (are_times time_of p) p (env.outcome w.calls) w refl
  Does-perform (load user) w other = Does-loading user (env.outcome w.calls) w (other w.calls) other

  -- Whatever calls fail, and whatever rows there are, any sequence of saves and loads does to the
  -- preferences what it may do to a map from users to preferences, with the same results: what is
  -- loaded is what was saved last, with its quiet hours as the TIME columns give them back, and hours that
  -- are no times are not saved; where a save that failed may have been made or not, and the error
  -- of a load says that there are no preferences only if there are none. The sentinel errors of the
  -- repository and of pgx are not among those with which calls fail.
  pub perform_all-Do :
      (os : List Operation) (w : World Tables)
      → NoSentinels env
      → Do time_of
          (view w.state)
          os
          (perform_all env time_of os w).0
          (view (perform_all env time_of os w).1.state)
  unfolding perform_all
  perform_all-Do [] w other = nothing
  perform_all-Do (o ∷ os) w other =
      first (Does-perform o w other) (perform_all-Do os (perform env time_of o w).1 other)
