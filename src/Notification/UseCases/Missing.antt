-- ===== src/Notification/UseCases/Missing.antt =====
-- What a caller of the use cases, and of the HTTP layer, sees of a row that is missing.
use thiam_api.Notification.Preferences.{preferences_not_found, get_preferences, owner}
use thiam_api.Errors.{Error, errors_as, unknown, wrap, errors_is}
use thiam_api.Http.{error_response}
use thiam_api.AppError.{get_kind, as_app_error}
use thiam_api.Base.{refl, true, ap, ◌≡◌, none, ℕ, ◌+◌}
use thiam_api.Exec.{Env, World, err, call}
use thiam_api.Exec.Faults.{NoFaults}
use thiam_api.Notification.{Tables, find}
use thiam_api.Notification.Inbox.{notification_id, notification_not_found, get_by_id}
use thiam_api.Notification.UseCases.{preferences_get, inbox_get}

module _ (env : Env) where
  inbox_get_missing :
      NoFaults env
      → (id : ℕ) (w : World Tables) → find notification_id id w.state.notifications ≡ none
      → inbox_get env id w ≡ (
        err (wrap "InAppUseCase - GetByID - uc.repo.GetByID: " "" notification_not_found),
        record w { calls = w.calls + 1 + 1 },
      )
  unfolding inbox_get get_by_id call errors_is
  inbox_get_missing f id w h = rw (f w.calls, f (w.calls + 1), h)

  preferences_get_missing :
      NoFaults env
      → (user : ℕ) (w : World Tables) → find owner user w.state.preferences ≡ none
      → preferences_get env user w ≡ (
        err (wrap "PreferencesUseCase - Get - uc.repo.Get: " "" preferences_not_found),
        record w { calls = w.calls + 1 + 1 },
      )
  unfolding preferences_get get_preferences call errors_is
  preferences_get_missing f user w h = rw (f w.calls, f (w.calls + 1), h)

  -- Without faults, a notification and preferences that are not there make the use cases return an
  -- error for which `errors.Is` finds the repository's own error, and change nothing; since that is no
  -- application error, its kind is unknown and the HTTP answer to it is 500, not 404.
  pub missing_answer :
      NoFaults env
      → (id user : ℕ) (w : World Tables) → find notification_id id w.state.notifications ≡ none
      → find owner user w.state.preferences ≡ none
      → ((e : Error) × ((inbox_get env id w).0 ≡ err e)
          × (errors_is e 11 ≡ true)
          × (get_kind e ≡ unknown)
          × ((error_response e).status ≡ 500))
        × ((e : Error) × ((preferences_get env user w).0 ≡ err e)
            × (errors_is e 12 ≡ true)
            × (get_kind e ≡ unknown)
            × ((error_response e).status ≡ 500))
        × ((inbox_get env id w).1.state ≡ w.state)
        × ((preferences_get env user w).1.state ≡ w.state)
  unfolding errors_is get_kind error_response as_app_error errors_as
  missing_answer f id user w h k =
      let i = inbox_get_missing f id w h in
      let p = preferences_get_missing f user w k in
      (
        (_, ap (λ x. x.0) i, refl, refl, refl),
        (_, ap (λ x. x.0) p, refl, refl, refl),
        ap (λ x. x.1.state) i,
        ap (λ x. x.1.state) p,
      )
