-- ===== src/Notification/UseCases.antt =====
-- internal/usecase/notification/inapp.go, preferences.go and push_token.go: each operation passes to
-- its repository and wraps its error.
pub mod Missing
use thiam_api.Base.{Option, ℕ, List, String}
use thiam_api.Exec.{Env, Exec, wrapping}
use thiam_api.Notification.{InAppNotification, UserPreferences, PushToken, Tables}
use thiam_api.Notification.Inbox.{
  store, get_by_id, get_by_user_id, mark_as_read, mark_all_as_read, get_unread_count,
}
use thiam_api.Notification.Preferences.{get_preferences, upsert}
use thiam_api.Notification.PushTokens.{
  store_token, tokens_by_user_id, delete_token, delete_by_user_id,
}

module _ (env : Env) where
  -- `InAppUseCase`
  unfoldable pub create : InAppNotification → Exec Tables (Unit {0})
  unfolding store
  create n = wrapping "InAppUseCase - Create - uc.repo.Store: " (store env n)

  unfoldable pub inbox_get : ℕ → Exec Tables InAppNotification
  unfolding get_by_id
  inbox_get id = wrapping "InAppUseCase - GetByID - uc.repo.GetByID: " (get_by_id env id)

  unfoldable pub inbox_list :
      (ℕ → List InAppNotification → List InAppNotification)
      → ℕ
      → ℕ
      → ℕ
      → Exec Tables (List InAppNotification)
  unfolding get_by_user_id
  inbox_list order user limit offset =
      wrapping "InAppUseCase - GetByUserID - uc.repo.GetByUserID: "
        (get_by_user_id env order user limit offset)

  unfoldable pub inbox_mark_as_read : ℕ → Exec Tables (Unit {0})
  unfolding mark_as_read
  inbox_mark_as_read id =
      wrapping "InAppUseCase - MarkAsRead - uc.repo.MarkAsRead: " (mark_as_read env id)

  unfoldable pub inbox_mark_all_as_read : ℕ → Exec Tables (Unit {0})
  unfolding mark_all_as_read
  inbox_mark_all_as_read user =
      wrapping "InAppUseCase - MarkAllAsRead - uc.repo.MarkAllAsRead: " (mark_all_as_read env user)

  unfoldable pub inbox_unread_count : ℕ → Exec Tables ℕ
  unfolding get_unread_count
  inbox_unread_count user =
      wrapping "InAppUseCase - GetUnreadCount - uc.repo.GetUnreadCount: "
        (get_unread_count env user)

  -- `PreferencesUseCase`
  unfoldable pub preferences_get : ℕ → Exec Tables UserPreferences
  unfolding get_preferences
  preferences_get user =
      wrapping "PreferencesUseCase - Get - uc.repo.Get: " (get_preferences env user)

  unfoldable pub preferences_update :
      (String → Option String) → UserPreferences → Exec Tables (Unit {0})
  unfolding upsert
  preferences_update time_of prefs =
      wrapping "PreferencesUseCase - Update - uc.repo.Upsert: " (upsert env time_of prefs)

  -- `PushTokenUseCase`
  unfoldable pub register : PushToken → Exec Tables (Unit {0})
  unfolding store_token
  register token = wrapping "PushTokenUseCase - Register - uc.repo.Store: " (store_token env token)

  unfoldable pub tokens_get : ℕ → Exec Tables (List PushToken)
  unfolding tokens_by_user_id
  tokens_get user =
      wrapping "PushTokenUseCase - GetByUserID - uc.repo.GetByUserID: " (tokens_by_user_id env user)

  unfoldable pub unregister : String → Exec Tables (Unit {0})
  unfolding delete_token
  unregister token =
      wrapping "PushTokenUseCase - Unregister - uc.repo.Delete: " (delete_token env token)

  unfoldable pub unregister_all : ℕ → Exec Tables (Unit {0})
  unfolding delete_by_user_id
  unregister_all user =
      wrapping "PushTokenUseCase - UnregisterAll - uc.repo.DeleteByUserID: "
        (delete_by_user_id env user)
