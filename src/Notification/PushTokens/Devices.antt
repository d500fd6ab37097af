-- ===== src/Notification/PushTokens/Devices.antt =====
-- A device of a user has at most one row, and it holds the token that was registered last.
use thiam_api.Exec.Faults.{scan_rows_all, Yields, NoFaults}
use thiam_api.Exec.{◌>>◌, World, call_if, call, Env}
use thiam_api.Exec.Preserves.{preserving, Preserves}
use thiam_api.Notification.PushTokens.{
  token_id, stamp_token, tokens_by_user_id, store_token, delete_token, delete_by_user_id,
  same_device, upsert_token, has_device,
}
use thiam_api.Base.{
  ◌||◌, ◌==◌, str_eq, not, ℕ, select, Bool, String, map, ◌+◌, ◌≤◌, ◌≡◌, refl, true, false, List, [],
  ◌∷◌, arith, if◌then◌else◌, eq_iff, count,
}
use thiam_api.Notification.{taken, PushToken, Tables}

-- The unique constraint on (user_id, device_id).
abbrev pub UniqueDevices : Tables → Type 0
UniqueDevices s = (t : PushToken) → count (same_device t) s.push_tokens ≤ 1

same_device_sym : (s t : PushToken) → same_device s t ≡ same_device t s
same_device_sym s t = ground (arith, eq_iff s.device_id t.device_id, eq_iff t.device_id s.device_id)

count-same_device :
    (s t : PushToken) (rows : List PushToken)
    → same_device s t ≡ true
    → has_device t rows ≡ false
    → count (same_device s) rows ≡ 0
count-same_device s t [] h k = refl
count-same_device s t (r ∷ rows) h k = ground (
  arith,
  count-same_device s t rows,
  eq_iff t.device_id s.device_id,
  eq_iff r.device_id t.device_id,
  eq_iff r.device_id s.device_id,
)

count-upsert_token :
    (s t : PushToken) (rows : List PushToken)
    → count (same_device s) (upsert_token t rows)
      ≡ count (same_device s) rows
        + (if has_device t rows then 0 else if same_device s t then 1 else 0)
unfolding upsert_token
count-upsert_token s t [] = ground arith
count-upsert_token s t (r ∷ rows) = ground (arith, count-upsert_token s t rows)

count-select_le :
    (p q : PushToken → Bool) (rows : List PushToken) → count p (select q rows) ≤ count p rows
count-select_le p q [] = omega arith
count-select_le p q (r ∷ rows) = ground (arith, count-select_le p q rows)

upsert_token-UniqueDevices :
    (t s : PushToken) (rows : List PushToken)
    → count (same_device s) rows ≤ 1
    → count (same_device s) (upsert_token t rows) ≤ 1
upsert_token-UniqueDevices t s rows u =
    ground (arith, count-upsert_token s t rows, count-same_device s t rows)

upsert_keeps :
    (t : PushToken) (s : Tables)
    → UniqueDevices s
    → UniqueDevices (record s { push_tokens = upsert_token t s.push_tokens })
upsert_keeps t s u v = upsert_token-UniqueDevices t v s.push_tokens (u v)

delete_keeps :
    (p : PushToken → Bool) (s : Tables)
    → UniqueDevices s
    → UniqueDevices (record s { push_tokens = select p s.push_tokens })
delete_keeps p s u v = omega (arith, u v, count-select_le (same_device v) p s.push_tokens)

module _ (env : Env) where
  -- Whatever calls fail, no operation that writes push tokens (registering one, deleting one,
  -- deleting those of a user) leaves two rows for the same device of a user, if there were none.
  pub push_tokens-UniqueDevices :
      (t : PushToken) (text : String) (user : ℕ)
      → Preserves UniqueDevices (store_token env t)
        × Preserves UniqueDevices (delete_token env text)
        × Preserves UniqueDevices (delete_by_user_id env user)
  unfolding store_token delete_token delete_by_user_id
  push_tokens-UniqueDevices t text user = (
    search (preserving, upsert_keeps),
    search (preserving, delete_keeps (λ r. not (str_eq r.token text))),
    search (preserving, delete_keeps (λ r. not (r.user_id == user))),
  )

-- What the list of tokens says of a device after it was registered.
abbrev pub texts_of : PushToken → List PushToken → List String
texts_of t ts = map (λ r. r.token) (select (same_device t) ts)

texts_of-none :
    (t : PushToken) (rows : List PushToken)
    → count (same_device t) rows ≡ 0
    → texts_of t (select (λ r. r.user_id == t.user_id) rows) ≡ []
texts_of-none t [] h = refl
texts_of-none t (r ∷ rows) h = ground (arith, texts_of-none t rows)

texts_of-upsert_token :
    (t : PushToken) (rows : List PushToken)
    → count (same_device t) rows ≤ 1
    → texts_of t (select (λ r. r.user_id == t.user_id) (upsert_token t rows)) ≡ t.token ∷ []
unfolding upsert_token
texts_of-upsert_token t [] h = ground (arith, eq_iff t.device_id t.device_id)
texts_of-upsert_token t (r ∷ rows) h =
    ground (arith, texts_of-upsert_token t rows, texts_of-none t rows)

module _ (env : Env) (faultless : NoFaults env) where
  -- Without faults, after a token was registered whose device has a row already or whose id is not
  -- in the table, the tokens of the user are listed, and the only one among them for that device is
  -- the new token, if the device had at most one row before.
  pub tokens_by_user_id-store_token :
      (t : PushToken) (w : World Tables)
      → UniqueDevices w.state
      → (has_device t w.state.push_tokens
          || not (
              taken token_id
                (stamp_token (env.fresh w.calls) (env.now w.calls) t).id
                w.state.push_tokens))
        ≡ true
      → Yields
          (λ ts. texts_of t ts ≡ t.token ∷ [])
          ((store_token env t >> tokens_by_user_id env t.user_id) w).0
  unfolding store_token tokens_by_user_id call call_if stamp_token
  tokens_by_user_id-store_token t w u fits = ground (
    arith,
    faultless w.calls,
    faultless (w.calls + 1),
    faultless (w.calls + 1 + 1),
    scan_rows_all env "PushTokenRepo - GetByUserID - rows.Scan: "
        (select (λ r. r.user_id == t.user_id)
          (upsert_token (stamp_token (env.fresh w.calls) (env.now w.calls) t) w.state.push_tokens))
        (record {
          calls = w.calls + 1 + 1 + 1;
          state = record w.state {
            push_tokens =
                upsert_token (stamp_token (env.fresh w.calls) (env.now w.calls) t)
                  w.state.push_tokens;
          };
        })
        faultless,
    texts_of-upsert_token (stamp_token (env.fresh w.calls) (env.now w.calls) t) w.state.push_tokens
        (u (stamp_token (env.fresh w.calls) (env.now w.calls) t)),
  )
