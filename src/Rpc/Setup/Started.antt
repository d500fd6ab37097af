-- ===== src/Rpc/Setup/Started.antt =====
-- What `New` leaves for the goroutine and for `Shutdown`.
use thiam_api.Rpc.Lifecycle.Finish.{shutdown-CanEnd, CanEnd, HasEnded}
use thiam_api.Rpc.Lifecycle.Sound.{attempt_connect-connection, has_given_up}
use thiam_api.Exec.{Env, World, Result, ok, err, panics, pure, wrapping, ◌>>◌}
use thiam_api.Rpc.Lifecycle.{new_runner, Reach, Runner}
use thiam_api.Base.{not, suc, ℕ, Bool, refl, arith, ap, sym, ◌∙◌, ◌≡◌, List, [], ◌∷◌, String}
use thiam_api.Base.Int.{pos, ℤ}
use thiam_api.Rpc.Connection.{attempt_connect, Link}
use thiam_api.Rpc.Setup.{
  new_rpc_server, default_rpc, RpcSettings, RpcOption, with_timeout, with_conn_wait_time,
  with_conn_attempts, set_rpc_option, set_rpc_options,
}

-- The attempts that were asked for last, or `d`.
abbrev pub last_attempts : ℤ → List RpcOption → ℤ
last_attempts d [] = d
last_attempts d (with_timeout n ∷ os) = last_attempts d os
last_attempts d (with_conn_wait_time n ∷ os) = last_attempts d os
last_attempts d (with_conn_attempts n ∷ os) = last_attempts n os

attempts-set_rpc_options :
    (os : List RpcOption) (s : RpcSettings)
    → (set_rpc_options os s).attempts ≡ last_attempts s.attempts os
unfolding set_rpc_options set_rpc_option
attempts-set_rpc_options [] s = refl
attempts-set_rpc_options (with_timeout n ∷ os) s = attempts-set_rpc_options os _
attempts-set_rpc_options (with_conn_wait_time n ∷ os) s = attempts-set_rpc_options os _
attempts-set_rpc_options (with_conn_attempts n ∷ os) s = attempts-set_rpc_options os _

-- What `connect_with` makes of the result of connecting.
abbrev with_settings :
    String → RpcSettings → Result (Unit {0}) × World Link → Result RpcSettings × World Link
with_settings text s x = (do wrapping text (λ w. x); pure s) x.1

with_settings_lem :
    (text : String) (s t : RpcSettings) (r : Result (Unit {0})) (v : World Link)
    → (with_settings text s (r, v)).0 ≡ ok t
    → (r ≡ ok tt) × (s ≡ t) × ((with_settings text s (r, v)).1 ≡ v)
with_settings_lem text s t (ok a) v h = (refl, ground (arith, h), refl)
with_settings_lem text s t (err e) v h = absurd (ground (arith, h))
with_settings_lem text s t (panics x) v h = absurd (ground (arith, h))

module _ (env : Env) (opts : List RpcOption) (w : World Link) (s : RpcSettings) where
  abbrev settings : RpcSettings
  settings = set_rpc_options opts default_rpc

  new_rpc_server_lem :
      (new_rpc_server env opts w).0 ≡ ok s
      → ((attempt_connect env settings.attempts w).0 ≡ ok tt)
        × (settings ≡ s)
        × ((new_rpc_server env opts w).1 ≡ (attempt_connect env settings.attempts w).1)
  unfolding new_rpc_server
  new_rpc_server_lem h =
      with_settings_lem "rmq_rpc server - NewServer - s.conn.AttemptConnect: " settings s
        (attempt_connect env settings.attempts w).0 (attempt_connect env settings.attempts w).1 h

  attempts-new_rpc_server :
      (new_rpc_server env opts w).0 ≡ ok s → s.attempts ≡ last_attempts (pos 10) opts
  attempts-new_rpc_server h =
      ap (λ x. x.attempts) (sym (new_rpc_server_lem h).1)
      ∙ attempts-set_rpc_options opts default_rpc

  -- A server that `New` has returned can be shut down from every state that it reaches, whether anyone
  -- reads its channel `notify` or not, if the attempts that were asked for last are positive, or
  -- none were asked for: as long as `Shutdown` has not ended there is a way on to its end, and
  -- on that way it returns, unless a reconnect has failed, when it may panic.
  pub new_rpc_server-CanEnd :
      (r : Bool) (k : ℕ) (t : Runner)
      → (new_rpc_server env opts w).0 ≡ ok s
      → last_attempts (pos 10) opts ≡ pos (suc k)
      → Reach r (new_runner 1 s.attempts (new_rpc_server env opts w).1.state) t
      → ¬ HasEnded t.waiter
      → CanEnd r (not (has_given_up t.place)) t
  new_rpc_server-CanEnd r k t h a p n =
      let e = new_rpc_server_lem h in
      let z = attempts-new_rpc_server h ∙ a in
      let c =
        attempt_connect-connection env settings.attempts k w (ap (λ x. x.attempts) e.1 ∙ z) e.0 in
      shutdown-CanEnd r s.attempts k _ t z (ap (λ x. x.state.connection) e.2 ∙ c) p n
