-- ===== src/Notify/Fcm/Pushes.antt =====
-- What the FCM server is sent, and what comes back of its answer.
use thiam_api.Base.{
  ap, ◌+◌, ◌≡◌, refl, false, ℕ, List, [], ◌∷◌, ◌++◌, String, if◌then◌else◌, arith, count, drop,
  length,
}
use thiam_api.Base.Int.{pos, ltb_ℤ}
use thiam_api.Exec.{ok, World, call}
use thiam_api.Exec.Faults.{NoFaults}
use thiam_api.Notification.{PushMessage}
use thiam_api.Notify.Fcm.{
  FcmResult, FcmResponse, FailedToken, FcmSendResult, fcm_result, has_failed, failed_of, Fcm,
  FcmSender, HttpRequest, fcm_message, fcm_request, send_with_result, fcm_send, is_empty,
}

-- The tokens whose result has an error, with the error, in their order.
abbrev pub failures : List String → List FcmResult → List FailedToken
failures [] rs = []
failures (t ∷ ts) [] = []
failures (t ∷ ts) (r ∷ rs) =
    if has_failed r then record { token = t; error = r.error } ∷ failures ts rs else failures ts rs

failed_of_lem :
    (rs : List FcmResult) (ts : List String)
    → count has_failed (drop (length ts) rs) ≡ 0
    → failed_of rs ts ≡ ok (failures ts rs)
unfolding failed_of
failed_of_lem [] [] h = refl
failed_of_lem [] (t ∷ ts) h = refl
failed_of_lem (r ∷ rs) [] h = ground (arith, failed_of_lem rs [])
failed_of_lem (r ∷ rs) (t ∷ ts) h = ground (arith, failed_of_lem rs ts)

-- The result for an answer.
abbrev listed : FcmResponse → List String → FcmSendResult
listed r ts = record {
  success_count = r.success;
  failure_count = r.failure;
  failed_tokens = if ltb_ℤ (pos 0) r.failure then failures ts r.results else [];
}

fcm_result_lem :
    (r : FcmResponse) (ts : List String)
    → count has_failed (drop (length ts) r.results) ≡ 0
    → fcm_result r ts ≡ ok (listed r ts)
fcm_result_lem r ts h = ground (arith, failed_of_lem r.results ts h)

module _ (fcm : Fcm) (f : FcmSender) where
  send_with_result-listed :
      NoFaults fcm.env
      → (msg : PushMessage) (ts : List String) (payload : List ℕ) (r : FcmResponse)
      → (w : World (List HttpRequest)) → is_empty ts ≡ false
      → fcm.marshal (fcm_message msg ts) ≡ ok payload
      → (fcm.response (fcm_request f payload)).status_code ≡ 200
      → fcm.decode (fcm.response (fcm_request f payload)).body ≡ ok r
      → count has_failed (drop (length ts) r.results) ≡ 0
      → send_with_result fcm f msg ts w ≡ (
        ok (listed r ts),
        record { calls = w.calls + 1 + 1; state = w.state ++ fcm_request f payload ∷ [] },
      )
  unfolding send_with_result call
  send_with_result-listed faultless msg ts payload r w e m s d k =
      rw (e, m, faultless w.calls, faultless (w.calls + 1), s, d, fcm_result_lem r ts k)

  -- Without faults, a push to at least one token is one request to the FCM server, with the message as
  -- its payload. If the server answers 200 with a body that is decoded to `r`, in which no
  -- result behind the last token has an error, then the counts of the result are those of `r`, and its
  -- failed tokens are, where `r` counts a failure, exactly the tokens whose result has an error,
  -- with it. `Send` reports no error, however many tokens failed.
  pub send_with_result-failures :
      NoFaults fcm.env
      → (msg : PushMessage) (ts : List String) (payload : List ℕ) (r : FcmResponse)
      → (w : World (List HttpRequest)) → is_empty ts ≡ false
      → fcm.marshal (fcm_message msg ts) ≡ ok payload
      → (fcm.response (fcm_request f payload)).status_code ≡ 200
      → fcm.decode (fcm.response (fcm_request f payload)).body ≡ ok r
      → count has_failed (drop (length ts) r.results) ≡ 0
      → ((send_with_result fcm f msg ts w).1.state ≡ w.state ++ fcm_request f payload ∷ [])
        × ((send_with_result fcm f msg ts w).0
            ≡ ok (record {
              success_count = r.success;
              failure_count = r.failure;
              failed_tokens = if ltb_ℤ (pos 0) r.failure then failures ts r.results else [];
            }))
        × ((fcm_send fcm f msg ts w).0 ≡ ok tt)
  unfolding fcm_send
  send_with_result-failures faultless msg ts payload r w e m s d k =
      let q = send_with_result-listed faultless msg ts payload r w e m s d k in
      (ap (λ x. x.1.state) q, ap (λ x. x.0) q, rw q)
