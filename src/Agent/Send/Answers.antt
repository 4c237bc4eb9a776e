-- ===== src/Agent/Send/Answers.antt =====
-- Which answers end the sending of a batch.
use gometrics.Prelude.{
  ℕ, ◌≤◌, ◌<◌, String, true, false, Option, some, [], ◌≡◌, refl, ◌⊎◌, inl, inr, arith, Bytes,
  Bool-cases, ◌∙◌, leb, ap, leb→le, ltb, ◌||◌,
}
use gometrics.Retry.{Context, Run, Outcome, success, failed, intervals}
use gometrics.Retry.Laws.{do_context-success, do_context-failed}
use gometrics.Agent.Send.{
  Client, answered, SendError, retriable_status, rejected, Payload, check_response, send_once,
  send_payload, new_request, is_retriable_http_error, judge, intervals, leb, ltb,
}

module _ {S : Type 0} (client : Client S) (hmac : Bytes → Bytes → Bytes) (key : String) where
  send_once-answered :
      (url : String) (payload : Payload) (s s' : S) (status : ℕ)
      → client.accepts_url url ≡ true
      → client.do_request url (new_request hmac key payload) s ≡ (answered status, s')
      → send_once client hmac key url payload s ≡ (check_response status, s')
  unfolding send_once judge
  send_once-answered url payload s s' status ok answer = rw (ok, answer) refl

  -- what a run looks like after one attempt
  abbrev pub EndsWith : Outcome SendError → S → Run SendError S → Type 0
  EndsWith o s r = (r.attempts ≡ 1) × (r.waited ≡ []) × (r.world ≡ s) × (r.outcome ≡ o)

  by_check :
      (ctx : Context) (url : String) (payload : Payload) (s s' : S) (o : Option SendError)
      → ctx.cancelled_before 0 ≡ false
      → send_once client hmac key url payload s ≡ (o, s')
      → (e : SendError) → (o ≡ some e)
      → is_retriable_http_error e ≡ false
      → EndsWith (failed e) s' (send_payload client hmac key ctx url payload s)
  unfolding send_payload
  by_check ctx url payload s s' o live sent e p final =
      rw
        (do_context-failed ctx (send_once client hmac key url payload) is_retriable_http_error
          intervals s s' e live (sent ∙ ap (λ x. (x, s')) p) final)
        (refl, refl, refl, refl)

  -- Any answer of the server ends the sending after one attempt and without a pause, a 5xx too: a
  -- status from 200 to 299 is a success, and every other one a failure.
  pub send_payload-answered :
      (ctx : Context) (url : String) (payload : Payload) (s s' : S) (status : ℕ)
      → client.accepts_url url ≡ true
      → ctx.cancelled_before 0 ≡ false
      → client.do_request url (new_request hmac key payload) s ≡ (answered status, s')
      → let r = send_payload client hmac key ctx url payload s in
        ((200 ≤ status) × (status < 300) × EndsWith success s' r)
        ⊎ (((status < 200) ⊎ (300 ≤ status))
            × (status < 500)
            × EndsWith (failed (rejected status)) s' r)
        ⊎ ((500 ≤ status) × EndsWith (failed (retriable_status status)) s' r)
  unfolding send_payload check_response is_retriable_http_error
  send_payload-answered ctx url payload s s' status ok live answer =
      let sent = send_once-answered url payload s s' status ok answer in
      elim (Bool-cases (leb 500 status)) [
        | inl e ↦ inr (
            inr (
              leb→le _ _ e,
              by_check ctx url payload s s' _ live sent (retriable_status status) (rw e refl) refl,
            ))
        | inr e ↦ elim (Bool-cases (ltb status 200 || leb 300 status)) [
          | inl n ↦ inr (
              inl (
                ground arith,
                ground arith,
                by_check ctx url payload s s' _ live sent (rejected status) (rw (e, n) refl) refl,
              ))
          | inr n ↦ inl (
            (ground arith),
            (ground arith),
            rw
                (do_context-success ctx (send_once client hmac key url payload)
                  is_retriable_http_error intervals s s' live (sent ∙ rw (e, n) refl))
                (refl, refl, refl, refl),
          )
        ]
      ]
