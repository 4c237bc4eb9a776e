-- ===== src/Agent/Send/Repeats.antt =====
-- How often a batch reaches the server, over a network that loses requests and answers.
use gometrics.Prelude.{
  ℕ, zero, suc, ◌≤◌, String, Bool, true, Option, none, some, List, [], ◌∷◌, ◌≡◌, refl, arith, ap,
  subst, sym, ◌∙◌, Bytes,
}
use gometrics.Http.{Request}
use gometrics.Retry.{Context, Outcome, success, failed, stopped, intervals, do_context}
use gometrics.Retry.Laws.{iterate, do_context-IsCorrect, Ends}
use gometrics.Agent.Send.{
  Client, Answer, no_answer, answered, NetError, SendError, network, Payload, send_once,
  send_payload, new_request, judge, is_retriable_http_error,
}

-- what becomes of one attempt: the request is lost, its answer is lost, or neither
pub data Fate : Type 0 where
  request_lost : NetError → Fate
  answer_lost : NetError → Fate
  both_arrive : Fate

-- the server behind a network, with the fates of the attempts to come; where none is given all arrives
pub record Wire (W : Type 0) : Type 0 where
  pub server : W
  pub fates : List Fate

module _ {W : Type 0} (serve : Request → W → ℕ × W) where
  abbrev pub sent : Request → W → List Fate → Answer × Wire W
  sent r w [] =
      let (status, w') = serve r w in (answered status, record { server = w'; fates = [] })
  sent r w (request_lost e ∷ fates) = (no_answer e, record { server = w; fates = fates })
  sent r w (answer_lost e ∷ fates) = (no_answer e, record { server = (serve r w).1; fates = fates })
  sent r w (both_arrive ∷ fates) =
      let (status, w') = serve r w in (answered status, record { server = w'; fates = fates })

  abbrev pub over : (String → Bool) → Client (Wire W)
  over accepts = record { accepts_url = accepts; do_request = λ url r s. sent r s.server s.fates }

  -- the server after the request came to it so often
  abbrev pub times : ℕ → Request → W → W
  times zero r w = w
  times (suc k) r w = times k r (serve r w).1

-- how many of the first attempts come to the server
abbrev pub arrivals : ℕ → List Fate → ℕ
arrivals zero fates = 0
arrivals (suc n) [] = suc (arrivals n [])
arrivals (suc n) (request_lost e ∷ fates) = arrivals n fates
arrivals (suc n) (answer_lost e ∷ fates) = suc (arrivals n fates)
arrivals (suc n) (both_arrive ∷ fates) = suc (arrivals n fates)

arrivals-le : (n : ℕ) (fates : List Fate) → arrivals n fates ≤ n
arrivals-le zero fates = omega arith
arrivals-le (suc n) [] = omega (arith, arrivals-le n [])
arrivals-le (suc n) (request_lost e ∷ fates) = omega (arith, arrivals-le n fates)
arrivals-le (suc n) (answer_lost e ∷ fates) = omega (arith, arrivals-le n fates)
arrivals-le (suc n) (both_arrive ∷ fates) = omega (arith, arrivals-le n fates)

-- a success means that the server was reached
abbrev pub AtLeastOnce : {E : Type 0} → Outcome E → ℕ → Type 0
AtLeastOnce success k = 1 ≤ k
AtLeastOnce (failed e) k = Unit
AtLeastOnce stopped k = Unit

module _ {W : Type 0} (serve : Request → W → ℕ × W) (hmac : Bytes → Bytes → Bytes) (key : String)
    (accepts : String → Bool) (url : String) (ok : accepts url ≡ true) (payload : Payload) where
  abbrev attempt : Wire W → Option SendError × Wire W
  attempt s = send_once (over serve accepts) hmac key url payload s

  abbrev req : Request
  req = new_request hmac key payload

  abbrev at : W → List Fate → Wire W
  at w fates = record { server = w; fates = fates }

  -- the world after an attempt, by its fate
  attempt-lost :
      (e : NetError) (w : W) (fates : List Fate)
      → attempt (at w (request_lost e ∷ fates)) ≡ (some (network e), at w fates)
  unfolding send_once judge
  attempt-lost e w fates = rw ok refl

  attempt-unanswered :
      (e : NetError) (w : W) (fates : List Fate)
      → attempt (at w (answer_lost e ∷ fates)) ≡ (some (network e), at (serve req w).1 fates)
  unfolding send_once judge
  attempt-unanswered e w fates = rw ok refl

  attempt-both :
      (w : W) (fates : List Fate)
      → (attempt (at w (both_arrive ∷ fates))).1 ≡ at (serve req w).1 fates
  unfolding send_once judge
  attempt-both w fates = rw ok refl

  attempt-nil : (w : W) → (attempt (at w [])).1 ≡ at (serve req w).1 []
  unfolding send_once judge
  attempt-nil w = rw ok refl

  module _ (ctx : Context) where
    abbrev after : ℕ → Wire W → Wire W
    after n s = iterate ctx attempt is_retriable_http_error n s

    after-server :
        (n : ℕ) (w : W) (fates : List Fate)
        → (after n (at w fates)).server ≡ times serve (arrivals n fates) req w
    after-server zero w fates = refl
    after-server (suc n) w [] =
        ap (λ s. (after n s).server) (attempt-nil w) ∙ after-server n (serve req w).1 []
    after-server (suc n) w (request_lost e ∷ fates) =
        ap (λ p. (after n p.1).server) (attempt-lost e w fates) ∙ after-server n w fates
    after-server (suc n) w (answer_lost e ∷ fates) =
        ap (λ p. (after n p.1).server) (attempt-unanswered e w fates)
        ∙ after-server n (serve req w).1 fates
    after-server (suc n) w (both_arrive ∷ fates) =
        ap (λ s. (after n s).server) (attempt-both w fates) ∙ after-server n (serve req w).1 fates

    -- an attempt that succeeds has come to the server
    success-arrives :
        (k : ℕ) (w : W) (fates : List Fate)
        → (attempt (after k (at w fates))).0 ≡ none
        → 1 ≤ arrivals (suc k) fates
    success-arrives zero w (request_lost e ∷ fates) h =
        cc (h, ap (λ p. p.0) (attempt-lost e w fates))
    success-arrives (suc k) w (request_lost e ∷ fates) h =
        success-arrives k w fates
          (ap (λ p. (attempt (after k p.1)).0) (sym (attempt-lost e w fates)) ∙ h)
    success-arrives k w [] h = omega arith
    success-arrives k w (answer_lost e ∷ fates) h = omega arith
    success-arrives k w (both_arrive ∷ fates) h = omega arith

    at_least :
        (o : Outcome SendError) (made : ℕ) (w : W) (fates : List Fate)
        → Ends ctx attempt is_retriable_http_error intervals 0 (at w fates) made o
        → AtLeastOnce o (arrivals made fates)
    at_least success made w fates (k, e, q) =
        subst (λ n. 1 ≤ arrivals n fates) (sym e) (success-arrives k w fates q)
    at_least (failed e) made w fates h = tt
    at_least stopped made w fates h = tt

    -- The sending of a batch makes at most four attempts. The server gets the same request at each of
    -- them that is not lost on the way, whether or not the answer is lost; at least once if the sending
    -- succeeds, but at most four times.
    pub send_payload-arrivals :
        (w : W) (fates : List Fate)
        → let r =
            send_payload
              (over serve accepts)
              hmac
              key
              ctx
              url
              payload
              (record { server = w; fates = fates }) in
          let k = arrivals r.attempts fates in
          (r.world.server ≡ times serve k (new_request hmac key payload) w)
          × (k ≤ 4)
          × AtLeastOnce r.outcome k
    unfolding send_payload
    send_payload-arrivals w fates =
        let r = do_context ctx attempt is_retriable_http_error intervals (at w fates) in
        let h = do_context-IsCorrect ctx attempt is_retriable_http_error intervals (at w fates) in
        let few : r.attempts ≤ 4 = h.bounded in
        (
          ap (λ s. s.server) h.world ∙ after-server r.attempts w fates,
          omega (arith, few, arrivals-le r.attempts fates),
          at_least r.outcome r.attempts w fates h.ends,
        )
