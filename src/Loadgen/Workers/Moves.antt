-- ===== src/Loadgen/Workers/Moves.antt =====
-- What a step of a worker does to the numbers.
use gometrics.Prelude.{
  ℕ, ◌+◌, ◌≤◌, ◌<◌, String, Bool, true, false, Option, none, some, ◌≡◌, ◌⊎◌, refl, arith, inl, inr,
  Bool-cases, if◌then◌else◌, ◌&&◌,
}
use gometrics.Http.{Request}
use gometrics.Loadgen.{Choice, Config, Counters, Load, Tools, reached, is_failure, failed_once}
use gometrics.Loadgen.Requests.{kinds, below_limit}
use gometrics.Loadgen.Workers.{
  Kind, batch, value_json, value_path, root_page, Worker, looping, ready, waiting, failed,
  responded, sizing, judging, at_limit, cancelling, returned, left, next, begin_request, replied,
  request_of, after_do,
}

-- between the count of its request and the test of the limit
abbrev pub owing : Worker → ℕ
owing (sizing k status size) = 1
owing (judging k status) = 1
owing (at_limit k) = 1
owing (cancelling k) = 1
owing _ = 0

-- its request can still be counted without another look at the context
abbrev pub pending : Worker → ℕ
pending (waiting k url r) = 1
pending (responded k status size) = 1
pending _ = 0

-- its request is counted, but not by its kind
abbrev pub due : Worker → ℕ
due (returned k true) = 1
due w = owing w

after_do-kinds :
    (k : Kind) (ok : Bool) (c : Counters)
    → ((after_do k ok c).limit ≡ c.limit)
      × ((after_do k ok c).requests ≡ c.requests)
      × (kinds c + due (returned k ok) ≤ kinds (after_do k ok c))
after_do-kinds batch false c = (refl, refl, omega arith)
after_do-kinds batch true c = (refl, refl, omega arith)
after_do-kinds value_json false c = (refl, refl, omega arith)
after_do-kinds value_json true c = (refl, refl, omega arith)
after_do-kinds value_path false c = (refl, refl, omega arith)
after_do-kinds value_path true c = (refl, refl, omega arith)
after_do-kinds root_page false c = (refl, refl, omega arith)
after_do-kinds root_page true c = (refl, refl, omega arith)

module _ {S : Type 0} where
  -- what a step of a worker does to the numbers
  pub record Moves (w : Worker) (l : Load S) (w' : Worker) (l' : Load S) : Type 0 where
    pub same_limit : l'.counters.limit ≡ l.counters.limit
    pub kinds_keep_up :
        l'.counters.requests + (kinds l.counters + due w)
        ≤ l.counters.requests + (kinds l'.counters + due w')
    pub context :
        ((l.cancelled ≡ false)
          × (l'.cancelled ≡ false)
          × ((l'.counters.requests + owing w ≤ l.counters.requests + owing w')
              ⊎ (l'.counters.requests < l.counters.limit)))
        ⊎ (((l.cancelled ≡ false)
              × (l'.cancelled ≡ true)
              × (l'.counters.requests ≤ l.counters.requests)
              × (pending w' ≤ pending w))
            ⊎ ((l.cancelled ≡ true)
                × (l'.cancelled ≡ true)
                × (l'.counters.requests + pending w' ≤ l.counters.requests + pending w)))

  -- a step that does not touch the context
  kept :
      (w : Worker) (l : Load S) (w' : Worker) (l' : Load S)
      → l'.counters.limit ≡ l.counters.limit
      → l'.cancelled ≡ l.cancelled
      → l'.counters.requests + (kinds l.counters + due w)
        ≤ l.counters.requests + (kinds l'.counters + due w')
      → (l.cancelled ≡ false
          → (l'.counters.requests + owing w ≤ l.counters.requests + owing w')
            ⊎ (l'.counters.requests < l.counters.limit))
      → (l.cancelled ≡ true → l'.counters.requests + pending w' ≤ l.counters.requests + pending w)
      → Moves w l w' l'
  kept w l w' l' m c k p q = record {
    same_limit = m;
    kinds_keep_up = k;
    context = elim (Bool-cases l.cancelled) [
      | inl e ↦ inr (inr (e, cc (c, e), q e))
      | inr e ↦ inl (e, cc (c, e), p e)
    ];
  }

  module _ (t : Tools S) (cfg : Config) (choice : Choice) (breaks : Bool) (l : Load S)
      (some_limit : 0 < l.counters.limit) where
    abbrev pub Stepped : Worker → Type 0
    Stepped w = let (w', l') = next t cfg choice breaks w l in Moves w l w' l'

    choose :
        (w : Worker) (b : Bool) (x y : Worker × Load S)
        → (b ≡ true → Moves w l x.0 x.1)
        → (b ≡ false → Moves w l y.0 y.1)
        → Moves w l (if b then x else y).0 (if b then x else y).1
    choose w true x y p q = p refl
    choose w false x y p q = q refl

    -- a step to a place where the worker has looked at the context, or has stopped
    still :
        (w w' : Worker)
        → due w ≤ due w'
        → owing w ≤ owing w'
        → pending w' ≤ pending w
        → Moves w l w' l
    still w w' d o p =
        kept w l w' l refl refl (omega (arith, d)) (λ e. inl (omega (arith, o)))
          (λ e. omega (arith, p))

    begin-Moves :
        (o : Option (Kind × (String × Request)))
        → let (w', l') = begin_request t cfg o l in Moves looping l w' l'
    unfolding begin_request
    begin-Moves none =
        kept looping l looping _ refl refl (omega arith) (λ e. inl (omega arith)) (λ e. omega arith)
    begin-Moves (some (k, (url, r))) =
        still looping (ready k url r) (omega arith) (omega arith) (omega arith)

    looping-Moves : Stepped looping
    unfolding next
    looping-Moves =
        choose looping l.cancelled (left, l) (begin_request t cfg (request_of t cfg choice) l)
          (λ e. still looping left (omega arith) (omega arith) (omega arith))
          (λ e. begin-Moves (request_of t cfg choice))

    ready-Moves : (k : Kind) (url : String) (r : Request) → Stepped (ready k url r)
    unfolding next
    ready-Moves k url r =
        choose (ready k url r) l.cancelled (returned k false, l) (waiting k url r, l)
          (λ e. still (ready k url r) (returned k false) (omega arith) (omega arith) (omega arith))
          (λ e.
            kept (ready k url r) l (waiting k url r) l refl refl (omega arith)
              (λ f. inl (omega arith)) (λ f. cc (e, f)))

    replied-Moves :
        (o : Option ℕ) (k : Kind) (url : String) (r : Request) (size : ℕ) (net : S)
        → let (w', l') = replied t cfg o k size (record l { net = net }) in
          Moves (waiting k url r) l w' l'
    unfolding replied
    replied-Moves none k url r size net =
        kept (waiting k url r) l (failed k) _ refl refl (omega arith) (λ e. inl (omega arith))
          (λ e. omega arith)
    replied-Moves (some status) k url r size net =
        kept (waiting k url r) l (responded k status size) _ refl refl (omega arith)
          (λ e. inl (omega arith)) (λ e. omega arith)

    waiting-Moves : (k : Kind) (url : String) (r : Request) → Stepped (waiting k url r)
    unfolding next
    waiting-Moves k url r =
        let (reply, net) = t.do_request url r l.net in
        replied-Moves (if breaks && l.cancelled then none else reply.status) k url r _ net

    failed-Moves : (k : Kind) → Stepped (failed k)
    unfolding next
    failed-Moves k =
        choose (failed k) l.cancelled (returned k false, l)
          (returned k false, record l { counters = failed_once t l.counters })
          (λ e. still (failed k) (returned k false) (omega arith) (omega arith) (omega arith))
          (λ e.
            kept (failed k) l (returned k false) _ refl refl (omega arith) (λ e. inl (omega arith))
              (λ e. omega arith))

    responded-Moves : (k : Kind) (status size : ℕ) → Stepped (responded k status size)
    unfolding next
    responded-Moves k status size =
        kept (responded k status size) l (sizing k status size) _ refl refl (omega arith)
          (λ e. inl (omega arith)) (λ e. omega arith)

    sizing-Moves : (k : Kind) (status size : ℕ) → Stepped (sizing k status size)
    unfolding next
    sizing-Moves k status size =
        kept (sizing k status size) l (judging k status) _ refl refl (omega arith)
          (λ e. inl (omega arith)) (λ e. omega arith)

    judging-Moves : (k : Kind) (status : ℕ) → Stepped (judging k status)
    unfolding next
    judging-Moves k status =
        choose (judging k status) (is_failure t status)
          (at_limit k, record l { counters = failed_once t l.counters }) (at_limit k, l)
          (λ e.
            kept (judging k status) l (at_limit k) _ refl refl (omega arith)
              (λ e. inl (omega arith)) (λ e. omega arith))
          (λ e. still (judging k status) (at_limit k) (omega arith) (omega arith) (omega arith))

    at_limit-Moves : (k : Kind) → Stepped (at_limit k)
    unfolding next
    at_limit-Moves k =
        choose (at_limit k) (reached t l.counters) (cancelling k, l) (returned k true, l)
          (λ e. still (at_limit k) (cancelling k) (omega arith) (omega arith) (omega arith))
          (λ e.
            kept (at_limit k) l (returned k true) l refl refl (omega arith)
              (λ f. inr (below_limit t l.counters some_limit e)) (λ f. omega arith))

    cancelling-Moves : (k : Kind) → Stepped (cancelling k)
    unfolding next
    cancelling-Moves k = record {
      same_limit = refl;
      kinds_keep_up = omega arith;
      context = elim (Bool-cases l.cancelled) [
        | inl e ↦ inr (inr (e, refl, omega arith))
        | inr e ↦ inr (inl (e, refl, omega arith, omega arith))
      ];
    }

    returned-Moves : (k : Kind) (ok : Bool) → Stepped (returned k ok)
    unfolding next
    returned-Moves k ok =
        let (m, n, d) = after_do-kinds k ok l.counters in
        kept (returned k ok) l looping _ m refl (omega (arith, n, d)) (λ e. inl (omega (arith, n)))
          (λ e. omega (arith, n))

    pub next-Moves : (w : Worker) → Stepped w
    unfolding next
    next-Moves looping = looping-Moves
    next-Moves (ready k url r) = ready-Moves k url r
    next-Moves (waiting k url r) = waiting-Moves k url r
    next-Moves (failed k) = failed-Moves k
    next-Moves (responded k status size) = responded-Moves k status size
    next-Moves (sizing k status size) = sizing-Moves k status size
    next-Moves (judging k status) = judging-Moves k status
    next-Moves (at_limit k) = at_limit-Moves k
    next-Moves (cancelling k) = cancelling-Moves k
    next-Moves (returned k ok) = returned-Moves k ok
    next-Moves left = still left left (omega arith) (omega arith) (omega arith)
