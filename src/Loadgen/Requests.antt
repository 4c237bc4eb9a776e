-- ===== src/Loadgen/Requests.antt =====
-- What one request of the load does to the numbers.
use mathlib.Core.Path.{ap₂}
use Prim.Native.String.{◌++◌ as str_append}
use gometrics.Models.{Metrics}
use gometrics.Prelude.{
  ℕ, ◌+◌, ◌≤◌, ◌<◌, String, Bool, true, false, Option, none, some, List, [], ◌∷◌, ◌≡◌, ◌⊎◌, refl,
  arith, ltb, leb, if◌then◌else◌, inl, inr, Bytes, ◌&&◌, ◌∙◌,
}
use gometrics.Http.{Request, whole}
use gometrics.Loadgen.{
  Config, Counters, Load, Tools, Choice, after_reply, do_once, not_sent, post_body, post_batch,
  reached, size_of, signature, request, build_batch, metric_name, metric_type,
}
use gometrics.Loadgen.Phases.{value_request, batch_done, do_request, get_or_fail, batch_end}

either : {A : Type 0} → (P : A → Type 0) (b : Bool) (x y : A) → P x → P y → P (if b then x else y)
either P true x y p q = p
either P false x y p q = q

-- the requests by their kinds
abbrev pub kinds : Counters → ℕ
kinds c = c.update_batch + c.value_json + c.value_path + c.root_page + c.seed

module _ {S : Type 0} (t : Tools S) where
  -- an attempt: a response is counted in `requests`, and ends the load at the limit; an error is not
  abbrev Tried : Load S → Option String × Load S → Type 0
  Tried l (none, l') =
      (l'.counters.requests ≡ l.counters.requests + 1)
      × (kinds l'.counters ≡ kinds l.counters)
      × (l'.counters.limit ≡ l.counters.limit)
      × ((l'.cancelled ≡ true) ⊎ (reached t l'.counters ≡ false))
  Tried l (some e, l') =
      (l'.counters.requests ≡ l.counters.requests)
      × (kinds l'.counters ≡ kinds l.counters)
      × (l'.counters.limit ≡ l.counters.limit)

  after_reply-Tried :
      (status : Option ℕ) (done : Bool) (size : ℕ) (l : Load S)
      → Tried l (after_reply t status done size l)
  unfolding after_reply
  after_reply-Tried none true size l = (refl, refl, refl)
  after_reply-Tried none false size l = (refl, refl, refl)
  after_reply-Tried (some status) done size l = ground arith

  do_once-Tried : (url : String) (r : Request) (l : Load S) → Tried l (do_once t url r l)
  unfolding do_once
  do_once-Tried url r l =
      let (reply, net) = t.do_request url r l.net in
      either (Tried l) l.cancelled (some "context canceled", l) _ (refl, refl, refl)
        (after_reply-Tried reply.status reply.context_done (size_of t r) (record l { net = net }))

  not_sent-Tried : (l : Load S) → Tried l (not_sent t l)
  unfolding not_sent
  not_sent-Tried l = (refl, refl, refl)

  post_body-Tried : (cfg : Config) (o : Option Bytes) (l : Load S) → Tried l (post_body t cfg o l)
  unfolding post_body
  post_body-Tried cfg none l = not_sent-Tried l
  post_body-Tried cfg (some json) l =
      let url = str_append cfg.addr "/updates/" in
      let body = t.gzip json in
      let headers =
        ("Content-Type", "application/json")
        ∷ ("Content-Encoding", "gzip")
        ∷ ("Accept-Encoding", "gzip")
        ∷ signature t cfg.key body in
      let r = request t "POST" headers (some (whole body)) in
      either (Tried l) (t.url_ok url) (do_once t url r l) (not_sent t l) (do_once-Tried url r l)
        (not_sent-Tried l)

  -- one request of the load: it is counted as one response of one kind, or not as a response
  abbrev pub Grown : Load S → Load S → Type 0
  Grown l l' =
      (l'.counters.limit ≡ l.counters.limit)
      × (((l'.counters.requests ≡ l.counters.requests) × (kinds l.counters ≤ kinds l'.counters))
          ⊎ ((l'.counters.requests ≡ l.counters.requests + 1)
              × (kinds l'.counters ≡ kinds l.counters + 1)
              × ((l'.cancelled ≡ true) ⊎ (reached t l'.counters ≡ false))))

  batch_done-Grown :
      (l : Load S) (r : Option String × Load S) → Tried l r → Grown l (batch_done t r)
  unfolding batch_done
  batch_done-Grown l (some e, l') (n, k, m) = (m, inl (n, omega (arith, k)))
  batch_done-Grown l (none, l') (n, k, m, c) = (m, inr (n, omega (arith, k), c))

  -- the count of a request that was sent, whatever came of it
  abbrev Counts : (Counters → Counters) → Type 0
  Counts f =
      (c : Counters)
      → ((f c).requests ≡ c.requests) × ((f c).limit ≡ c.limit) × (kinds (f c) ≡ kinds c + 1)

  sent-Grown :
      (l : Load S) (f : Counters → Counters) (r : Option String × Load S)
      → Counts f
      → Tried l r
      → Grown l (record r.1 { counters = f r.1.counters })
  sent-Grown l f (some e, l') h (n, k, m) =
      let (a, b, d) = h l'.counters in (b ∙ m, inl (a ∙ n, omega (arith, k, d)))
  sent-Grown l f (none, l') h (n, k, m, inl c) =
      let (a, b, d) = h l'.counters in (b ∙ m, inr (a ∙ n, omega (arith, k, d), inl c))
  sent-Grown l f (none, l') h (n, k, m, inr c) =
      let (a, b, d) = h l'.counters in
      (b ∙ m, inr (a ∙ n, omega (arith, k, d), inr (ap₂ (λ x y. ltb 0 x && leb x y) b a ∙ c)))

  not_sent-Grown : (l : Load S) → Grown l (not_sent t l).1
  unfolding not_sent
  not_sent-Grown l = (refl, inl (refl, omega arith))

  get_or_fail-Grown :
      (url : String) (r : Request) (f : Counters → Counters) (l : Load S)
      → Counts f
      → Grown l (get_or_fail t url r f l)
  get_or_fail-Grown url r f l h =
      either (Grown l) (t.url_ok url) _ _
        (sent-Grown l f (do_once t url r l) h (do_once-Tried url r l)) (not_sent-Grown l)

  value_request-Grown :
      (cfg : Config) (o : Option Bytes) (l : Load S) → Grown l (value_request t cfg o l)
  unfolding value_request
  value_request-Grown cfg none l = not_sent-Grown l
  value_request-Grown cfg (some body) l =
      get_or_fail-Grown (str_append cfg.addr "/value")
        (request t "POST" (("Content-Type", "application/json") ∷ []) (some (whole body)))
        (λ c. record c { value_json = c.value_json + 1 }) l (λ c. (refl, refl, omega arith))

  pub do_request-Grown : (cfg : Config) (c : Choice) (l : Load S) → Grown l (do_request t cfg c l)
  unfolding do_request post_batch
  do_request-Grown cfg c l =
      either (Grown l) (ltb c.roll 55) (batch_done t batch)
        (if ltb c.roll 75 then value else others)
        (batch_done-Grown l batch (post_body-Tried cfg (t.marshal_list metrics) l))
        (either (Grown l) (ltb c.roll 75) value others (value_request-Grown cfg json l) (
          either (Grown l) (ltb c.roll 85) (get_or_fail t path get count_path l)
            (get_or_fail t root get count_root l)
            (get_or_fail-Grown path get count_path l (λ c. (refl, refl, omega arith)))
            (get_or_fail-Grown root get count_root l (λ c. (refl, refl, omega arith)))))
    where
      metrics : List Metrics
      metrics = build_batch t c.index (batch_end t cfg c.index)

      batch : Option String × Load S
      batch = post_body t cfg (t.marshal_list metrics) l

      json : Option Bytes
      json = t.marshal_one (record {
        id = metric_name t c.index;
        mtype = metric_type c.index;
        delta = none;
        value = none;
        hash = "";
      })

      value : Load S
      value = value_request t cfg json l

      get : Request
      get = request t "GET" [] none

      path : String
      path = str_append cfg.addr (
          str_append "/value/"
            (str_append (metric_type c.index) (str_append "/" (metric_name t c.index))))

      root : String
      root = str_append cfg.addr "/"

      count_path : Counters → Counters
      count_path c = record c { value_path = c.value_path + 1 }

      count_root : Counters → Counters
      count_root c = record c { root_page = c.root_page + 1 }

      others : Load S
      others =
          if ltb c.roll 85
          then get_or_fail t path get count_path l
          else get_or_fail t root get count_root l

  pub below_limit : (c : Counters) → 0 < c.limit → reached t c ≡ false → c.requests < c.limit
  below_limit c p h = ground arith
