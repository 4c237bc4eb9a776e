-- ===== src/Loadgen/Phases.antt =====
-- internal/loadgen/loadgen.go: the seeding, and the requests of the load phase, one after the other.
use Prim.Native.String.{◌++◌ as str_append}
use gometrics.Prelude.{
  ℕ, zero, suc, ◌+◌, String, Option, none, some, List, [], ◌∷◌, ltb, if◌then◌else◌, Bytes,
}
use gometrics.Http.{Request, whole}
use gometrics.Loadgen.{
  Choice, Config, Counters, Load, Tools, build_batch, do_once, metric_name, metric_type, not_sent,
  post_batch, request,
}

module _ {S : Type 0} (t : Tools S) where
  -- the end of a batch that starts at `from`
  abbrev pub batch_end : Config → ℕ → ℕ
  batch_end cfg from =
      if ltb cfg.seed_metrics (from + cfg.batch_size)
      then cfg.seed_metrics
      else from + cfg.batch_size

  abbrev pub seeded : Load S → Load S
  seeded l = record l { counters = record l.counters { seed = l.counters.seed + 1 } }

  -- one round of `seed`: an error ends the loop
  unfoldable pub after_post :
      Option String × Load S
      → (Load S → Option (Option String × Load S))
      → Option (Option String × Load S)
  after_post (some e, l) next = some (some e, l)
  after_post (none, l) next = next (seeded l)

  -- The loop of `seed`, on fuel; the outer `none` means that it ran out.
  unfoldable pub seed_from : Config → ℕ → ℕ → Load S → Option (Option String × Load S)
  unfolding after_post
  seed_from cfg zero from l = if ltb from cfg.seed_metrics then none else some (none, l)
  seed_from cfg (suc fuel) from l =
      let round =
        after_post (post_batch t cfg (build_batch t from (batch_end cfg from)) l)
          (λ l'. seed_from cfg fuel (from + cfg.batch_size) l') in
      if ltb from cfg.seed_metrics then round else some (none, l)

  unfoldable pub seed : Config → Load S → Option (Option String × Load S)
  unfolding seed_from
  seed cfg l = seed_from cfg cfg.seed_metrics 0 l

  abbrev pub get_or_fail : String → Request → (Counters → Counters) → Load S → Load S
  get_or_fail url r count l =
      if t.url_ok url
      then (let l' = (do_once t url r l).1 in record l' { counters = count l'.counters })
      else (not_sent t l).1

  -- the case of `/value`, after the marshalling
  unfoldable pub value_request : Config → Option Bytes → Load S → Load S
  unfolding do_once not_sent
  value_request cfg none l = (not_sent t l).1
  value_request cfg (some body) l =
      get_or_fail (str_append cfg.addr "/value")
        (request t "POST" (("Content-Type", "application/json") ∷ []) (some (whole body)))
        (λ c. record c { value_json = c.value_json + 1 }) l

  unfoldable pub batch_done : Option String × Load S → Load S
  batch_done (some e, l) = l
  batch_done (none, l) = record l {
    counters = record l.counters { update_batch = l.counters.update_batch + 1 };
  }

  -- `doRequest`
  unfoldable pub do_request : Config → Choice → Load S → Load S
  unfolding batch_done value_request post_batch do_once not_sent
  do_request cfg choice l =
      let i = choice.index in
      if ltb choice.roll 55
      then batch_done (post_batch t cfg (build_batch t i (batch_end cfg i)) l)
      else if ltb choice.roll 75
      then value_request cfg
          (t.marshal_one (record {
            id = metric_name t i;
            mtype = metric_type i;
            delta = none;
            value = none;
            hash = "";
          }))
          l
      else if ltb choice.roll 85
      then get_or_fail
          (str_append cfg.addr
            (str_append "/value/" (str_append (metric_type i) (str_append "/" (metric_name t i)))))
          (request t "GET" [] none) (λ c. record c { value_path = c.value_path + 1 }) l
      else get_or_fail (str_append cfg.addr "/") (request t "GET" [] none)
          (λ c. record c { root_page = c.root_page + 1 }) l

  -- the loop of a worker alone, while the context is live; `choices` are those of its random source
  unfoldable pub work : Config → List Choice → Load S → Load S
  unfolding do_request
  work cfg [] l = l
  work cfg (c ∷ choices) l =
      let rest = work cfg choices (do_request cfg c l) in if l.cancelled then l else rest
