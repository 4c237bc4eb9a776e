-- ===== src/Serve/Valid.antt =====
-- The store stays well-formed while the server runs.
use gometrics.Prelude.{
  ℕ, true, false, Option, none, some, List, [], ◌∷◌, ◌≡◌, sym, subst, arith, if◌then◌else◌,
}
use gometrics.Storage.Mem.Invariant.{IsValid, write-IsValid}
use gometrics.Storage.File.{Json}
use gometrics.Config.Server.{Config}
use gometrics.Serve.{
  RequestState, handling, saving, Saver, Phase, System, RequestAction, change, begin_save, go_on,
  finish, MainAction, SaverAction, Action, arrive, request, saver_does, main_does, on_main,
  on_arrive, on_signal, on_listen_failed, on_timed_out, on_drained, on_copy_all, on_last,
  on_saver_stops, unless_writing, on_request, on_saver, step, act, run, has_returned,
}

module _ {C : Type 0} (json : Json C) (cfg : Config) where
  on_arrive-store : (p : Phase) (s : System C) → (on_arrive json cfg p s).store ≡ s.store
  unfolding on_arrive
  on_arrive-store p s = ground arith

  on_main-store : (x : MainAction C) (s : System C) → (on_main json cfg x s).store ≡ s.store
  unfolding on_main on_signal on_listen_failed on_timed_out on_drained on_copy_all on_last
      on_saver_stops unless_writing
  on_main-store x s = ground arith

  on_saver-store :
      (v : Saver) (a : SaverAction C) (s : System C) → (on_saver json cfg v a s).store ≡ s.store
  unfolding on_saver
  on_saver-store v a s = ground arith

  on_request-IsValid :
      (o : Option RequestState) (i : ℕ) (a : RequestAction C) (s : System C)
      → IsValid s.store
      → IsValid (on_request json cfg o i a s).store
  unfolding on_request
  on_request-IsValid none i a s h = h
  on_request-IsValid (some handling) i (change w) s h = write-IsValid w s.store h
  on_request-IsValid (some handling) i (begin_save order) s h = h
  on_request-IsValid (some handling) i (go_on answer) s h = h
  on_request-IsValid (some handling) i finish s h = h
  on_request-IsValid (some (saving save)) i a s h = subst IsValid (ground arith) h

  step-IsValid : (a : Action C) (s : System C) → IsValid s.store → IsValid (step json cfg a s).store
  unfolding step
  step-IsValid arrive s h = subst IsValid (sym (on_arrive-store s.phase s)) h
  step-IsValid (request i a) s h = on_request-IsValid _ i a s h
  step-IsValid (saver_does a) s h = subst IsValid (sym (on_saver-store s.saver a s)) h
  step-IsValid (main_does x) s h = subst IsValid (sym (on_main-store x s)) h

  act-IsValid : (a : Action C) (s : System C) → IsValid s.store → IsValid (act json cfg a s).store
  unfolding act
  act-IsValid a s h =
      elim (has_returned json cfg s.phase)
        as (λ b. IsValid (if b then s else step json cfg a s).store) [
          | true ↦ h
          | false ↦ step-IsValid a s h
        ]

  pub run-IsValid :
      (schedule : List (Action C)) (s : System C)
      → IsValid s.store
      → IsValid (run json cfg schedule s).store
  unfolding run
  run-IsValid [] s h = h
  run-IsValid (a ∷ schedule) s h = run-IsValid schedule (act json cfg a s) (act-IsValid a s h)
