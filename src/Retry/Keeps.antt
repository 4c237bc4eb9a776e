-- ===== src/Retry/Keeps.antt =====
-- What attempts that fail keep, a run that fails keeps.
use gometrics.Prelude.{ℕ, suc, Bool, true, false, Option, none, some, List, [], ◌∷◌}
use gometrics.Retry.{
  Duration, Outcome, success, failed, stopped, Run, Context, background, on_start, on_result,
  on_error, in_pause, once, none_made, counted, attempts_from, do_context, do_retry,
}

module _ {E S : Type 0} (Keep Done : S → Type 0) where
  -- an outcome with its world
  abbrev pub Holds : Outcome E → S → Type 0
  Holds success s = Done s
  Holds (failed e) s = Keep s
  Holds stopped s = Keep s

  -- one attempt
  abbrev pub Tried : Option E × S → Type 0
  Tried (none, s) = Done s
  Tried (some e, s) = Keep s

  module _ (ctx : Context) (fn : S → Option E × S) (is_retriable : E → Bool)
      (attempt : (s : S) → Keep s → Tried (fn s)) where
    abbrev Good : Run E S → Type 0
    Good r = Holds r.outcome r.world

    in_pause-Good :
        (b : Bool) (wait : Duration) (again : S → Run E S) (s : S)
        → Keep s
        → ((s' : S) → Keep s' → Good (again s'))
        → Good (in_pause b wait again s)
    unfolding in_pause once counted
    in_pause-Good true wait again s k h = k
    in_pause-Good false wait again s k h = h s k

    on_error-Good :
        (b : Bool) (e : E) (pauses : List Duration) (n : ℕ) (again : S → Run E S) (s : S)
        → Keep s
        → ((s' : S) → Keep s' → Good (again s'))
        → Good (on_error ctx fn is_retriable b e pauses n again s)
    unfolding on_error once
    on_error-Good false e pauses n again s k h = k
    on_error-Good true e [] n again s k h = k
    on_error-Good true e (wait ∷ rest) n again s k h =
        in_pause-Good (ctx.cancelled_in_pause n) wait again s k h

    on_result-Good :
        (r : Option E × S) (pauses : List Duration) (n : ℕ) (again : S → Run E S)
        → Tried r
        → ((s' : S) → Keep s' → Good (again s'))
        → Good (on_result ctx fn is_retriable r.0 pauses n again r.1)
    unfolding on_result once
    on_result-Good (none, s) pauses n again t h = t
    on_result-Good (some e, s) pauses n again t h =
        on_error-Good (is_retriable e) e pauses n again s t h

    on_start-Good :
        (b : Bool) (pauses : List Duration) (n : ℕ) (again : S → Run E S) (s : S)
        → Keep s
        → ((s' : S) → Keep s' → Good (again s'))
        → Good (on_start ctx fn is_retriable b pauses n again s)
    unfolding on_start none_made
    on_start-Good true pauses n again s k h = k
    on_start-Good false pauses n again s k h = on_result-Good (fn s) pauses n again (attempt s k) h

    attempts_from-Good :
        (pauses : List Duration) (n : ℕ) (s : S)
        → Keep s
        → Good (attempts_from ctx fn is_retriable pauses n s)
    unfolding attempts_from none_made
    attempts_from-Good [] n s k =
        on_start-Good (ctx.cancelled_before n) [] n (none_made {E = E}) s k (λ s' k'. k')
    attempts_from-Good (wait ∷ rest) n s k =
        on_start-Good (ctx.cancelled_before n) (wait ∷ rest) n
          (λ s'. attempts_from ctx fn is_retriable rest (suc n) s') s k
          (λ s' k'. attempts_from-Good rest (suc n) s' k')

  -- If every attempt from a world with `Keep` ends with `Done` where it succeeds, and with `Keep`
  -- where it fails, then so does the whole run.
  pub do_retry-Holds :
      (fn : S → Option E × S) (is_retriable : E → Bool) (pauses : List Duration) (s : S)
      → ((s' : S) → Keep s' → Tried (fn s'))
      → Keep s
      → let r = do_retry fn is_retriable pauses s in Holds r.outcome r.world
  unfolding do_retry do_context
  do_retry-Holds fn is_retriable pauses s attempt k =
      attempts_from-Good background fn is_retriable attempt pauses 0 s k
