-- ===== src/Retry/Laws.antt =====
-- What a run of retries has done, on every way out.
use native.Mathlib.Nat.{add-zero}
use gometrics.Prelude.{
  ℕ, zero, suc, ◌+◌, ◌≤◌, ◌<◌, ◌≡◌, ◌⊎◌, refl, Bool, true, false, Option, none, some, List, [], ◌∷◌,
  arith, length, ap, ◌++◌, inl, inr, subst,
}
use mathlib.Core.List.{tail}
use gometrics.Retry.{
  Duration, Outcome, success, failed, stopped, Run, Context, attempts_from, do_context, none_made,
  once, counted, on_error, on_start, in_pause, on_result,
}

module _ {E S : Type 0} (ctx : Context) (fn : S → Option E × S) (is_retriable : E → Bool) where
  -- the world after `k` attempts, whatever they returned
  abbrev pub iterate : ℕ → S → S
  iterate zero s = s
  iterate (suc k) s = iterate k (fn s).1

  -- The way out from attempt `n` on, by the outcome: the last attempt returned nil; or it returned
  -- this error, which is not retriable unless the pauses are used up; or the context was cancelled.
  abbrev pub Ends : List Duration → ℕ → S → ℕ → Outcome E → Type 0
  Ends pauses n s made success = (k : ℕ) × (made ≡ suc k) × ((fn (iterate k s)).0 ≡ none)
  Ends pauses n s made (failed e) =
      (k : ℕ) × (made ≡ suc k)
      × ((fn (iterate k s)).0 ≡ some e)
      × ((is_retriable e ≡ false) ⊎ (k ≡ length pauses))
  Ends pauses n s made stopped =
      (ctx.cancelled_before (n + made) ≡ true)
      ⊎ ((k : ℕ) × (made ≡ suc k) × (ctx.cancelled_in_pause (n + k) ≡ true))

  pub record IsCorrect (pauses : List Duration) (n : ℕ) (s : S) (r : Run E S) : Type 0 where
    pub bounded : r.attempts ≤ suc (length pauses)
    pub world : r.world ≡ iterate r.attempts s
    pub ends : Ends pauses n s r.attempts r.outcome
    pub retried :
        (i : ℕ)
        → suc i < r.attempts
        → (e : E) × ((fn (iterate i s)).0 ≡ some e) × (is_retriable e ≡ true)
    pub paused : (rest : List Duration) × (r.waited ++ rest ≡ pauses)
    pub between : r.attempts ≤ suc (length r.waited)

  none_made-IsCorrect :
      (pauses : List Duration) (n : ℕ) (s : S)
      → ctx.cancelled_before n ≡ true
      → IsCorrect pauses n s (none_made s)
  unfolding none_made
  none_made-IsCorrect pauses n s h = record {
    bounded = omega arith;
    world = refl;
    ends = inl (rw add-zero h);
    retried = λ i lt. absurd (omega arith);
    paused = (pauses, refl);
    between = omega arith;
  }

  once-IsCorrect :
      (pauses : List Duration) (n : ℕ) (s : S) (o : Outcome E)
      → Ends pauses n s 1 o
      → IsCorrect pauses n s (once o (fn s).1)
  unfolding once
  once-IsCorrect pauses n s o h = record {
    bounded = omega arith;
    world = refl;
    ends = h;
    retried = λ i lt. absurd (omega arith);
    paused = (pauses, refl);
    between = omega arith;
  }

  Ends-counted :
      (wait : Duration) (rest : List Duration) (n : ℕ) (s : S) (made : ℕ) (o : Outcome E)
      → Ends rest (suc n) (fn s).1 made o
      → Ends (wait ∷ rest) n s (suc made) o
  Ends-counted wait rest n s made success (k, p, q) = (suc k, ap suc p, q)
  Ends-counted wait rest n s made (failed e) (k, p, q, inl h) = (suc k, ap suc p, q, inl h)
  Ends-counted wait rest n s made (failed e) (k, p, q, inr h) = (suc k, ap suc p, q, inr (ap suc h))
  Ends-counted wait rest n s made stopped (inl h) =
      inl (subst (λ m. ctx.cancelled_before m ≡ true) (omega arith) h)
  Ends-counted wait rest n s made stopped (inr (k, p, h)) =
      inr (suc k, ap suc p, subst (λ m. ctx.cancelled_in_pause m ≡ true) (omega arith) h)

  counted-IsCorrect :
      (wait : Duration) (rest : List Duration) (n : ℕ) (s : S) (e : E) (r : Run E S)
      → (fn s).0 ≡ some e
      → is_retriable e ≡ true
      → IsCorrect rest (suc n) (fn s).1 r
      → IsCorrect (wait ∷ rest) n s (counted wait r)
  unfolding counted
  counted-IsCorrect wait rest n s e r erred retry h = record {
    bounded = omega arith;
    world = h.world;
    ends = Ends-counted wait rest n s r.attempts r.outcome h.ends;
    retried = earlier;
    paused = (h.paused.0, ap (λ l. wait ∷ l) h.paused.1);
    between = omega arith;
  }
    where
      earlier :
          (i : ℕ)
          → suc i < suc r.attempts
          → (e : E) × ((fn (iterate i s)).0 ≡ some e) × (is_retriable e ≡ true)
      earlier zero lt = (e, erred, retry)
      earlier (suc i) lt = h.retried i (omega arith)

  -- one attempt with its pause, from the correctness of the rounds after it
  on_error-IsCorrect :
      (b : Bool) (e : E) (pauses : List Duration) (n : ℕ) (s : S) (again : S → Run E S)
      → is_retriable e ≡ b
      → (fn s).0 ≡ some e
      → ((wait : Duration) (rest : List Duration)
          → pauses ≡ wait ∷ rest
          → IsCorrect rest (suc n) (fn s).1 (again (fn s).1))
      → IsCorrect pauses n s (on_error ctx fn is_retriable b e pauses n again (fn s).1)
  unfolding on_error
  on_error-IsCorrect false e pauses n s again r f later =
      once-IsCorrect pauses n s (failed e) (0, refl, f, inl r)
  on_error-IsCorrect true e [] n s again r f later =
      once-IsCorrect [] n s (failed e) (0, refl, f, inr refl)
  on_error-IsCorrect true e (wait ∷ rest) n s again r f later = go (ctx.cancelled_in_pause n) refl
    where
      go :
          (c : Bool)
          → ctx.cancelled_in_pause n ≡ c
          → IsCorrect (wait ∷ rest) n s (in_pause c wait again (fn s).1)
      go true h =
          once-IsCorrect (wait ∷ rest) n s stopped
            (inr (0, refl, subst (λ m. ctx.cancelled_in_pause m ≡ true) (omega arith) h))
      go false h = counted-IsCorrect wait rest n s e (again (fn s).1) f r (later wait rest refl)

  on_start-IsCorrect :
      (b : Bool) (pauses : List Duration) (n : ℕ) (s : S) (again : S → Run E S)
      → ctx.cancelled_before n ≡ b
      → ((wait : Duration) (rest : List Duration)
          → pauses ≡ wait ∷ rest
          → IsCorrect rest (suc n) (fn s).1 (again (fn s).1))
      → IsCorrect pauses n s (on_start ctx fn is_retriable b pauses n again s)
  unfolding on_start
  on_start-IsCorrect true pauses n s again h later = none_made-IsCorrect pauses n s h
  on_start-IsCorrect false pauses n s again h later = go (fn s).0 refl
    where
      go :
          (o : Option E)
          → (fn s).0 ≡ o
          → IsCorrect pauses n s (on_result ctx fn is_retriable o pauses n again (fn s).1)
      go none f = once-IsCorrect pauses n s success (0, refl, f)
      go (some e) f = on_error-IsCorrect (is_retriable e) e pauses n s again refl f later

  attempts_from-IsCorrect :
      (pauses : List Duration) (n : ℕ) (s : S)
      → IsCorrect pauses n s (attempts_from ctx fn is_retriable pauses n s)
  unfolding attempts_from
  attempts_from-IsCorrect [] n s =
      on_start-IsCorrect (ctx.cancelled_before n) [] n s _ refl (λ wait rest p. cc)
  attempts_from-IsCorrect (wait ∷ rest) n s =
      on_start-IsCorrect (ctx.cancelled_before n) (wait ∷ rest) n s
        (λ s'. attempts_from ctx fn is_retriable rest (suc n) s') refl
        (λ w r p.
          subst
            (λ l.
              IsCorrect l (suc n) (fn s).1
                (attempts_from ctx fn is_retriable rest (suc n) (fn s).1))
            (ap tail p) (attempts_from-IsCorrect rest (suc n) (fn s).1))

  -- However the operation and the context behave: at most one attempt more than there are pauses is
  -- made, and at most one attempt more than pauses were waited in full, which are the first ones of
  -- the list in their order; the world is that of the attempts made; every attempt before the last
  -- failed with a retriable error; the outcome is nil only if the last attempt returned nil, and an
  -- error is the last attempt's, not retriable unless all pauses are used up; the run is stopped only
  -- if the context was cancelled before the next attempt or in the pause after the last one.
  pub do_context-IsCorrect :
      (pauses : List Duration) (s : S)
      → IsCorrect pauses 0 s (do_context ctx fn is_retriable pauses s)
  unfolding do_context
  do_context-IsCorrect pauses s = attempts_from-IsCorrect pauses 0 s

module _ {E S : Type 0} (ctx : Context) (fn : S → Option E × S) (is_retriable : E → Bool) where
  -- an attempt that succeeds is the only one
  pub do_context-success :
      (pauses : List Duration) (s s' : S)
      → ctx.cancelled_before 0 ≡ false
      → fn s ≡ (none, s')
      → do_context ctx fn is_retriable pauses s
        ≡ record { outcome = success; world = s'; attempts = 1; waited = [] }
  unfolding do_context attempts_from on_start on_result once
  do_context-success [] s s' live e = rw (live, e) refl
  do_context-success (wait ∷ rest) s s' live e = rw (live, e) refl

  -- and so is one that fails for good
  pub do_context-failed :
      (pauses : List Duration) (s s' : S) (x : E)
      → ctx.cancelled_before 0 ≡ false
      → fn s ≡ (some x, s')
      → is_retriable x ≡ false
      → do_context ctx fn is_retriable pauses s
        ≡ record { outcome = failed x; world = s'; attempts = 1; waited = [] }
  unfolding do_context attempts_from on_start on_result on_error once
  do_context-failed [] s s' x live e n = rw (live, e, n) refl
  do_context-failed (wait ∷ rest) s s' x live e n = rw (live, e, n) refl
