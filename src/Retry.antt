-- ===== src/Retry.antt =====
-- internal/retry/retry.go. The operation is `fn : S → Option E × S` over the world `S` that it reads
-- and changes. The context is a parameter too: what `ctx.Err()` says before each attempt, and whether
-- the context or the timer ends the pause after it.

pub mod Laws
pub mod Keeps
use gometrics.Prelude.{ℕ, zero, suc, ◌+◌, Bool, true, false, Option, none, some, List, [], ◌∷◌}

-- a pause, in milliseconds
abbrev pub Duration : Type 0
Duration = ℕ

-- the package variable `Intervals`
abbrev pub intervals : List Duration
intervals = 1000 ∷ 3000 ∷ 5000 ∷ []

-- How `DoContext` returns: nil, the error of the last attempt, or the error of the context.
pub data Outcome (E : Type 0) : Type 0 where
  success : Outcome E
  failed : E → Outcome E
  stopped : Outcome E

-- A run: how it returned, the world after it, the attempts made, and the pauses waited in full.
pub record Run (E S : Type 0) : Type 0 where
  pub outcome : Outcome E
  pub world : S
  pub attempts : ℕ
  pub waited : List Duration

-- What the context does around attempt n: cancelled before it, or during the pause after it.
pub record Context : Type 0 where
  pub cancelled_before : ℕ → Bool
  pub cancelled_in_pause : ℕ → Bool

-- `context.Background()` is never cancelled
abbrev pub background : Context
background = record { cancelled_before = λ n. false; cancelled_in_pause = λ n. false }

module _ {E S : Type 0} where
  once : Outcome E → S → Run E S
  once o s = record { outcome = o; world = s; attempts = 1; waited = [] }

  none_made : S → Run E S
  none_made s = record { outcome = stopped; world = s; attempts = 0; waited = [] }

  counted : Duration → Run E S → Run E S
  counted wait r = record r { attempts = suc r.attempts; waited = wait ∷ r.waited }

  -- the `select` of the pause: did the context end it?
  in_pause : Bool → Duration → (S → Run E S) → S → Run E S
  in_pause true wait again s = once stopped s
  in_pause false wait again s = counted wait (again s)

  module _ (ctx : Context) (fn : S → Option E × S) (is_retriable : E → Bool) where
    -- after a failed attempt `n`; no pause is left where `attempt >= len(Intervals)`
    on_error : Bool → E → List Duration → ℕ → (S → Run E S) → S → Run E S
    unfolding in_pause
    on_error false e pauses n again s = once (failed e) s
    on_error true e [] n again s = once (failed e) s
    on_error true e (wait ∷ rest) n again s = in_pause (ctx.cancelled_in_pause n) wait again s

    on_result : Option E → List Duration → ℕ → (S → Run E S) → S → Run E S
    unfolding on_error
    on_result none pauses n again s = once success s
    on_result (some e) pauses n again s = on_error (is_retriable e) e pauses n again s

    on_start : Bool → List Duration → ℕ → (S → Run E S) → S → Run E S
    unfolding on_result
    on_start true pauses n again s = none_made s
    on_start false pauses n again s = let (err, s') = fn s in on_result err pauses n again s'

    -- The loop from attempt `n` on, with the pauses that are left; with none left it does not go round.
    unfoldable pub attempts_from : List Duration → ℕ → S → Run E S
    unfolding on_start once none_made counted
    attempts_from [] n s = on_start (ctx.cancelled_before n) [] n none_made s
    attempts_from (wait ∷ rest) n s =
        on_start (ctx.cancelled_before n) (wait ∷ rest) n (λ s'. attempts_from rest (suc n) s') s

    -- `DoContext`
    unfoldable pub do_context : List Duration → S → Run E S
    unfolding attempts_from
    do_context pauses s = attempts_from pauses 0 s

  -- `Do`
  unfoldable pub do_retry : (S → Option E × S) → (E → Bool) → List Duration → S → Run E S
  unfolding do_context
  do_retry fn is_retriable pauses s = do_context background fn is_retriable pauses s
