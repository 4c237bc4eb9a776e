-- ===== src/Loadgen/Limit.antt =====
-- How many requests a worker alone makes, and what its numbers add up to.
use gometrics.Prelude.{
  ℕ, ◌+◌, ◌≤◌, ◌<◌, Bool, true, false, List, [], ◌∷◌, ◌≡◌, ◌⊎◌, refl, arith, if◌then◌else◌, inl,
  inr, subst, ◌∙◌,
}
use gometrics.Loadgen.{Config, Load, Tools, Choice, reached}
use gometrics.Loadgen.Phases.{do_request, work}
use gometrics.Loadgen.Requests.{kinds, Grown, do_request-Grown, below_limit}

module _ {S : Type 0} (t : Tools S) where
  -- the limit is not passed, but by the one request that a load begins with
  abbrev Within : ℕ → Load S → Type 0
  Within before l =
      ((l.counters.requests ≤ l.counters.limit) ⊎ (l.counters.requests ≤ before + 1))
      × ((l.cancelled ≡ true)
          ⊎ ((l.counters.requests < l.counters.limit) ⊎ (l.counters.requests ≤ before)))

  ends :
      (l : Load S) (before : ℕ)
      → (l.cancelled ≡ true) ⊎ (reached t l.counters ≡ false)
      → 0 < l.counters.limit
      → (l.cancelled ≡ true)
        ⊎ ((l.counters.requests < l.counters.limit) ⊎ (l.counters.requests ≤ before))
  ends l before (inl e) p = inl e
  ends l before (inr e) p = inr (inl (below_limit t l.counters p e))

  Within-step :
      (before : ℕ) (l l' : Load S)
      → 0 < l.counters.limit
      → l.cancelled ≡ false
      → Within before l
      → Grown t l l'
      → Within before l'
  Within-step before l l' p live (a, inl dead) (m, g) = cc (dead, live)
  Within-step before l l' p live (a, inr (inl lt)) (m, inl (n, k)) =
      (inl (omega arith), inr (inl (omega arith)))
  Within-step before l l' p live (a, inr (inr le)) (m, inl (n, k)) =
      (inr (omega arith), inr (inr (omega arith)))
  Within-step before l l' p live (a, inr (inl lt)) (m, inr (n, k, c)) =
      (inl (omega arith), ends l' before c (omega arith))
  Within-step before l l' p live (a, inr (inr le)) (m, inr (n, k, c)) =
      (inr (omega arith), ends l' before c (omega arith))

  work-Within :
      (cfg : Config) (choices : List Choice) (before : ℕ) (l : Load S)
      → 0 < l.counters.limit
      → Within before l
      → l.counters.requests ≤ kinds l.counters
      → let l' = work t cfg choices l in
        Within before l'
        × (l'.counters.requests ≤ kinds l'.counters)
        × (l'.counters.limit ≡ l.counters.limit)
  unfolding work
  work-Within cfg [] before l p w k = (w, k, refl)
  work-Within cfg (c ∷ choices) before l p w k =
      go l.cancelled refl (λ q w' k'. work-Within cfg choices before l' q w' k')
    where
      l' : Load S
      l' = do_request t cfg c l

      grown : Grown t l l'
      grown = do_request-Grown t cfg c l

      Final : Load S → Type 0
      Final x =
          Within before x
          × (x.counters.requests ≤ kinds x.counters)
          × (x.counters.limit ≡ l.counters.limit)

      counted : Grown t l l' → l'.counters.requests ≤ kinds l'.counters
      counted (m, inl (n, q)) = omega arith
      counted (m, inr (n, q, _)) = omega arith

      Again : Type 0
      Again =
          0 < l'.counters.limit
          → Within before l'
          → l'.counters.requests ≤ kinds l'.counters
          → let x = work t cfg choices l' in
            Within before x
            × (x.counters.requests ≤ kinds x.counters)
            × (x.counters.limit ≡ l'.counters.limit)

      go : (b : Bool) → l.cancelled ≡ b → Again → Final (if b then l else work t cfg choices l')
      go true e ih = (w, k, refl)
      go false e ih =
          let m = grown.0 in
          let (w', k', m') =
            ih (omega (arith, m, p)) (Within-step before l l' p e w grown) (counted grown) in
          (w', k', m' ∙ m)

  -- From a state in which the responses are at most the sum of the requests by kind: that stays so,
  -- whatever the network answers. With a limit above 0 the responses counted at the end are at most
  -- the limit, or at most one more than there were before: those of the seeding count too.
  pub work-limit :
      (cfg : Config) (choices : List Choice) (before : ℕ) (l : Load S)
      → 0 < l.counters.limit
      → l.counters.requests ≤ before
      → l.counters.requests ≤ kinds l.counters
      → let c = (work t cfg choices l).counters in
        ((c.requests ≤ l.counters.limit) ⊎ (c.requests ≤ before + 1)) × (c.requests ≤ kinds c)
  work-limit cfg choices before l p h k =
      let ((a, _), q, m) = work-Within cfg choices before l p (inr (omega arith), inr (inr h)) k in
      (
        subst
            (λ n.
              ((work t cfg choices l).counters.requests ≤ n)
              ⊎ ((work t cfg choices l).counters.requests ≤ before + 1))
            m a,
        q,
      )
