-- ===== src/Config/Interval.antt =====
-- Which intervals of a file select the synchronous mode of the server.
use gometrics.Prelude.{ℕ, ◌+◌, ◌^◌, ◌<◌, String, none, some, ◌≡◌, ◌⊎◌, ◌↔◌, arith, subst, sym}
use gometrics.Config.{Outside, parse_interval, parse_store_interval, store_seconds, rounded_seconds}

small : (n : ℕ) → n < 2 ^ 64 → (rounded_seconds n ≡ 0) → (n < 500000000) ⊎ (2 ^ 64 < n + 500000000)
unfolding rounded_seconds
small n fits h = ground arith

rounded : (n : ℕ) → n < 2 ^ 64 → (n < 500000000) ⊎ (2 ^ 64 < n + 500000000) → rounded_seconds n ≡ 0
unfolding rounded_seconds
rounded n fits h = ground arith

by_duration :
    (d : ℕ) → d < 2 ^ 64 → (store_seconds d ≡ some 0) ↔ ((d ≡ 0) ⊎ (2 ^ 64 < d + 500000000))
by_duration d fits = ground (arith, small d fits, rounded d fits)

-- `ParseStoreInterval` on a text that reads as the duration `d` gives 0, which means that every write
-- is saved at once, exactly if `d` is 0 or lies less than half a second below 0.
pub parse_store_interval-sync :
    (os : Outside) (s : String) (d : ℕ)
    → d < 2 ^ 64
    → parse_interval os s ≡ some d
    → (parse_store_interval os s ≡ some 0) ↔ ((d ≡ 0) ⊎ (2 ^ 64 < d + 500000000))
unfolding parse_store_interval
parse_store_interval-sync os s d fits e =
    subst
      (λ o.
        (elim o [ none ↦ none | some x ↦ store_seconds x ] ≡ some 0)
        ↔ ((d ≡ 0) ⊎ (2 ^ 64 < d + 500000000)))
      (sym e) (by_duration d fits)
