-- ===== src/Tests/Pooling.antt =====
-- A run of a pool of numbers, where 0 is the clean one.
use gometrics.Prelude.{ℕ, none, some, List, [], ◌∷◌, ◌≡◌, refl}
use gometrics.Pool.{
  Action, put_object, get_object, write_object, make_object, start, get, run, System, new, act,
  allocate, put, get_found, make_new, taken, without,
}
use gometrics.Pool.Clean.{get-IsClean}
use gometrics.Pool.Owners.{IsClean, AllAllowed}

-- an object that its maker writes to, puts in and takes out again, and one that the pool makes
abbrev schedule : List (Action ℕ)
schedule =
    make_object 3
    ∷ write_object 0 5
    ∷ put_object (some 0)
    ∷ get_object (some 0)
    ∷ get_object none
    ∷ write_object 1 7
    ∷ put_object (some 1)
    ∷ []

abbrev begun : System ℕ
begun = start (some 0) (λ a. 9)

schedule-AllAllowed : AllAllowed (λ v. v ≡ 0) (λ v. 0) schedule begun
unfolding new act allocate put get get_found make_new taken without
schedule-AllAllowed = (tt, (refl, (refl, (tt, (tt, (refl, (refl, tt)))))))

get-IsClean_example :
    let s = run (λ v. 0) schedule begun in IsClean (λ v. v ≡ 0) s (get (some 0) s.pool)
get-IsClean_example =
    get-IsClean (λ v. v ≡ 0) (λ v. 0) (λ v. refl) (some 0) (λ a. 9) schedule (some 0) refl
      schedule-AllAllowed

-- the condition is needed: after a second `Put` of one object two users hold it, and a pointer that is
-- kept still writes to it
abbrev put_twice : List (Action ℕ)
put_twice =
    make_object 3
    ∷ put_object (some 0)
    ∷ put_object (some 0)
    ∷ get_object (some 0)
    ∷ write_object 0 42
    ∷ []

put_twice-dirty :
    let s = run (λ v. 0) put_twice begun in
    let (o, p) = get (some 0) s.pool in (o ≡ some 0) × (p.contents 0 ≡ 42)
unfolding new run act allocate put get get_found make_new taken without
put_twice-dirty = (refl, refl)
