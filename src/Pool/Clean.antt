-- ===== src/Pool/Clean.antt =====
-- No user of a pool sees what another one left in an object, as long as each keeps to the objects that
-- he holds.
use gometrics.Prelude.{
  ℕ, suc, ◌<◌, Bool, true, false, Option, none, some, List, [], ◌∷◌, ◌≡◌, refl, subst, sym, arith,
  Bool-cases, inl, inr,
}
use gometrics.Pool.{
  Address, Pool, Action, put_object, get_object, write_object, make_object, vanish, System, new,
  get, put, act, run, without, taken, set_at, allocate, make_new, get_found, start, hold, hold,
  start,
}
use gometrics.Pool.Owners.{
  set_at-same, set_at-other, without-All, taken-All, without-Distinct, taken-Apart, IsAllowed,
  AllAllowed, MakesClean, Free, IsValid, IsClean, held-Apart, next-Apart, still-Free, used-set_at,
}

irrefl : {n : ℕ} → ¬ (n < n)
irrefl = omega arith

module _ {T : Type 0} (Clean : T → Type 0) where
  abbrev with_pool : Pool T → (Address → Bool) → System T
  with_pool p held = record { pool = p; held = held }

  -- a new object, which its maker holds
  allocate-IsValid :
      (v : T) (s : System T)
      → IsValid Clean s
      → IsValid Clean (with_pool (allocate v s.pool) (set_at s.pool.next true s.held))
  unfolding allocate
  allocate-IsValid v s h = record {
    free =
        still-Free Clean s (with_pool (allocate v s.pool) (set_at s.pool.next true s.held))
          s.pool.next s.pool.items h.free (next-Apart Clean s _ h.free)
          (λ x e. set_at-other s.pool.next x true s.held e)
          (λ x e. set_at-other s.pool.next x v s.pool.contents e) (omega arith);
    distinct = h.distinct;
    used =
        used-set_at Clean s.held s.pool.next (suc s.pool.next) s.pool.next true h.used (omega arith)
          (omega arith);
    makes = h.makes;
  }

  -- an item that is taken out
  taken-IsValid :
      (i : ℕ) (a : Address) (s : System T)
      → IsValid Clean s
      → taken i s.pool.items ≡ some a
      → IsValid Clean
          (with_pool (record s.pool { items = without i s.pool.items }) (set_at a true s.held))
  taken-IsValid i a s h e =
      let (free, lt, c) = taken-All (Free Clean s) i s.pool.items a h.free e in
      record {
        free =
            still-Free Clean s
              (with_pool (record s.pool { items = without i s.pool.items }) (set_at a true s.held))
              a _ (without-All (Free Clean s) i _ h.free) (taken-Apart i _ a h.distinct e)
              (λ x e. set_at-other a x true s.held e) (λ x e. refl) (omega arith);
        distinct = without-Distinct i _ h.distinct;
        used = used-set_at Clean s.held s.pool.next s.pool.next a true h.used (omega arith) lt;
        makes = h.makes;
      }

  abbrev after_get : System T → Option Address × Pool T → System T
  after_get s (o, p) = with_pool p (hold o true s.held)

  -- a clean object that nobody held, or nil, and a valid system
  abbrev IsGot : System T → Option Address × Pool T → Type 0
  IsGot s r = IsClean Clean s r × IsValid Clean (after_get s r)

  next-unheld : (s : System T) → IsValid Clean s → s.held s.pool.next ≡ false
  next-unheld s h = elim (Bool-cases (s.held s.pool.next)) [
    | inl held ↦ let lt : s.pool.next < s.pool.next = h.used _ held in elim (irrefl lt) [ ]
    | inr free ↦ free
  ]

  make_new-IsGot :
      (o : Option T) (s : System T)
      → IsValid Clean s
      → s.pool.fresh ≡ o
      → IsGot s (make_new o s.pool)
  unfolding make_new allocate
  make_new-IsGot none s h e = (e, h)
  make_new-IsGot (some v) s h e = (
    (
      subst Clean (sym (set_at-same s.pool.next v s.pool.contents))
          (subst (MakesClean Clean) e h.makes),
      next-unheld s h,
    ),
    allocate-IsValid v s h,
  )

  get_found-IsGot :
      (i : ℕ) (o : Option Address) (s : System T)
      → IsValid Clean s
      → taken i s.pool.items ≡ o
      → IsGot s (get_found i o s.pool)
  unfolding get_found
  get_found-IsGot i none s h e = make_new-IsGot s.pool.fresh s h refl
  get_found-IsGot i (some a) s h e =
      let (free, lt, c) = taken-All (Free Clean s) i s.pool.items a h.free e in
      ((c, free), taken-IsValid i a s h e)

  get-IsGot : (choice : Option ℕ) (s : System T) → IsValid Clean s → IsGot s (get choice s.pool)
  unfolding get
  get-IsGot none s h = make_new-IsGot s.pool.fresh s h refl
  get-IsGot (some i) s h = get_found-IsGot i (taken i s.pool.items) s h refl

  module _ (reset : T → T) (resets : (v : T) → Clean (reset v)) where
    put-IsValid :
        (o : Option Address) (s : System T)
        → IsValid Clean s
        → IsAllowed Clean (put_object o) s
        → IsValid Clean (with_pool (put reset o s.pool) (hold o false s.held))
    unfolding put
    put-IsValid none s h mine = h
    put-IsValid (some a) s h mine =
        let apart = held-Apart Clean s a _ mine h.free in
        let v = reset (s.pool.contents a) in
        record {
          free = (
            (
              set_at-same a false s.held,
              h.used a mine,
              subst Clean (sym (set_at-same a v s.pool.contents)) (resets _),
            ),
            still-Free Clean s (with_pool (put reset (some a) s.pool) (set_at a false s.held)) a _
                h.free apart (λ x e. set_at-other a x false s.held e)
                (λ x e. set_at-other a x v s.pool.contents e) (omega arith),
          );
          distinct = (apart, h.distinct);
          used =
              used-set_at Clean s.held s.pool.next s.pool.next a false h.used (omega arith)
                (h.used a mine);
          makes = h.makes;
        }

    act-IsValid :
        (a : Action T) (s : System T)
        → IsValid Clean s
        → IsAllowed Clean a s
        → IsValid Clean (act reset a s)
    unfolding act
    act-IsValid (put_object o) s h ok = put-IsValid o s h ok
    act-IsValid (get_object choice) s h ok = (get-IsGot choice s h).1
    act-IsValid (write_object a v) s h ok = record {
      free =
          still-Free Clean s (act reset (write_object a v) s) a _ h.free
            (held-Apart Clean s a _ ok h.free) (λ x e. refl)
            (λ x e. set_at-other a x v s.pool.contents e) (omega arith);
      distinct = h.distinct;
      used = h.used;
      makes = h.makes;
    }
    act-IsValid (make_object v) s h ok = allocate-IsValid v s h
    act-IsValid (vanish i) s h ok = record {
      free = without-All (Free Clean s) i _ h.free;
      distinct = without-Distinct i _ h.distinct;
      used = h.used;
      makes = h.makes;
    }

    run-IsValid :
        (schedule : List (Action T)) (s : System T)
        → IsValid Clean s
        → AllAllowed Clean reset schedule s
        → IsValid Clean (run reset schedule s)
    unfolding run
    run-IsValid [] s h ok = h
    run-IsValid (a ∷ schedule) s h (ok, oks) =
        run-IsValid schedule (act reset a s) (act-IsValid a s h ok) oks

    -- Users put objects in, take them out, make some by themselves and write to them in any order, and
    -- keep to this: they put in and write to only what they hold, and give up what they put in. Then,
    -- whichever object the pool picks: if `Reset` leaves every object clean, and so is the one that
    -- the pool makes, `Get` returns a clean object that nobody else holds, or nil, only where the pool
    -- makes none.
    pub get-IsClean :
        (fresh : Option T) (contents : Address → T) (schedule : List (Action T)) (choice : Option ℕ)
        → MakesClean Clean fresh
        → AllAllowed Clean reset schedule (start fresh contents)
        → let s = run reset schedule (start fresh contents) in IsClean Clean s (get choice s.pool)
    unfolding new
    get-IsClean fresh contents schedule choice makes ok =
        (get-IsGot choice _ (run-IsValid schedule (start fresh contents) valid ok)).0
      where
        valid : IsValid Clean (start fresh contents)
        valid = record { free = tt; distinct = tt; used = λ a e. cc e; makes = makes }
