-- ===== src/Pool.antt =====
-- internal/pool/pool.go: `Pool[T]` for a pointer type `T`. Objects lie in a memory, and what is put in,
-- taken out and kept by the users are their addresses, so that a user who keeps a pointer after `Put`
-- still writes to the object in the pool. Of `sync.Pool` nothing is known but that `Get` takes out one
-- of the objects that were put in, or makes a new one, and that objects may vanish at any time.
pub mod Owners
pub mod Clean
use gometrics.Prelude.{
  ℕ, zero, suc, Bool, true, false, Option, none, some, List, [], ◌∷◌, eqb, if◌then◌else◌,
}

abbrev pub Address : Type 0
Address = ℕ

-- what `sync.Pool` holds, what an object is that its `New` makes, `none` where `newFn` is nil, and the
-- memory: the contents at each address, and the first address that was never used
pub record Pool (T : Type 0) : Type 0 where
  pub items : List Address
  pub fresh : Option T
  pub contents : Address → T
  pub next : Address

abbrev pub set_at : {V : Type 0} → Address → V → (Address → V) → Address → V
set_at a v f b = if eqb b a then v else f b

-- the list without its element number `i`
unfoldable pub without : {V : Type 0} → ℕ → List V → List V
without i [] = []
without zero (x ∷ xs) = xs
without (suc i) (x ∷ xs) = x ∷ without i xs

-- the element at a place that `sync.Pool` chose
unfoldable pub taken : {V : Type 0} → ℕ → List V → Option V
taken i [] = none
taken zero (x ∷ xs) = some x
taken (suc i) (x ∷ xs) = taken i xs

-- A step of a user of the pool, who may also write to an object and make one without the pool; or of
-- the garbage collector.
pub data Action (T : Type 0) : Type 0 where
  put_object : Option Address → Action T
  get_object : Option ℕ → Action T
  write_object : Address → T → Action T
  make_object : T → Action T
  vanish : ℕ → Action T

-- The pool, and which objects the users hold: those that they were given by `Get` or made themselves,
-- and did not put in since.
pub record System (T : Type 0) : Type 0 where
  pub pool : Pool T
  pub held : Address → Bool

abbrev pub hold : Option Address → Bool → (Address → Bool) → Address → Bool
hold none b held = held
hold (some a) b held = set_at a b held

module _ {T : Type 0} where
  -- `New`, in a memory of unused objects
  unfoldable pub new : Option T → (Address → T) → Pool T
  new fresh contents = record { items = []; fresh = fresh; contents = contents; next = 0 }

  -- a new pool, and nobody holds an object
  abbrev pub start : Option T → (Address → T) → System T
  start fresh contents = record { pool = new fresh contents; held = λ a. false }

  unfoldable pub allocate : T → Pool T → Pool T
  allocate v p = record p { contents = set_at p.next v p.contents; next = suc p.next }

  -- `sync.Pool` calls `New`, if there is one
  unfoldable pub make_new : Option T → Pool T → Option Address × Pool T
  unfolding allocate
  make_new none p = (none, p)
  make_new (some v) p = (some p.next, allocate v p)

  unfoldable pub get_found : ℕ → Option Address → Pool T → Option Address × Pool T
  unfolding make_new
  get_found i none p = make_new p.fresh p
  get_found i (some a) p = (some a, record p { items = without i p.items })

  -- `Get`; at the choice `none` nothing was found
  unfoldable pub get : Option ℕ → Pool T → Option Address × Pool T
  unfolding get_found
  get none p = make_new p.fresh p
  get (some i) p = get_found i (taken i p.items) p

  module _ (reset : T → T) where
    -- `Put`, which ignores nil; `Reset` writes through the pointer
    unfoldable pub put : Option Address → Pool T → Pool T
    put none p = p
    put (some a) p = record p {
      contents = set_at a (reset (p.contents a)) p.contents;
      items = a ∷ p.items;
    }

    unfoldable pub act : Action T → System T → System T
    unfolding get put allocate
    act (put_object o) s = record { pool = put o s.pool; held = hold o false s.held }
    act (get_object choice) s =
        let (o, p) = get choice s.pool in record { pool = p; held = hold o true s.held }
    act (write_object a v) s = record s {
      pool = record s.pool { contents = set_at a v s.pool.contents };
    }
    act (make_object v) s = record {
      pool = allocate v s.pool;
      held = set_at s.pool.next true s.held;
    }
    act (vanish i) s = record s { pool = record s.pool { items = without i s.pool.items } }

    unfoldable pub run : List (Action T) → System T → System T
    unfolding act
    run [] s = s
    run (a ∷ schedule) s = run schedule (act a s)
