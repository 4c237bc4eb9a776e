-- ===== src/Pool/Owners.antt =====
-- Who holds which object of a pool, and what stays so when something is done to one object.
use gometrics.Prelude.{
  ℕ, zero, suc, ◌<◌, Bool, true, false, Option, none, some, List, [], ◌∷◌, ◌≡◌, refl, inl, inr, All,
  ◌∙◌, subst, sym, eqb, eqb_iff, Bool-cases, arith, ◌≤◌,
}
use mathlib.Core.Option.{some-injective}
use gometrics.Pool.{
  Address, Pool, Action, put_object, write_object, System, act, without, taken, set_at,
}

-- the addresses `l` are not `a`, nor twice in the list
abbrev pub Apart : Address → List Address → Type 0
Apart a l = All (λ b. eqb b a ≡ false) l

abbrev pub Distinct : List Address → Type 0
Distinct [] = Unit
Distinct (a ∷ l) = Apart a l × Distinct l

module _ {V : Type 0} where
  pub set_at-same : (a : Address) (v : V) (f : Address → V) → set_at a v f a ≡ v
  set_at-same a v f = rw ((eqb_iff a a).1 refl) refl

  pub set_at-other :
      (a b : Address) (v : V) (f : Address → V) → eqb b a ≡ false → set_at a v f b ≡ f b
  set_at-other a b v f e = rw e refl

  pub without-All : (P : V → Type 0) (i : ℕ) (l : List V) → All P l → All P (without i l)
  unfolding without
  without-All P i [] h = tt
  without-All P zero (x ∷ xs) (c, h) = h
  without-All P (suc i) (x ∷ xs) (c, h) = (c, without-All P i xs h)

  pub taken-All : (P : V → Type 0) (i : ℕ) (l : List V) (x : V) → All P l → taken i l ≡ some x → P x
  unfolding taken
  taken-All P i [] x h e = cc e
  taken-All P zero (y ∷ l) x (p, h) e = subst P (some-injective _ _ e) p
  taken-All P (suc i) (y ∷ l) x (p, h) e = taken-All P i l x h e

  All-weaken :
      (P Q R : V → Type 0) (l : List V) → All P l → All Q l → ((x : V) → P x → Q x → R x) → All R l
  All-weaken P Q R [] h k f = tt
  All-weaken P Q R (x ∷ l) (p, h) (q, k) f = (f x p q, All-weaken P Q R l h k f)

apart_sym : (a b : Address) → eqb a b ≡ false → eqb b a ≡ false
apart_sym a b e = elim (Bool-cases (eqb b a)) [
  | inl same ↦ cc (e, (eqb_iff a b).1 (sym ((eqb_iff b a).0 same)))
  | inr other ↦ other
]

apart_below : (a b : Address) → b < a → eqb b a ≡ false
apart_below a b lt = ground arith

pub without-Distinct : (i : ℕ) (l : List Address) → Distinct l → Distinct (without i l)
unfolding without
without-Distinct i [] h = tt
without-Distinct zero (x ∷ xs) (c, h) = h
without-Distinct (suc i) (x ∷ xs) (c, h) =
    (without-All (λ b. eqb b x ≡ false) i xs c, without-Distinct i xs h)

-- the element that is taken out is not among the others
pub taken-Apart :
    (i : ℕ) (l : List Address) (a : Address)
    → Distinct l
    → taken i l ≡ some a
    → Apart a (without i l)
unfolding without taken
taken-Apart i [] a h e = tt
taken-Apart zero (x ∷ l) a (c, h) e = subst (λ y. Apart y l) (some-injective _ _ e) c
taken-Apart (suc i) (x ∷ l) a (c, h) e =
    (apart_sym a x (taken-All (λ b. eqb b x ≡ false) i l a c e), taken-Apart i l a h e)

module _ {T : Type 0} (Clean : T → Type 0) where
  -- What a user may do: put in or write to an object only as long as he holds it, and with that give
  -- it up when he puts it in.
  abbrev pub IsAllowed : Action T → System T → Type 0
  IsAllowed (put_object none) s = Unit
  IsAllowed (put_object (some a)) s = s.held a ≡ true
  IsAllowed (write_object a v) s = s.held a ≡ true
  IsAllowed _ s = Unit

  abbrev pub AllAllowed : (T → T) → List (Action T) → System T → Type 0
  AllAllowed reset [] s = Unit
  AllAllowed reset (a ∷ schedule) s = IsAllowed a s × AllAllowed reset schedule (act reset a s)

  abbrev pub MakesClean : Option T → Type 0
  MakesClean none = Unit
  MakesClean (some v) = Clean v

  -- an object that is used, by nobody, and clean
  abbrev pub Free : System T → Address → Type 0
  Free s a = (s.held a ≡ false) × (a < s.pool.next) × Clean (s.pool.contents a)

  pub record IsValid (s : System T) : Type 0 where
    pub free : All (Free s) s.pool.items
    pub distinct : Distinct s.pool.items
    pub used : (a : Address) → s.held a ≡ true → a < s.pool.next
    pub makes : MakesClean s.pool.fresh

  -- What `Get` returns: a clean object that nobody else holds, or nil where the pool makes no objects.
  abbrev pub IsClean : System T → Option Address × Pool T → Type 0
  IsClean s (none, p) = s.pool.fresh ≡ none
  IsClean s (some a, p) = Clean (p.contents a) × (s.held a ≡ false)

  -- what the users hold is not among the items
  pub held-Apart :
      (s : System T) (a : Address) (l : List Address) → s.held a ≡ true → All (Free s) l → Apart a l
  held-Apart s a [] h f = tt
  held-Apart s a (b ∷ l) h ((free, lt, c), f) = (
    elim (Bool-cases (eqb b a)) [
      | inl same ↦ let e : b ≡ a = (eqb_iff b a).0 same in cc (e, h, free)
      | inr other ↦ other
    ],
    held-Apart s a l h f,
  )

  -- nor is the next address
  pub next-Apart : (s : System T) (l : List Address) → All (Free s) l → Apart s.pool.next l
  next-Apart s [] f = tt
  next-Apart s (b ∷ l) ((free, lt, c), f) = (apart_below s.pool.next b lt, next-Apart s l f)

  -- the other objects stay free when something is done to `a`
  pub still-Free :
      (s s' : System T) (a : Address) (l : List Address)
      → All (Free s) l
      → Apart a l
      → ((x : Address) → eqb x a ≡ false → s'.held x ≡ s.held x)
      → ((x : Address) → eqb x a ≡ false → s'.pool.contents x ≡ s.pool.contents x)
      → s.pool.next ≤ s'.pool.next
      → All (Free s') l
  still-Free s s' a l f apart held contents le =
      All-weaken (Free s) (λ x. eqb x a ≡ false) (Free s') l f apart
        (λ x (free, lt, c) e.
          (held x e ∙ free, omega (arith, lt, le), subst Clean (sym (contents x e)) c))

  pub used-set_at :
      (held : Address → Bool) (next n a : Address) (b : Bool)
      → ((x : Address) → held x ≡ true → x < next)
      → next ≤ n
      → a < n
      → (x : Address) → set_at a b held x ≡ true
      → x < n
  used-set_at held next n a b used le lt x h = elim (Bool-cases (eqb x a)) [
    | inl same ↦ let e : x ≡ a = (eqb_iff x a).0 same in omega (arith, e, lt)
    | inr other ↦ omega (arith, used x (sym (set_at-other a x b held other) ∙ h), le)
  ]
