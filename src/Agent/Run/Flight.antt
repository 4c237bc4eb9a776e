-- ===== src/Agent/Run/Flight.antt =====
-- Lists of workers, when one of them takes a step.
use mathlib.Core.List.{Perm}
use mathlib.Core.List.Perm
use mathlib.Core.Option.{none-ne-some, some-injective}
use gometrics.Prelude.{
  ℕ, zero, suc, Bool, true, false, List, [], ◌∷◌, ◌≡◌, ◌⊎◌, inl, inr, refl, arith, length,
  get_elem?, set_at, total, some, ◌||◌, ap, subst, ◌<◌, sym,
}
use gometrics.Agent.Queue.{Batch}
use gometrics.Agent.Run.{Worker, receiving, sending, exited, is_exited, all_exited}

-- the batches that are being sent
abbrev pub in_flight : List Worker → List Batch
in_flight [] = []
in_flight (sending b ∷ ws) = b ∷ in_flight ws
in_flight (_ ∷ ws) = in_flight ws

abbrev pub any_exited : List Worker → Bool
any_exited [] = false
any_exited (w ∷ ws) = is_exited w || any_exited ws

-- a worker that receives a batch, and one that has handed it over
pub in_flight-receive :
    (ws : List Worker) (i : ℕ) (b : Batch)
    → get_elem? ws i ≡ some receiving
    → Perm (in_flight (set_at ws i (sending b))) (b ∷ in_flight ws)
in_flight-receive [] i b e = absurd (none-ne-some _ e)
in_flight-receive (x ∷ ws) zero b e =
    subst (λ x. Perm (b ∷ in_flight ws) (b ∷ in_flight (x ∷ ws))) (sym (some-injective _ _ e))
      (Perm.refl (b ∷ in_flight ws))
in_flight-receive (receiving ∷ ws) (suc i) b e = in_flight-receive ws i b e
in_flight-receive (exited ∷ ws) (suc i) b e = in_flight-receive ws i b e
in_flight-receive (sending c ∷ ws) (suc i) b e =
    Perm.trans (Perm.cons c (in_flight-receive ws i b e)) (Perm.swap b c (in_flight ws))

pub in_flight-hand_over :
    (ws : List Worker) (i : ℕ) (b : Batch)
    → get_elem? ws i ≡ some (sending b)
    → Perm (b ∷ in_flight (set_at ws i receiving)) (in_flight ws)
in_flight-hand_over [] i b e = absurd (none-ne-some _ e)
in_flight-hand_over (x ∷ ws) zero b e =
    subst (λ x. Perm (b ∷ in_flight ws) (in_flight (x ∷ ws))) (sym (some-injective _ _ e))
      (Perm.refl (b ∷ in_flight ws))
in_flight-hand_over (receiving ∷ ws) (suc i) b e = in_flight-hand_over ws i b e
in_flight-hand_over (exited ∷ ws) (suc i) b e = in_flight-hand_over ws i b e
in_flight-hand_over (sending c ∷ ws) (suc i) b e =
    Perm.trans (Perm.swap c b _) (Perm.cons c (in_flight-hand_over ws i b e))

pub in_flight-leave :
    (ws : List Worker) (i : ℕ)
    → get_elem? ws i ≡ some receiving
    → in_flight (set_at ws i exited) ≡ in_flight ws
in_flight-leave [] i e = absurd (none-ne-some _ e)
in_flight-leave (x ∷ ws) zero e = ap (λ x. in_flight (x ∷ ws)) (sym (some-injective x receiving e))
in_flight-leave (receiving ∷ ws) (suc i) e = in_flight-leave ws i e
in_flight-leave (exited ∷ ws) (suc i) e = in_flight-leave ws i e
in_flight-leave (sending c ∷ ws) (suc i) e = ap (λ l. c ∷ l) (in_flight-leave ws i e)

-- the steps that a worker has before it
abbrev pub weight : Worker → ℕ
weight receiving = 1
weight (sending b) = 2
weight exited = 0

abbrev pub load : List Worker → ℕ
load ws = total weight ws

pub any_exited-set_at :
    (ws : List Worker) (i : ℕ) (v w : Worker)
    → get_elem? ws i ≡ some v
    → is_exited v ≡ is_exited w
    → any_exited (set_at ws i w) ≡ any_exited ws
any_exited-set_at [] i v w e q = refl
any_exited-set_at (x ∷ ws) zero v w e q = rw (some-injective _ _ e) (rw q refl)
any_exited-set_at (x ∷ ws) (suc i) v w e q = rw (any_exited-set_at ws i v w e q) refl

-- a worker that can take a step
abbrev pub Active : List Worker → ℕ → Type 0
Active ws i =
    (get_elem? ws i ≡ some receiving) ⊎ ((b : Batch) × (get_elem? ws i ≡ some (sending b)))

pub some-Active : (ws : List Worker) → (all_exited ws ≡ true) ⊎ ((i : ℕ) × Active ws i)
some-Active [] = inl refl
some-Active (receiving ∷ ws) = inr (0, inl refl)
some-Active (sending b ∷ ws) = inr (0, inr (b, refl))
some-Active (exited ∷ ws) = elim (some-Active ws) [ inl e ↦ inl e | inr (i, a) ↦ inr (suc i, a) ]

pub all_exited-in_flight : (ws : List Worker) → all_exited ws ≡ true → in_flight ws ≡ []
all_exited-in_flight [] e = refl
all_exited-in_flight (receiving ∷ ws) e = cc e
all_exited-in_flight (sending b ∷ ws) e = cc e
all_exited-in_flight (exited ∷ ws) e = all_exited-in_flight ws e

pub all_exited-any_exited :
    (ws : List Worker) → 0 < length ws → all_exited ws ≡ true → any_exited ws ≡ true
all_exited-any_exited [] h e = absurd (omega (arith, h))
all_exited-any_exited (receiving ∷ ws) h e = cc e
all_exited-any_exited (sending b ∷ ws) h e = cc e
all_exited-any_exited (exited ∷ ws) h e = refl
