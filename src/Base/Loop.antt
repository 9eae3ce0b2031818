-- ===== src/Base/Loop.antt =====
-- Loops that end because a number falls with each turn.
use Prim.Native.Nat.{ℕ, zero, suc, ◌<◌}
use mathlib.Core.Path.{◌≡◌, refl, ap, ◌∙◌}
use mathlib.Core.Option.{Option, none, some}
use native.Mathlib.Omega.{arith}

-- What a turn of a loop leads to.
pub data Turn {ℓ κ} (S : Type ℓ) (R : Type κ) : Type (ℓ ⊔ κ) where
  next : S → Turn S R
  done : R → Turn S R

-- `?` inside a loop: what is missing ends it.
abbrev pub or_done {ℓ κ} : {S : Type ℓ} {R : Type κ} → R → Option (Turn S R) → Turn S R
or_done r none = done r
or_done r (some t) = t

module _ {ℓ κ} {S : Type ℓ} {R : Type κ} (turn : S → Turn S R) (left : S → ℕ) where
  abbrev pub Falls : Type (ℓ ⊔ κ)
  Falls = (s s' : S) → turn s ≡ next s' → left s' < left s

  after_turn : (s : S) → ((s' : S) → turn s ≡ next s' → R) → (t : Turn S R) → turn s ≡ t → R
  after_turn s more (next s') e = more s' e
  after_turn s more (done r) e = r

  pub goes_on :
      {fuel : ℕ} → Falls → (s s' : S) → turn s ≡ next s' → left s < suc fuel → left s' < fuel
  goes_on falls s s' e h = omega (arith, falls s s' e, h)

  loop_within : Falls → (fuel : ℕ) (s : S) → left s < fuel → R
  unfolding after_turn
  loop_within falls zero s h = absurd (omega arith)
  loop_within falls (suc fuel) s h =
      after_turn s (λ s' e. loop_within falls fuel s' (goes_on falls s s' e h)) (turn s) refl

  -- The loop from a state; it ends, since `left` falls.
  unfoldable pub loop : Falls → S → R
  unfolding loop_within
  loop falls s = loop_within falls (suc (left s)) s (omega arith)

  after_turn_agree :
      (s : S) (more more' : (s' : S) → turn s ≡ next s' → R)
      → ((s' : S) (e : turn s ≡ next s') → more s' e ≡ more' s' e)
      → (t : Turn S R) (e : turn s ≡ t) → after_turn s more t e ≡ after_turn s more' t e
  unfolding after_turn
  after_turn_agree s more more' same (next s') e = same s' e
  after_turn_agree s more more' same (done r) e = refl

  -- The bound on the turns does not matter.
  loop_within_same :
      (falls : Falls) (fuel fuel' : ℕ) (s : S) (h : left s < fuel) (h' : left s < fuel')
      → loop_within falls fuel s h ≡ loop_within falls fuel' s h'
  unfolding loop_within
  loop_within_same falls zero fuel' s h h' = absurd (omega arith)
  loop_within_same falls (suc fuel) zero s h h' = absurd (omega arith)
  loop_within_same falls (suc fuel) (suc fuel') s h h' =
      after_turn_agree s _ _ (λ t e. loop_within_same falls fuel fuel' t _ _) (turn s) refl

  after_turn_next :
      (last : S → R) (s s' : S) (more : (s' : S) → turn s ≡ next s' → R)
      → ((s' : S) (e : turn s ≡ next s') → more s' e ≡ last s')
      → (t : Turn S R) (e : turn s ≡ t) → t ≡ next s'
      → after_turn s more t e ≡ last s'
  unfolding after_turn
  after_turn_next last s s' more agree (next s'') e goes = agree s'' e ∙ ap last (cc)
  after_turn_next last s s' more agree (done r) e goes = absurd (cc)

  after_turn_done :
      (s : S) (r : R) (more : (s' : S) → turn s ≡ next s' → R) (t : Turn S R) (e : turn s ≡ t)
      → t ≡ done r
      → after_turn s more t e ≡ r
  unfolding after_turn
  after_turn_done s r more (next s') e stops = absurd (cc)
  after_turn_done s r more (done r') e stops = cc

  pub loop-next : (falls : Falls) (s s' : S) → turn s ≡ next s' → loop falls s ≡ loop falls s'
  unfolding loop loop_within
  loop-next falls s s' goes =
      after_turn_next (loop falls) s s' _
        (λ t e. loop_within_same falls (left s) (suc (left t)) t _ _) (turn s) refl goes

  pub loop-done : (falls : Falls) (s : S) {r : R} → turn s ≡ done r → loop falls s ≡ r
  unfolding loop loop_within
  loop-done falls s {r} stops = after_turn_done s r _ (turn s) refl stops
