-- ===== src/Scheduler/Reduce.antt =====
-- juju/hooks/scheduler.py, `_reduce`: two hooks for a unit become one.
use trusted_juju.Prelude.{ℕ, Bool, none, some, [], ◌∷◌, ◌≡◌, ◌≢◌, ◌↔◌, arith, ◌⊎◌}
use trusted_juju.Scheduler.Queue.{ChangeType, joined, departed, modified, index, new, reduce}
use trusted_juju.Scheduler.Presence.{act, presence, outcome}

-- Where two hooks make sense one after the other, `_reduce` gives a result, and what is left of the
-- two (one hook, or none) takes the charm to where both would have taken it.
pub reduce-presence :
    (i : ℕ) (p n : ChangeType) (b d : Bool)
    → presence (p ∷ n ∷ []) b ≡ some d
    → outcome (reduce (index i, p) (new, n)) b ≡ some d
unfolding presence outcome reduce act
reduce-presence i joined joined b d h = ground arith
reduce-presence i joined departed b d h = ground arith
reduce-presence i joined modified b d h = ground arith
reduce-presence i departed joined b d h = ground arith
reduce-presence i departed departed b d h = ground arith
reduce-presence i departed modified b d h = ground arith
reduce-presence i modified joined b d h = ground arith
reduce-presence i modified departed b d h = ground arith
reduce-presence i modified modified b d h = ground arith

-- `_reduce` falls off its end, and its caller raises a `TypeError`, exactly for a join after a join
-- or after a modification and for a second departure.
pub reduce-eq-none_iff :
    (i : ℕ) (p n : ChangeType)
    → (reduce (index i, p) (new, n) ≡ none)
      ↔ ((n ≡ joined) × (p ≢ departed) ⊎ (n ≡ departed) × (p ≡ departed))
unfolding reduce
reduce-eq-none_iff i joined joined = (λ h. ground arith, λ h. ground arith)
reduce-eq-none_iff i departed departed = (λ h. ground arith, λ h. ground arith)
reduce-eq-none_iff i modified modified = (λ h. ground arith, λ h. ground arith)
reduce-eq-none_iff i _ _ = (λ h. ground arith, λ h. ground arith)
