-- ===== src/Agent/UpgradeRuns.antt =====
-- juju/unit/lifecycle.py, `UnitLifecycle.upgrade_charm`: what an upgrade does to the executor, by the way
-- it ends.
use trusted_juju.Prelude.{
  String, Bool, true, false, not, ◌&&◌, ◌||◌, Option, none, some, [], ◌∷◌, ◌++◌, refl, Bool-cases,
  inl, inr, subst, sym,
}
use trusted_juju.Agent.UnitLifecycle.{
  Environment, UnitLifecycle, invoke, execute_hook, replace, replace_if, upgrade_hook,
  start_executor, is_ready, upgrade_to, upgrade_charm,
}
use trusted_juju.Agent.UnitRuns.{Meets, runs, rests, RunOwes, then_run-Owes, else-Owes, ended-Owes}
use trusted_juju.Agent.StartRuns.{IsSteady}

replace-Owes :
    (env : Environment) (new_id : String) (r : Option Bool) (u : UnitLifecycle)
    → Meets (rests, r) u
    → RunOwes (rests, r) (rests, r) (replace env new_id u)
unfolding replace
replace-Owes env new_id r u h = elim (Bool-cases env.extract) [
  | inr a ↦ rw a h
  | inl a ↦ elim (Bool-cases env.set_charm_id) [ inl b ↦ rw (a, b) h | inr b ↦ rw (a, b) h ]
]

replace_if-Owes :
    (env : Environment) (bundle : Option String) (r : Option Bool) (u : UnitLifecycle)
    → Meets (rests, r) u
    → RunOwes (rests, r) (rests, r) (replace_if env bundle u)
unfolding replace_if
replace_if-Owes env none r u h = h
replace_if-Owes env (some new_id) r u h = replace-Owes env new_id r u h

-- The hook of an upgrade runs while the executor is stopped.
upgrade_hook-Owes :
    (env : Environment) (fires : Bool) (r : Option Bool) (u : UnitLifecycle)
    → Meets (rests, r) u
    → RunOwes (rests, r) (rests, r) (upgrade_hook env fires u)
unfolding upgrade_hook execute_hook invoke
upgrade_hook-Owes env false r u h = h
upgrade_hook-Owes env true r u h =
    else-Owes (rests, r) (rests, r) u.executor _ _ (h.0)
      (ended-Owes (rests, r) (env.hook "upgrade-charm")
        (record u { hooks = u.hooks ++ "upgrade-charm" ∷ [] }) h)

upgrade_to-Owes :
    (env : Environment) (fires force : Bool) (bundle : Option String) (r : Option Bool)
    (u : UnitLifecycle)
    → Meets (none, r) u
    → RunOwes (runs, r) (rests, r) (upgrade_to env fires force (some bundle) u)
unfolding upgrade_to start_executor
upgrade_to-Owes env fires force bundle r u h =
    then_run-Owes (runs, r) (rests, r) (rests, r)
      (replace_if env bundle (record u { executor = false })) _
      (replace_if-Owes env bundle r (record u { executor = false }) (refl, h.1))
      (λ u1 h1.
        then_run-Owes (runs, r) (rests, r) (rests, r)
          (upgrade_hook env ((is_ready bundle || fires) && not force) u1) _
          (upgrade_hook-Owes env ((is_ready bundle || fires) && not force) r u1 h1)
          (λ u2 h2. rw (h2.0) (refl, h2.1)))

-- An upgrade that was prepared and fails leaves the executor stopped.
pub upgrade_charm-Owes :
    (env : Environment) (fires force : Bool) (r : Option Bool) (u : UnitLifecycle)
    → IsSteady env
    → Meets (none, r) u
    → RunOwes (runs, r) (rests, r) (upgrade_charm env fires force u)
unfolding upgrade_charm
upgrade_charm-Owes env fires force r u steady h =
    subst (λ o. RunOwes (runs, r) (rests, r) (upgrade_to env fires force o u)) (sym steady.prepared)
      (upgrade_to-Owes env fires force steady.bundle r u h)
