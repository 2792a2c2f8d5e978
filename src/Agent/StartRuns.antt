-- ===== src/Agent/StartRuns.antt =====
-- juju/unit/lifecycle.py, `UnitLifecycle.start`, `stop` and `configure`: what they do to the executor and
-- to the unit's running, by the way they end.
use trusted_juju.Prelude.{
  String, Bool, true, false, ◌&&◌, Option, none, some, [], ◌∷◌, ◌≡◌, refl, Bool-cases, inl, inr,
  ◌⊎◌,
}
use trusted_juju.Agent.Relations.{bring_up}
use trusted_juju.Agent.UnitLifecycle.{
  Failure, other, Environment, UnitLifecycle, then_run, hooks_if, load_if_none, with_workflows,
  workflows_if, establish_watches, start, take_down, stop, configure, cluster_at, watch_fault,
  prepare,
}
use trusted_juju.Agent.UnitRuns.{
  Wants, Meets, runs, rests, RunOwes, then_run-Owes, hooks_if-Owes, workflows_if-Owes,
  load_if_none-Owes, then-Owes, with_workflows-Owes,
}

-- The initial invocations of the watches raise nothing that a transition handles, and the preparation
-- of an upgrade succeeds.
pub record IsSteady (env : Environment) : Type 0 where
  pub watch : (env.watch ≡ none) ⊎ (env.watch ≡ some other)
  pub bundle : Option String
  pub prepared : prepare env ≡ some bundle

watched-Owes :
    (bad : Wants) (o : Option Failure) (u : UnitLifecycle)
    → (o ≡ none) ⊎ (o ≡ some other)
    → Meets (runs, runs) u
    → RunOwes (runs, runs) bad (u, watch_fault u o)
watched-Owes bad o u (inl e) h = rw e h
watched-Owes bad o u (inr e) h = rw (e, h.0) tt

pub stop_quietly-Owes :
    (env : Environment) (b : Bool) (bad : Wants) (u : UnitLifecycle)
    → Meets (runs, runs) u
    → RunOwes (runs, rests) bad (stop env false b u)
unfolding stop hooks_if
stop_quietly-Owes env b bad u h =
    then-Owes (runs, rests) bad u.running _ _ (h.1)
      (then_run-Owes (runs, rests) (runs, runs) bad
        (with_workflows (take_down (cluster_at env u) b) u) _
        (with_workflows-Owes runs bad (take_down (cluster_at env u) b) u h) (λ u1 h1. (h1.0, refl)))

pub stop-Owes :
    (env : Environment) (b : Bool) (u : UnitLifecycle)
    → Meets (runs, runs) u
    → RunOwes (runs, rests) (runs, runs) (stop env true b u)
unfolding stop
stop-Owes env b u h =
    then-Owes (runs, rests) (runs, runs) u.running _ _ (h.1)
      (then_run-Owes (runs, rests) (runs, runs) (runs, runs)
        (with_workflows (take_down (cluster_at env u) b) u) _
        (with_workflows-Owes runs (runs, runs) (take_down (cluster_at env u) b) u h)
        (λ u1 h1.
          then_run-Owes (runs, rests) (runs, runs) (runs, runs) (hooks_if env true ("stop" ∷ []) u1)
            _ (hooks_if-Owes env true ("stop" ∷ []) runs u1 h1) (λ u2 h2. (h2.0, refl))))

pub configure-Owes :
    (env : Environment) (fires : Bool) (u : UnitLifecycle)
    → Meets (runs, runs) u
    → RunOwes (runs, runs) (runs, runs) (configure env fires u)
unfolding configure
configure-Owes env false u h = h
configure-Owes env true u h =
    then-Owes (runs, runs) (runs, runs) u.running _ _ (h.1)
      (hooks_if-Owes env true ("config-changed" ∷ []) runs u h)

module _ (env : Environment) (steady : IsSteady env) where
  establish_watches-Owes :
      (r : Option Bool) (bad : Wants) (u : UnitLifecycle)
      → Meets (runs, r) u
      → RunOwes (runs, runs) bad (establish_watches env u)
  unfolding establish_watches
  establish_watches-Owes r bad u h =
      elim (Bool-cases (u.watching_relation_memberships && u.watching_relation_resolved)) [
        | inl b ↦ rw b (h.0, refl)
        | inr b ↦ rw b (
            watched-Owes bad env.watch
              (record u {
                watching_relation_memberships = true;
                watching_relation_resolved = true;
                running = true;
              })
              steady.watch (h.0, refl))
      ]

  -- Without its hooks a start raises nothing that a transition handles.
  pub start_quietly-Owes :
      (b : Bool) (r : Option Bool) (bad : Wants) (u : UnitLifecycle)
      → Meets (runs, r) u
      → RunOwes (runs, runs) bad (start env false b u)
  unfolding start hooks_if
  start_quietly-Owes b r bad u h =
      then_run-Owes (runs, runs) (runs, r) bad (load_if_none env u) _
        (load_if_none-Owes r bad env u h)
        (λ u2 h2.
          then_run-Owes (runs, runs) (runs, r) bad
            (workflows_if b (bring_up (cluster_at env u2)) u2) _
            (workflows_if-Owes r bad b (bring_up (cluster_at env u2)) u2 h2)
            (λ u3 h3. establish_watches-Owes r bad u3 h3))

  pub start-Owes :
      (b : Bool) (u : UnitLifecycle)
      → Meets (runs, rests) u
      → RunOwes (runs, runs) (runs, rests) (start env true b u)
  unfolding start hooks_if start_quietly-Owes
  start-Owes b u h =
      then_run-Owes (runs, runs) (runs, rests) (runs, rests)
        (hooks_if env true ("config-changed" ∷ "start" ∷ []) u) _
        (hooks_if-Owes env true ("config-changed" ∷ "start" ∷ []) rests u h)
        (λ u1 h1. start_quietly-Owes b rests (runs, rests) u1 h1)

  pub retry_configure-Owes :
      (fires : Bool) (u : UnitLifecycle)
      → Meets (runs, rests) u
      → RunOwes
          (runs, runs)
          (runs, runs)
          (then_run (start env false true u) (λ u'. configure env fires u'))
  retry_configure-Owes fires u h =
      then_run-Owes (runs, runs) (runs, runs) (runs, runs) (start env false true u) _
        (start_quietly-Owes true rests (runs, runs) u h) (configure-Owes env fires)
