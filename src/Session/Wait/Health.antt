-- ===== src/Session/Wait/Health.antt =====
-- What a returned wait says: a health check passed, or the context ended.
use gnomock.Base.{
  ℕ, zero, suc, Option, some, ◌∷◌, ◌≡◌, arith, Bool-cases, inl, inr, ◌≤◌, true, ◌≢◌, ◌+◌, ap,
}
use gnomock.Container.{Container}
use gnomock.Docker.Client.{select_done}
use gnomock.Options.{Options}
use gnomock.Errors.{GoError}
use gnomock.Engine.{World, Context, History, select}
use gnomock.Engine.Trace.{rounds}
use gnomock.Engine.Actions.{ok, returned, refused, panicked, hung, ended, err, stuck, Result}
use gnomock.Session.Wait.{wait_loop, env_aware_clone, canceled_after, select_done}

module _ (w : World) where
  -- A loop that returns without an error ends with a health check that passed, and makes no call
  -- after it.
  pub wait_loop-ok :
      (fuel : ℕ) (ctx : Context) (c : Container) (cfg : Options) (last : Option GoError)
      (h : History)
      → (wait_loop w fuel ctx c cfg last h).0 ≡ ok tt
      → (g : History) × (cfg.healthcheck (env_aware_clone w c) g
          ≡ (ok tt, (wait_loop w fuel ctx c cfg last h).1))
  unfolding wait_loop select_done
  wait_loop-ok zero ctx c cfg last h e = cc
  wait_loop-ok (suc fuel) ctx c cfg last h e = elim (Bool-cases (w.done ctx h)) [
    | inl over ↦ absurd (ground arith)
    | inr early ↦ elim (ended (cfg.healthcheck (env_aware_clone w c) (select ctx ∷ h))) [
      | returned u g p ↦ (select ctx ∷ h, ground arith)
      | refused x g p ↦
          let (g', q) = wait_loop-ok fuel ctx c cfg (some x) g (ground arith) in (g', ground arith)
      | panicked g p ↦ absurd (ground arith)
      | hung g p ↦ absurd (ground arith)
    ]
  ]

  -- A loop that returns an error ends with a `select` that found the context done, and the error
  -- tells of a cancelation.
  pub wait_loop-err :
      (fuel : ℕ) (ctx : Context) (c : Container) (cfg : Options) (last : Option GoError)
      (h : History) (e : GoError)
      → (wait_loop w fuel ctx c cfg last h).0 ≡ err e
      → (g : History) × (o : Option GoError) × (w.done ctx g ≡ true)
        × ((wait_loop w fuel ctx c cfg last h).1 ≡ select ctx ∷ g)
        × (e ≡ canceled_after w o)
  unfolding wait_loop select_done
  wait_loop-err zero ctx c cfg last h e q = cc
  wait_loop-err (suc fuel) ctx c cfg last h e q = elim (Bool-cases (w.done ctx h)) [
    | inl over ↦ (h, last, over, ground arith, ground arith)
    | inr early ↦ elim (ended (cfg.healthcheck (env_aware_clone w c) (select ctx ∷ h))) [
      | returned u g p ↦ absurd (ground arith)
      | refused x g p ↦
          let (g', o, d, t, k) = wait_loop-err fuel ctx c cfg (some x) g e (ground arith) in
          (g', o, d, ground arith, k)
      | panicked g p ↦ absurd (ground arith)
      | hung g p ↦ absurd (ground arith)
    ]
  ]

  module _ (ctx : Context) (c : Container) (cfg : Options) (n : ℕ)
      (over : (h : History) → n ≤ rounds h → w.done ctx h ≡ true)
      (keeps : (g : History) → rounds g ≤ rounds (cfg.healthcheck (env_aware_clone w c) g).1)
      (ends : (g : History) → (cfg.healthcheck (env_aware_clone w c) g).0 ≢ stuck) where
    -- If the context is done after `n` rounds and the health checks themselves end and forget no
    -- round, then fuel for `n` rounds more than those already made is enough.
    pub wait_loop-ends :
        (fuel : ℕ) (last : Option GoError) (h : History)
        → n ≤ fuel + rounds h
        → (wait_loop w (suc fuel) ctx c cfg last h).0 ≢ stuck
    unfolding wait_loop select_done
    wait_loop-ends zero last h le s = ground (arith, over h (omega arith))
    wait_loop-ends (suc fuel) last h le s = elim (Bool-cases (w.done ctx h)) [
      | inl found ↦ absurd (ground arith)
      | inr early ↦ elim (ended (cfg.healthcheck (env_aware_clone w c) (select ctx ∷ h))) [
        | returned u g p ↦ absurd (ground arith)
        | refused x g p ↦
            wait_loop-ends fuel (some x) g
              (let kept : suc (rounds h) ≤ rounds g =
                  (rw (ap (λ (m : Result (Unit {0}) × History). rounds m.1) p) at
                    (keeps (select ctx ∷ h))) in
                omega arith)
              (ground arith)
        | panicked g p ↦ absurd (ground arith)
        | hung g p ↦ absurd (ground (arith, ends (select ctx ∷ h)))
      ]
    ]
