-- ===== src/Process/Running/Start.antt =====
-- When run succeeds, and with what the controller and the adapter then work.
use openconveyor.Prelude.{
  ℕ, ◌≤◌, ℤ, pos, true, false, ◌≡◌, ◌↔◌, refl, sym, ap, subst, ◌∙◌, ◌⊎◌, inl, inr, Option, none,
  some, Text, is_empty, Bool-cases, negsuc, ltb, arith,
}
use openconveyor.Errors.{Result, ok, err, >>=-eq-ok}
use openconveyor.Process.Options.{
  Flags, max_int32, as_int32, is_natural, validate_job_ttl, check_task_ttl, task_ttl,
}
use openconveyor.Process.Options.Ranges.{as_int32_exact, validate_job_ttl_iff, task_ttl_lem}
use openconveyor.Process.Running.{
  Manager, wrapped, trigger_server, setup_trigger, manager_options, controller_config, run,
}

wrapped-eq-ok :
    (format : Text) (r : Result (Unit {0})) (u : Unit {0}) → wrapped format r ≡ ok u → r ≡ ok tt
unfolding wrapped
wrapped-eq-ok format (ok v) u h = refl
wrapped-eq-ok format (err e) u h = cc

module _ (manager : Manager) (pod_namespace : Text) (fl : Flags) where
  -- What run does when it succeeds.
  pub record Running : Type 0 where
    pub job_ttl : ℕ
    pub job_flag : fl.job_ttl_seconds ≡ pos job_ttl
    pub job_low : 1 ≤ job_ttl
    pub job_high : job_ttl ≤ max_int32
    pub default_ttl : Option ℤ
    pub task_flag :
        ((is_natural fl.task_ttl_seconds ≡ false) × (default_ttl ≡ none))
        ⊎ ((n : ℕ) × (fl.task_ttl_seconds ≡ pos n) × (n ≤ max_int32) × (default_ttl ≡ some (pos n)))
    pub made : manager.new_manager (manager_options fl) ≡ ok tt
    pub controlled :
        manager.set_up_controller (record {
          egress_refresh_interval = fl.egress_refresh;
          job_ttl_seconds = pos job_ttl;
          default_task_ttl_seconds = default_ttl;
        })
        ≡ ok tt
    pub triggered :
        (is_empty fl.trigger_addr ≡ true)
        ⊎ ((is_empty fl.trigger_addr ≡ false)
            × (manager.add (trigger_server pod_namespace fl) ≡ ok tt))
    pub healthy : manager.add_healthz_check ≡ ok tt
    pub ready : manager.add_readyz_check ≡ ok tt
    pub started : manager.start ≡ ok tt

  setup_trigger-eq-ok :
      (u : Unit {0})
      → setup_trigger manager pod_namespace fl ≡ ok u
      → (is_empty fl.trigger_addr ≡ true)
        ⊎ ((is_empty fl.trigger_addr ≡ false)
            × (manager.add (trigger_server pod_namespace fl) ≡ ok tt))
  unfolding setup_trigger
  setup_trigger-eq-ok u h = elim (Bool-cases (is_empty fl.trigger_addr)) [
    | inl off ↦ inl off
    | inr on ↦ inr (on, wrapped-eq-ok _ _ u (rw on at h))
  ]

  run-Running_given : run manager pod_namespace fl ≡ ok tt → Running
  unfolding run controller_config
  run-Running_given h =
      let (a, job, h1) = >>=-eq-ok (validate_job_ttl fl.job_ttl_seconds) _ h in
      let (b, task, h2) = >>=-eq-ok (check_task_ttl fl.task_ttl_seconds) _ h1 in
      let (c, made, h3) = >>=-eq-ok (wrapped _ (manager.new_manager (manager_options fl))) _ h2 in
      let (d, controlled, h4) =
        >>=-eq-ok (wrapped _ (manager.set_up_controller (controller_config fl))) _ h3 in
      let (e, triggered, h5) = >>=-eq-ok (setup_trigger manager pod_namespace fl) _ h4 in
      let (f, healthy, h6) = >>=-eq-ok (wrapped _ manager.add_healthz_check) _ h5 in
      let (g, ready, started) = >>=-eq-ok (wrapped _ manager.add_readyz_check) _ h6 in
      let (n, flag, low, high) = (validate_job_ttl_iff fl.job_ttl_seconds).0 job in
      record {
        job_ttl = n;
        job_flag = flag;
        job_low = low;
        job_high = high;
        default_ttl = task_ttl fl.task_ttl_seconds;
        task_flag = task_ttl_lem fl.task_ttl_seconds task;
        made = wrapped-eq-ok _ _ c made;
        controlled =
            subst
              (λ j.
                manager.set_up_controller (record {
                  egress_refresh_interval = fl.egress_refresh;
                  job_ttl_seconds = j;
                  default_task_ttl_seconds = task_ttl fl.task_ttl_seconds;
                })
                ≡ ok tt)
              (ap as_int32 flag ∙ as_int32_exact n high) (wrapped-eq-ok _ _ d controlled);
        triggered = setup_trigger-eq-ok e triggered;
        healthy = wrapped-eq-ok _ _ f healthy;
        ready = wrapped-eq-ok _ _ g ready;
        started = wrapped-eq-ok _ _ tt started;
      }

  task_ttl_back :
      (v : ℤ) (t : Option ℤ)
      → ((is_natural v ≡ false) × (t ≡ none))
        ⊎ ((n : ℕ) × (v ≡ pos n) × (n ≤ max_int32) × (t ≡ some (pos n)))
      → (check_task_ttl v ≡ ok tt) × (task_ttl v ≡ t)
  unfolding check_task_ttl task_ttl
  task_ttl_back (negsuc n) t (inl (negative, e)) = (refl, sym e)
  task_ttl_back (pos n) t (inl (negative, e)) = absurd (cc negative)
  task_ttl_back v t (inr (n, flag, low, e)) =
      let small : ltb 2_147_483_647 n ≡ false = ground (arith, low) in
      rw (flag, e) (rw small refl, ap some (as_int32_exact n low))

  setup_trigger_back :
      (is_empty fl.trigger_addr ≡ true)
        ⊎ ((is_empty fl.trigger_addr ≡ false)
            × (manager.add (trigger_server pod_namespace fl) ≡ ok tt))
      → setup_trigger manager pod_namespace fl ≡ ok tt
  unfolding setup_trigger wrapped
  setup_trigger_back (inl off) = rw off refl
  setup_trigger_back (inr (on, added)) = rw (on, added) refl

  Running-run : Running → run manager pod_namespace fl ≡ ok tt
  unfolding run controller_config wrapped
  Running-run g =
      let job =
        (validate_job_ttl_iff fl.job_ttl_seconds).1
          (g.job_ttl, g.job_flag, g.job_low, g.job_high) in
      let (task, ttl) = task_ttl_back fl.task_ttl_seconds g.default_ttl g.task_flag in
      let controlled : manager.set_up_controller (record {
        egress_refresh_interval = fl.egress_refresh;
        job_ttl_seconds = as_int32 fl.job_ttl_seconds;
        default_task_ttl_seconds = task_ttl fl.task_ttl_seconds;
      })
          ≡ ok tt =
        rw (ap as_int32 g.job_flag ∙ as_int32_exact g.job_ttl g.job_high, ttl) g.controlled in
      rw
        (
          job,
          task,
          g.made,
          controlled,
          setup_trigger_back g.triggered,
          g.healthy,
          g.ready,
          g.started,
        )
        refl

  -- run ends without an error exactly if both TTLs are in range, and then the controller gets them as
  -- they were given, without the loss of a bit; every part is set up without an error, the adapter if
  -- it has an address and only then; and the manager runs to its end.
  pub run-Running : (run manager pod_namespace fl ≡ ok tt) ↔ Running
  run-Running = (run-Running_given, Running-run)
