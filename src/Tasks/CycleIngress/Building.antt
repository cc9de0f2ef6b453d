-- ===== src/Tasks/CycleIngress/Building.antt =====
-- crates/msrs-transport/src/tasks.rs: `CycleIngressTask::new`, its cap and its use of the registry.
use msrs.Shared.{
  ℕ, suc, ◌<◌, ◌≡◌, sym, ap, ◌∙◌, ◌⊎◌, Option, none, some, ok, err, returns, inl, inr, arith,
}
use msrs.Copper.{CuError, CuResult, ComponentConfig}
use msrs.Registry.{Types, Registry}
use msrs.Registry.Parking.{install-take, missing_text}
use msrs.Tasks.CycleIngress.{
  CycleIngressTask, with_batch, configured_batch, install, build, checked_batch, new,
}

-- The configuration asks for this cap: it has the cap, or it has none and this is the default.
abbrev pub Asks : Option ComponentConfig → ℕ → Type 0
Asks none n = n ≡ 64
Asks (some cfg) n =
    (cfg.get_u32 "max_batch" ≡ ok (some n)) ⊎ (cfg.get_u32 "max_batch" ≡ ok none) × (n ≡ 64)

-- The configuration has a cap of 0, or one that cannot be read, with the error for it.
abbrev pub IsBad : ComponentConfig → CuError → Type 0
IsBad cfg e =
    (cfg.get_u32 "max_batch" ≡ ok (some 0)) × (e ≡ "CycleIngressTask max_batch must be > 0")
    ⊎ (cfg.get_u32 "max_batch" ≡ err e)

module _ (ty : Types) (key : ty.Key) (code : ty.Code) where
  -- The cap is positive, so `new` goes on to take the channel end.
  pub new-build :
      (r : Registry ty) (config : Option ComponentConfig) (n : ℕ)
      → configured_batch config ≡ ok (suc n)
      → new ty key code r config ≡ build ty key code r (suc n)
  unfolding new
  new-build r config n h = rw (h, new) (refused_never n)
    where
      refused_never :
          (n : ℕ) → checked_batch ty key code r (ok (suc n)) ≡ build ty key code r (suc n)
      refused_never n = ground arith

  new_refused :
      (r : Registry ty) (config : Option ComponentConfig) (e : CuError)
      → (e ≡ "CycleIngressTask max_batch must be > 0") × (configured_batch config ≡ ok 0)
        ⊎ (configured_batch config ≡ err e)
      → new ty key code r config ≡ (r, err e)
  unfolding new
  new_refused r config e (inl (text, h)) = rw (h, new) (rw text)
  new_refused r config e (inr h) = rw (h, new)

  -- With a free slot and a positive cap, `install` followed by `new` builds the task around the
  -- very channel end that was installed, with that cap, and frees the slot again: every slot is as
  -- before, and a second `new` (a second runtime) is the error that nothing is installed.
  pub install-new :
      (r : Registry ty) (j : ty.Key) (config : Option ComponentConfig) (rx : ty.Value code) (n : ℕ)
      → r.slots key ≡ none
      → configured_batch config ≡ ok (suc n)
      → let (parked, outcome) = install ty key code r rx in
        let (emptied, built) = new ty key code parked config in
        (outcome ≡ returns tt)
        × (built ≡ ok (record { rx = rx; max_batch = suc n }))
        × (emptied.slots j ≡ r.slots j)
        × ((new ty key code emptied config).1 ≡ err (missing_text (ty.key_name key)))
  unfolding install build
  install-new r j config rx n free positive =
      let (outcome, taken, same, again) = install-take r key j code code rx free in
      rw (new-build _ config n positive) (
        rw (new-build _ config n positive)
          (outcome, ap (with_batch (suc n)) taken, same, ap (with_batch (suc n)) again))

  asked-configured :
      (config : Option ComponentConfig) (n : ℕ) → Asks config n → configured_batch config ≡ ok n
  unfolding configured_batch
  asked-configured none n h = ap ok (sym h)
  asked-configured (some cfg) n (inl h) = rw h
  asked-configured (some cfg) n (inr (h, default)) = rw h (ap ok (sym default))

  bad-configured :
      (cfg : ComponentConfig) (e : CuError)
      → IsBad cfg e
      → (e ≡ "CycleIngressTask max_batch must be > 0") × (configured_batch (some cfg) ≡ ok 0)
        ⊎ (configured_batch (some cfg) ≡ err e)
  unfolding configured_batch
  bad-configured cfg e (inl (h, text)) = inl (text, rw h)
  bad-configured cfg e (inr h) = inr (rw h)

  -- A refused attempt costs nothing: where an end is installed in a free slot and the first
  -- configuration asks for a cap of 0 or has a value that cannot be read, `new` answers that error
  -- and the end stays parked, so that a second attempt, with no configuration, or with one that has
  -- a positive cap or none, builds the task around this very end, with the cap asked for or else
  -- with 64, and leaves every slot as it was before the installation.
  pub new-new_after :
      (r : Registry ty) (j : ty.Key) (cfg : ComponentConfig) (config : Option ComponentConfig)
      (rx : ty.Value code) (e : CuError) (n : ℕ)
      → r.slots key ≡ none
      → IsBad cfg e
      → Asks config (suc n)
      → let (parked, outcome) = install ty key code r rx in
        let (still, refused) = new ty key code parked (some cfg) in
        let (emptied, built) = new ty key code still config in
        (outcome ≡ returns tt)
        × (refused ≡ err e)
        × (built ≡ ok (record { rx = rx; max_batch = suc n }))
        × (emptied.slots j ≡ r.slots j)
  new-new_after r j cfg config rx e n free bad asks =
      let parked = (install ty key code r rx).0 in
      let (outcome, built, same, again) =
        install-new r j config rx n free (asked-configured config (suc n) asks) in
      let first = new_refused parked (some cfg) e (bad-configured cfg e bad) in
      (
        outcome,
        ap (λ p. p.1) first,
        ap (λ p. (new ty key code p.0 config).1) first ∙ built,
        ap (λ p. (new ty key code p.0 config).0.slots j) first ∙ same,
      )

  checked_batch-positive :
      (r : Registry ty) (configured : CuResult ℕ) (task : CycleIngressTask (ty.Value code))
      → (checked_batch ty key code r configured).1 ≡ ok task
      → 0 < task.max_batch
  unfolding checked_batch
  checked_batch-positive r (ok n) task h = ground arith
  checked_batch-positive r (err e) task h = cc

  -- Every task that `new` builds has a positive cap.
  pub new-positive :
      (r : Registry ty) (config : Option ComponentConfig) (task : CycleIngressTask (ty.Value code))
      → (new ty key code r config).1 ≡ ok task
      → 0 < task.max_batch
  unfolding new
  new-positive r config task h = checked_batch-positive r (configured_batch config) task h
