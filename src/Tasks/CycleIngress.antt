-- ===== src/Tasks/CycleIngress.antt =====
-- crates/msrs-transport/src/tasks.rs: `CycleIngressTask`, a bounded batch and the time every cycle.
pub mod Building
pub mod Sampling
pub mod Lossless
pub mod Backlog
use msrs.Shared.{
  ℕ, zero, suc, ◌≡◌, Option, none, some, String, Result, ok, err, Checked, ◌>>=◌, if◌then◌else◌,
  ◌==◌,
}
use msrs.Copper.{CuMsg, CuResult, Clock, ComponentConfig, time}
use msrs.Channel.{Channel}
use msrs.Channel.Drain.{Interference}
use msrs.Registry.{Types, Registry}
use msrs.Registry
use msrs.Tasks.{Cycle, cycle_step, default_max_batch}
use msrs.Tasks.Ingress.{Sampled}

pub record CycleIngressTask (Rx : Type 0) : Type 0 where
  pub rx : Rx
  pub max_batch : ℕ

abbrev pub unwrap_or {ℓ} : {A : Type ℓ} → Option A → A → A
unwrap_or none d = d
unwrap_or (some a) d = a

-- The configured cap, or the default; the cast of a u32 to usize changes nothing.
unfoldable pub configured_batch : Option ComponentConfig → CuResult ℕ
configured_batch none = ok default_max_batch
configured_batch (some cfg) = do
  configured ← cfg.get_u32 "max_batch"
  ok (unwrap_or configured default_max_batch)

abbrev pub Built : (ty : Types) → ty.Code → Type 0
Built ty code = Registry ty × CuResult (CycleIngressTask (ty.Value code))

-- The task around a channel end, or the error of taking it.
abbrev pub with_batch : {Rx : Type 0} → ℕ → CuResult Rx → CuResult (CycleIngressTask Rx)
with_batch max_batch taken = do rx ← taken; ok (record { rx = rx; max_batch = max_batch })

module _ (ty : Types) (key : ty.Key) (code : ty.Code) where
  unfoldable pub install : Registry ty → ty.Value code → Registry ty × Checked (Unit {0})
  install r rx = Registry.install r key code rx

  -- The end of `new`, once the cap is known to be positive.
  unfoldable pub build : Registry ty → ℕ → Built ty code
  build r max_batch = let (r', taken) = Registry.take r key code in (r', with_batch max_batch taken)

  unfoldable pub checked_batch : Registry ty → CuResult ℕ → Built ty code
  unfolding build
  checked_batch r (err e) = (r, err e)
  checked_batch r (ok max_batch) =
      if max_batch == 0
      then (r, err "CycleIngressTask max_batch must be > 0")
      else build r max_batch

  unfoldable pub new : Registry ty → Option ComponentConfig → Built ty code
  unfolding checked_batch configured_batch
  new r config = checked_batch r (configured_batch config)

module _ {T : Type 0} (ch : Channel T) (clock : Clock) (output : CuMsg (Cycle T)) where
  -- Time passes on its own: `ctx n` is the context when n calls on the channel have been made.
  unfoldable pub process :
      {Rx : Type 0}
      → CycleIngressTask Rx
      → Interference ch
      → (ℕ → clock.Ctx)
      → ch.Chan
      → output.Msg
      → Sampled output.Msg clock.Ctx ch.Chan
  unfolding cycle_step
  process task env ctx rx msg =
      let (cycle, rx', calls) = cycle_step ch env rx task.max_batch 0 in
      let (now, ctx') = clock.now (ctx calls) in
      record {
        output = output.set_tov (output.set_payload msg (record cycle { now_ns = now })) (time now);
        ctx = ctx';
        chan = rx';
        result = ok tt;
      }
