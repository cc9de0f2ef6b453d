-- ===== src/Tasks/Ingress.antt =====
-- crates/msrs-transport/src/tasks.rs: `IngressTask`, at most one message a cycle. The task holds
-- the receiving end; the channel's state is passed beside it.
use msrs.Shared.{◌≡◌, refl, ◌∙◌, Option, none, some, List, [], ◌∷◌, head?, tail, ok, Checked, ◌>>=◌}
use msrs.Copper.{CuMsg, CuResult, Clock, ComponentConfig, time}
use msrs.Channel.{Channel}
use msrs.Registry.{Types, Registry}
use msrs.Registry
use msrs.Tasks.{ingress_step}

pub record IngressTask (Rx : Type 0) : Type 0 where
  pub rx : Rx

-- What a call of a source's `process` leaves behind.
pub record Sampled (Msg Ctx Chan : Type 0) : Type 0 where
  pub output : Msg
  pub ctx : Ctx
  pub chan : Chan
  pub result : CuResult (Unit {0})

-- `key` is the task type itself, `code` the type of its receiving end.
module _ (ty : Types) (key : ty.Key) (code : ty.Code) where
  unfoldable pub install : Registry ty → ty.Value code → Registry ty × Checked (Unit {0})
  install r rx = Registry.install r key code rx

  unfoldable pub new :
      Registry ty → Option ComponentConfig → Registry ty × CuResult (IngressTask (ty.Value code))
  new r config =
      let (r', taken) = Registry.take r key code in (r', taken >>= λ rx. ok (record { rx = rx }))

module _ {T : Type 0} (ch : Channel T) (clock : Clock) (output : CuMsg T) where
  -- The `match ingress_step(&self.rx)` of `process`.
  unfoldable pub place : output.Msg → Option T → output.Msg
  place msg (some v) = output.set_payload msg v
  place msg none = output.clear_payload msg

  unfoldable pub process : clock.Ctx → ch.Chan → output.Msg → Sampled output.Msg clock.Ctx ch.Chan
  unfolding place
  process ctx rx msg =
      let (v, rx') = ingress_step ch rx in
      let (now, ctx') = clock.now ctx in
      record {
        output = output.set_tov (place msg v) (time now);
        ctx = ctx';
        chan = rx';
        result = ok tt;
      }

  payload-place : (msg : output.Msg) (o : Option T) → output.payload (place msg o) ≡ o
  unfolding place
  payload-place msg none = output.payload-clear_payload msg
  payload-place msg (some v) = output.payload-set_payload msg v

  ingress_step-contents :
      (rx : ch.Chan) (xs : List T)
      → ch.contents rx ≡ xs
      → ((ingress_step ch rx).0 ≡ head? xs) × (ch.contents (ingress_step ch rx).1 ≡ tail xs)
  unfolding ingress_step
  ingress_step-contents rx [] e = ch.try_recv-nil rx e
  ingress_step-contents rx (v ∷ vs) e = ch.try_recv-cons rx v vs e

  -- One ingress cycle succeeds, hands on the oldest queued message, or an empty slot when the queue
  -- is empty, removes exactly that message from the channel, and stamps the slot, empty or not, with
  -- the time read in this cycle.
  pub process-contents :
      (ctx : clock.Ctx) (rx : ch.Chan) (msg : output.Msg)
      → let p = process ctx rx msg in
        (p.result ≡ ok tt)
        × (output.payload p.output ≡ head? (ch.contents rx))
        × (ch.contents p.chan ≡ tail (ch.contents rx))
        × (output.tov p.output ≡ time (clock.now ctx).0)
  unfolding process
  process-contents ctx rx msg =
      let (v, left) = ingress_step-contents rx (ch.contents rx) refl in
      (
        refl,
        output.payload-set_tov _ _ ∙ payload-place msg (ingress_step ch rx).0 ∙ v,
        left,
        output.tov-set_tov _ _,
      )
