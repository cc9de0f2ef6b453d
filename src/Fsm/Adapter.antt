-- ===== src/Fsm/Adapter.antt =====
-- crates/msrs-core/src/fsm_task.rs: the trigger that a `process()` cycle builds.
use msrs.Shared.{◌≡◌, refl, ◌≢◌, ◌⊎◌, inl, inr, Option, none, some}
use msrs.Copper.{CuMsg, CuResult, Clock, Tov, time, range, unset}
use msrs.Trigger.{Trigger, tick, message}

-- What a call of a task's `process` leaves behind.
pub record Processed (Task Msg Ctx : Type 0) : Type 0 where
  pub task : Task
  pub output : Msg
  pub ctx : Ctx
  pub result : CuResult (Unit {0})

module _ {In : Type 0} (clock : Clock) (input : CuMsg In) where
  unfoldable pub tick_for : clock.Ctx → Tov → Trigger In × clock.Ctx
  tick_for ctx (time t) = (tick t, ctx)
  tick_for ctx (range r) = (tick r.start, ctx)
  tick_for ctx unset = let (t, ctx') = clock.now ctx in (tick t, ctx')

  unfoldable pub trigger_of : clock.Ctx → Tov → Option In → Trigger In × clock.Ctx
  unfolding tick_for
  trigger_of ctx tov (some msg) = (message msg, ctx)
  trigger_of ctx tov none = tick_for ctx tov

  -- The trigger, and the context after the readings of its clock.
  unfoldable pub trigger_for : clock.Ctx → input.Msg → Trigger In × clock.Ctx
  unfolding trigger_of
  trigger_for ctx msg = trigger_of ctx (input.tov msg) (input.payload msg)

  -- A cycle whose trigger the recorded input determines: it has a payload, or a time of validity.
  abbrev pub IsRecorded : input.Msg → Type 0
  IsRecorded msg = (input.payload msg ≢ none) ⊎ (input.tov msg ≢ unset)

  pub trigger_of-recorded :
      (c d : clock.Ctx) (tov : Tov) (o : Option In)
      → (o ≢ none) ⊎ (tov ≢ unset)
      → (trigger_of c tov o).0 ≡ (trigger_of d tov o).0
  unfolding trigger_of
  trigger_of-recorded c d tov (some m) h = refl
  trigger_of-recorded c d (time t) none h = refl
  trigger_of-recorded c d (range r) none h = refl
  trigger_of-recorded c d unset none (inl h) = absurd (h refl)
  trigger_of-recorded c d unset none (inr h) = absurd (h refl)

  pub trigger_for-recorded :
      (c d : clock.Ctx) (msg : input.Msg)
      → IsRecorded msg
      → (trigger_for c msg).0 ≡ (trigger_for d msg).0
  unfolding trigger_for
  trigger_for-recorded c d msg h = trigger_of-recorded c d _ _ h
