-- ===== src/Tasks/CycleIngress/Sampling.antt =====
-- crates/msrs-transport/src/tasks.rs: what `CycleIngressTask` samples while the driver thread sends.
use msrs.Shared.{
  ℕ, suc, ◌+◌, ◌-◌, ◌<◌, ◌≤◌, ◌≡◌, refl, sym, ap, ap₂, ◌∙◌, some, List, ◌++◌, append_assoc, length,
  length-drop, take, drop, ok, arith,
}
use msrs.Copper.{CuMsg, Clock, time}
use msrs.Channel.{Channel}
use msrs.Channel.Drain.{
  Interference, quiet, Sends, drain, arrived, arrived-suc, drain-Drained, drain-quiet,
}
use msrs.Tasks.{Cycle, cycle_step}
use msrs.Tasks.CycleIngress.{CycleIngressTask, process}

module _ {T : Type 0} (ch : Channel T) where
  -- What one cycle samples in so many calls, the last of which asks for the number left: nothing of
  -- what was queued or arrived is lost, doubled or reordered.
  pub record Samples (env : Interference ch) (sent : ℕ → List T) (max : ℕ) (rx : ch.Chan)
      (cycle : Cycle T) (rx' : ch.Chan) (calls : ℕ) : Type 0 where
    pub few : calls ≤ suc max
    pub many : length cycle.events < calls
    pub bounded : length cycle.events ≤ max
    pub counted : cycle.pending ≡ length (ch.contents rx')
    pub kept : cycle.events ++ ch.contents rx' ≡ ch.contents rx ++ arrived sent 0 calls

  cycle_step-Samples :
      (env : Interference ch) (sent : ℕ → List T) (max now : ℕ) (rx : ch.Chan)
      → Sends ch env sent
      → let (cycle, rx', calls) = cycle_step ch env rx max now in
        Samples env sent max rx cycle rx' calls
  unfolding cycle_step
  cycle_step-Samples env sent max now rx adds =
      let d = drain-Drained ch env sent adds max 0 rx in
      let (events, left, n) = drain ch max env 0 rx in
      let made : d.calls ≡ n = omega (arith, d.next) in
      let from_zero : n ≡ 0 + n = omega arith in
      record {
        few = omega (arith, d.few, d.next);
        many = omega (arith, d.many, d.next);
        bounded = d.bounded;
        counted = ch.len-contents (env n left);
        kept =
            ap (◌++◌ events) (adds n left)
            ∙ sym (append_assoc events (ch.contents left) (sent n))
            ∙ ap (λ l. l ++ sent n) (d.kept ∙ ap (λ k. ch.contents rx ++ arrived sent 0 k) made)
            ∙ append_assoc (ch.contents rx) (arrived sent 0 n) (sent n)
            ∙ ap (λ k. ch.contents rx ++ (arrived sent 0 n ++ sent k)) from_zero
            ∙ ap (◌++◌ (ch.contents rx)) (sym (arrived-suc sent 0 n));
      }

  module _ (clock : Clock) (output : CuMsg (Cycle T)) {Rx : Type 0} where
    -- One cycle of `CycleIngressTask`, while time passes and the driver thread adds messages at any
    -- moment, succeeds and puts out a cycle whether or not there were messages. The cycle is stamped,
    -- as is the slot, with the time read after all the calls that it makes on the channel, at most
    -- `max_batch` + 1 of them and more than it has events, so every event was taken before the clock
    -- was read; it has at most `max_batch` events; `pending` is the number left queued; and the events
    -- followed by what is left are what was queued, in order, followed by what arrived before these
    -- calls.
    pub process-Samples :
        (task : CycleIngressTask Rx) (env : Interference ch) (sent : ℕ → List T)
        (ctx : ℕ → clock.Ctx) (rx : ch.Chan) (msg : output.Msg)
        → Sends ch env sent
        → let p = process ch clock output task env ctx rx msg in
          (cycle : Cycle T) × (calls : ℕ) × (p.result ≡ ok tt)
          × (output.payload p.output ≡ some cycle)
          × (output.tov p.output ≡ time (clock.now (ctx calls)).0)
          × (cycle.now_ns ≡ (clock.now (ctx calls)).0)
          × Samples env sent task.max_batch rx cycle p.chan calls
    unfolding process
    process-Samples task env sent ctx rx msg adds =
        let (cycle, rx', calls) = cycle_step ch env rx task.max_batch 0 in
        let s = cycle_step-Samples env sent task.max_batch 0 rx adds in
        (
          record cycle { now_ns = (clock.now (ctx calls)).0 },
          calls,
          refl,
          output.payload-set_tov _ _ ∙ output.payload-set_payload msg _,
          output.tov-set_tov _ _,
          refl,
          record {
            few = s.few;
            many = s.many;
            bounded = s.bounded;
            counted = s.counted;
            kept = s.kept;
          },
        )

    -- The time that a quiet cycle reads.
    abbrev pub stamp_of : CycleIngressTask Rx → (ℕ → clock.Ctx) → ch.Chan → ℕ
    stamp_of task ctx rx =
        let (events, left, n) = drain ch task.max_batch (quiet ch) 0 rx in
        (clock.now (ctx (suc n))).0

    -- When the driver thread is quiet during a cycle, the cycle's events are the oldest messages, as
    -- many as the cap allows, the others stay queued in their order, and `pending` is their number.
    pub process-quiet :
        (task : CycleIngressTask Rx) (ctx : ℕ → clock.Ctx) (rx : ch.Chan) (msg : output.Msg)
        → let p = process ch clock output task (quiet ch) ctx rx msg in
          (output.payload p.output
            ≡ some (record {
              now_ns = stamp_of task ctx rx;
              events = take task.max_batch (ch.contents rx);
              pending = length (ch.contents rx) - task.max_batch;
            }))
          × (ch.contents p.chan ≡ drop task.max_batch (ch.contents rx))
    unfolding process
    process-quiet task ctx rx msg =
        let (events, kept) = drain-quiet ch task.max_batch 0 rx in
        let left = (drain ch task.max_batch (quiet ch) 0 rx).1 in
        let pending : ch.len left ≡ length (ch.contents rx) - task.max_batch =
          ch.len-contents left ∙ ap length kept ∙ length-drop task.max_batch (ch.contents rx) in
        (
          output.payload-set_tov _ _
              ∙ output.payload-set_payload msg _
              ∙ ap₂
                  (λ l n. some (record { now_ns = stamp_of task ctx rx; events = l; pending = n }))
                  events pending,
          kept,
        )
