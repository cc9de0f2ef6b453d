-- ===== src/Tasks/CycleIngress/Lossless.antt =====
-- crates/msrs-transport/src/tasks.rs: a run of iterations of `CycleIngressTask`.
use msrs.Shared.{
  ℕ, suc, ◌≤◌, ◌≡◌, sym, ap, ◌∙◌, Option, none, some, List, [], ◌∷◌, ◌++◌, map, append-nil,
  append_assoc,
}
use msrs.Copper.{CuMsg, Clock}
use msrs.Channel.{Channel}
use msrs.Channel.Drain.{Interference, Sends, arrived}
use msrs.Tasks.{Cycle}
use msrs.Tasks.CycleIngress.{CycleIngressTask, process}
use msrs.Tasks.CycleIngress.Sampling.{process-Samples}

abbrev pub events_of : {T : Type 0} → Option (Cycle T) → List T
events_of none = []
events_of (some c) = c.events

-- What arrives over a run of iterations, each of which makes at most `max` + 1 calls.
pub data Arrivals {T : Type 0} (max : ℕ) : List (ℕ → List T) → List T → Type 0 where
  nothing : Arrivals max [] []
  more :
      {sents : List (ℕ → List T)} {rest : List T} (sent : ℕ → List T) (calls : ℕ)
      → calls ≤ suc max
      → Arrivals max sents rest
      → Arrivals max (sent ∷ sents) (arrived sent 0 calls ++ rest)

module _ {T : Type 0} (ch : Channel T) (clock : Clock) (output : CuMsg (Cycle T)) where
  -- What one iteration of the loop brings with it.
  pub record Turn : Type 0 where
    pub env : Interference ch
    pub sent : ℕ → List T
    pub adds : Sends ch env sent
    pub ctx : ℕ → clock.Ctx
    pub msg : output.Msg

  module _ {Rx : Type 0} (task : CycleIngressTask Rx) where
    -- All events that a run of iterations samples, in order, and the channel after it.
    unfoldable pub sample : List Turn → ch.Chan → List T × ch.Chan
    sample [] rx = ([], rx)
    sample (t ∷ turns) rx =
        let p = process ch clock output task t.env t.ctx rx t.msg in
        let (rest, rx') = sample turns p.chan in (events_of (output.payload p.output) ++ rest, rx')

    -- Over any number of iterations, with messages arriving at any moment, the events of all cycles
    -- followed by what is left in the channel are what was queued at first followed by all that
    -- arrived, in the same order: every message is sampled exactly once, or is still queued.
    pub sample-lossless :
        (turns : List Turn) (rx : ch.Chan)
        → let (events, rx') = sample turns rx in
          (all : List T) × Arrivals task.max_batch (map (λ t. t.sent) turns) all
          × (events ++ ch.contents rx' ≡ ch.contents rx ++ all)
    unfolding sample
    sample-lossless [] rx = ([], nothing, sym (append-nil (ch.contents rx)))
    sample-lossless (t ∷ turns) rx =
        let p = process ch clock output task t.env t.ctx rx t.msg in
        let (cycle, calls, fine, payload, tov, stamped, s) =
          process-Samples ch clock output task t.env t.sent t.ctx rx t.msg t.adds in
        let (rest, rx') = sample turns p.chan in
        let (all, arrivals, kept) = sample-lossless turns p.chan in
        (
          arrived t.sent 0 calls ++ all,
          more t.sent calls s.few arrivals,
          ap (λ o. (events_of o ++ rest) ++ ch.contents rx') payload
              ∙ append_assoc cycle.events rest (ch.contents rx')
              ∙ ap (◌++◌ cycle.events) kept
              ∙ sym (append_assoc cycle.events (ch.contents p.chan) all)
              ∙ ap (λ l. l ++ all) s.kept
              ∙ append_assoc (ch.contents rx) (arrived t.sent 0 calls) all,
        )
