-- ===== src/Watchdog/Threads/Iterating.antt =====
-- examples/watchdog/src/main.rs: what the moves of `run_live` keep.
use msrs.Shared.{
  ℕ, suc, ◌≡◌, ◌+◌, refl, sym, ap, ap₂, ◌∙◌, List, [], ◌∷◌, ◌++◌, append-nil, append_assoc, ok, err,
  length, length-append, take, arith,
}
use msrs.Copper.{CuMsg, Clock}
use msrs.Channel.{Channel}
use msrs.Channel.Drain.{drain-quiet}
use msrs.Fsm.Batch.{Batch}
use msrs.Tasks.{Cycle}
use msrs.Tasks.Egress.Delivery.{Delivers}
use msrs.Trigger.{message}
use msrs.Fsm.{run_step_all}
use msrs.Fsm.Forwarding.{batch_of}
use msrs.Watchdog.{Feed, Alarm, Gate, default, watchdog}
use msrs.Watchdog.Service.{Step, alarms_in, Turn, run_one_iteration}
use msrs.Watchdog.Service.Iteration.{ids_from, iteration-Iterates}
use msrs.Watchdog.Threads.{
  Forwarder, forwarding, at_feeder, ended, Main, iterating, joining, came_back, panicked, System,
  iterate, iterate_at, log_one, stop_at, join_at, try_iter,
}
use msrs.Watchdog.Threads.Recording.{
  after-append, IsRecordOf-append, collect_steps-append, alarms_of-append, ids-append,
  ids_from-last,
}
use msrs.Watchdog.Threads.Flow.{Flow, Flowing, InvAt, Inv, InvAt-Flow}

module _ (gate : Gate) (ch : Channel Feed) (out results : Channel Alarm) (clock : Clock)
    (cycles : CuMsg (Cycle Feed)) (alarms : CuMsg (Batch Alarm)) where
  abbrev Sys : Type 0
  Sys = System gate ch out results clock cycles alarms

  abbrev Holds : Sys → Type 0
  Holds s = Inv gate ch out results clock cycles alarms s

  abbrev At : Forwarder → Main → Sys → Type 0
  At f m s = InvAt gate ch out results clock cycles alarms f m s.service s.collected s.log

  -- A system whose threads are at these places.
  abbrev placed : Forwarder → Main → Sys → Sys
  placed f m s = record s { forwarder = f; main = m }

  numbered_by :
      (s : Sys) (t : Turn ch clock cycles alarms) (n : ℕ)
      → s.service.next ≡ n
      → (run_one_iteration gate ch out clock cycles alarms s.service t).1.id ≡ 0 + n
  unfolding run_one_iteration
  numbered_by s t n e = omega (arith, e)

  counts :
      (s : Sys) (t : Turn ch clock cycles alarms)
      → (run_one_iteration gate ch out clock cycles alarms s.service t).0.next ≡ suc s.service.next
  unfolding run_one_iteration
  counts s t = refl

  -- The steps after one more iteration that has gone well.
  iterated :
      (f : Forwarder) (s : Sys) (t : Turn ch clock cycles alarms)
      → (inv : At f iterating s) → Delivers out s.service.tx
      → ((steps : List Step) (tx : out.Chan)
          → Flowing gate ch out results clock cycles alarms steps tx s.collected
          → Flow gate ch out results clock cycles alarms steps f iterating tx s.collected)
      → Flowing gate ch out results clock cycles alarms inv.steps s.service.tx s.collected
      → Holds (iterate gate ch out results clock cycles alarms t (placed f iterating s))
  unfolding iterate log_one
  iterated f s t inv d there (all, _) =
      let i = iteration-Iterates gate ch out clock cycles alarms s.service t d in
      let cl = (run_one_iteration gate ch out clock cycles alarms s.service t).1 in
      let s' = (run_one_iteration gate ch out clock cycles alarms s.service t).0 in
      let output = alarms.payload cl.alarmed in
      let step : Step = record { id = cl.id; input = i.sampled; output = output } in
      let steps = inv.steps ++ step ∷ [] in
      let more : length steps ≡ suc (length inv.steps) =
        omega (arith, length-append {0} inv.steps (step ∷ [])) in
      let stepped = ap (λ m. run_step_all (watchdog gate) m (message i.sampled)) inv.moved in
      rw (i.fine, iterate)
        (record {
          steps = steps;
          recovered =
              collect_steps-append cycles alarms s.log cl i.sampled inv.steps inv.recovered i.input;
          recorded =
              IsRecordOf-append gate (default gate) inv.steps step inv.recorded
                (i.output ∙ ap (λ r. batch_of r.1) stepped);
          moved =
              i.moved
              ∙ ap (λ r. r.0) stepped
              ∙ sym (after-append gate (default gate) inv.steps step);
          numbered =
              ids-append inv.steps (step ∷ [])
              ∙ ap₂ (λ l n. l ++ n ∷ []) inv.numbered (numbered_by s t (length inv.steps) inv.next)
              ∙ ids_from-last 0 (length inv.steps)
              ∙ ap (ids_from 0) (sym more);
          next = counts s t ∙ ap suc inv.next ∙ sym more;
          counted = omega (arith, inv.counted, more, length-append {0} s.log (cl ∷ []));
          delivering = inv.delivering;
          flow = there steps s'.tx (
            ap (λ l. results.contents s.collected ++ l) i.sent
                ∙ sym (
                    append_assoc (results.contents s.collected) (out.contents s.service.tx)
                      (alarms_in output))
                ∙ ap₂ ◌++◌ all (sym (append-nil (alarms_in output)))
                ∙ sym (alarms_of-append inv.steps (step ∷ [])),
            i.open_still,
          );
        })

  pub iterate_at-Inv :
      (f : Forwarder) (m : Main) (s : Sys) (t : Turn ch clock cycles alarms)
      → At f m s
      → Holds (iterate_at gate ch out results clock cycles alarms m t (placed f m s))
  unfolding iterate_at
  iterate_at-Inv forwarding iterating s t inv =
      iterated forwarding s t inv inv.flow.1 (λ steps tx h. h) inv.flow
  iterate_at-Inv at_feeder iterating s t inv = absurd inv.flow
  iterate_at-Inv (ended (ok _)) iterating s t inv = absurd inv.flow
  iterate_at-Inv (ended (err e)) iterating s t inv = absurd inv.flow
  iterate_at-Inv f joining s t inv = inv
  iterate_at-Inv f (came_back live) s t inv = inv
  iterate_at-Inv f (panicked text) s t inv = inv

  pub stop_at-Inv :
      (f : Forwarder) (m : Main) (s : Sys)
      → At f m s
      → Holds (stop_at gate ch out results clock cycles alarms (ok tt) m (placed f m s))
  unfolding stop_at
  stop_at-Inv forwarding iterating s inv =
      InvAt-Flow gate ch out results clock cycles alarms (ch.drop_receiver s.service.rx)
        s.service.tx inv inv.delivering inv.flow
  stop_at-Inv at_feeder iterating s inv = absurd inv.flow
  stop_at-Inv (ended (ok _)) iterating s inv = absurd inv.flow
  stop_at-Inv (ended (err e)) iterating s inv = absurd inv.flow
  stop_at-Inv f joining s inv = inv
  stop_at-Inv f (came_back live) s inv = inv
  stop_at-Inv f (panicked text) s inv = inv

  -- Collecting gives all that is queued.
  try_iter-contents :
      (c : results.Chan) → try_iter gate ch out results clock cycles alarms c ≡ results.contents c
  unfolding try_iter
  try_iter-contents c =
      (drain-quiet results (suc (results.len c)) 0 c).0
      ∙ ap (λ n. take (suc n) (results.contents c)) (results.len-contents c)
      ∙ take_more (results.contents c)
    where
      take_more : (l : List Alarm) → take (suc (length l)) l ≡ l
      take_more [] = refl
      take_more (v ∷ vs) = ap (◌∷◌ v) (take_more vs)

  pub join_at-Inv :
      (f : Forwarder) (m : Main) (s : Sys)
      → At f m s
      → Holds (join_at gate ch out results clock cycles alarms m f (placed f m s))
  unfolding join_at
  join_at-Inv (ended (ok _)) joining s inv =
      InvAt-Flow gate ch out results clock cycles alarms s.service.rx s.service.tx inv
        inv.delivering (try_iter-contents s.collected ∙ inv.flow)
  join_at-Inv (ended (err e)) joining s inv = absurd inv.flow
  join_at-Inv forwarding joining s inv = inv
  join_at-Inv at_feeder joining s inv = inv
  join_at-Inv f iterating s inv = inv
  join_at-Inv f (came_back live) s inv = inv
  join_at-Inv f (panicked text) s inv = inv
