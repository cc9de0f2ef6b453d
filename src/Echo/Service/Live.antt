-- ===== src/Echo/Service/Live.antt =====
-- examples/echo/src/main.rs: a live run, its log, and the replay of it.
use msrs.Shared.{
  ◌≡◌, refl, sym, ap, ap₂, ◌∙◌, subst, true, some, List, [], ◌∷◌, ◌++◌, append_assoc, append-nil,
  map, String, ok, Checked, returns, panics,
}
use msrs.Copper.{CuMsg, Clock}
use msrs.Trigger.{Trigger}
use msrs.Effects.Laws.{to_list}
use msrs.Channel.{Channel}
use msrs.Tasks.Egress.Delivery.{Delivers}
use msrs.Replay.Log.{DecodeError, read, LogSource, Holds}
use msrs.Echo.{EchoMsg, Gate}
use msrs.Echo.Numbering.{answer, count_after}
use msrs.Echo.Service.{
  Recorded, CopperList, LogReader, read_recorded, replay, Turn, EchoService, run_one_iteration,
  run_iterations, and_run,
}
use msrs.Echo.Service.Replayed.{answers, body_of, recorded_of, replay-recorded_of}
use msrs.Echo.Service.Iteration.{echoed, iteration-Iterates}
use msrs.Echo.Service.Reading.{IsLogOf, no_cycle, cycle, read_recorded-IsLogOf}

module _ (gate : Gate) (ch : Channel EchoMsg) (clock : Clock) (slot : CuMsg EchoMsg)
    (log : LogReader slot) where
  -- A run, after some echoes: its triggers, its log and what it has sent.
  record Runs (s : EchoService gate ch) (turns : List (Turn ch clock slot)) : Type 0 where
    triggers : List (Trigger EchoMsg)
    last : EchoService gate ch
    copperlists : List (CopperList slot)
    comes_back : run_iterations gate ch clock slot s turns ≡ returns (last, copperlists)
    logged : IsLogOf slot log (echoed s) triggers copperlists
    sent : ch.contents last.tx ≡ ch.contents s.tx ++ answers (echoed s) triggers

  run-Runs :
      (s : EchoService gate ch) (turns : List (Turn ch clock slot))
      → Delivers ch s.tx
      → Runs s turns
  unfolding run_iterations
  run-Runs s [] d = record {
    triggers = [];
    last = s;
    copperlists = [];
    comes_back = refl;
    logged = no_cycle;
    sent = sym (append-nil (ch.contents s.tx));
  }
  run-Runs s (t ∷ turns) d =
      let i = iteration-Iterates gate ch clock slot log.debug_tov s t in
      let s' = (run_one_iteration gate ch clock slot s t).0 in
      let cl = (run_one_iteration gate ch clock slot s t).1 in
      let rest = run-Runs s' turns (i.open_still d) in
      record {
        triggers = i.trigger ∷ rest.triggers;
        last = rest.last;
        copperlists = cl ∷ rest.copperlists;
        comes_back = ap₂ (and_run gate ch clock slot cl) (i.fine d) rest.comes_back;
        logged =
            cycle i.trigger cl i.input i.output (
              subst (λ n. IsLogOf slot log n rest.triggers rest.copperlists) i.counted rest.logged);
        sent =
            rest.sent
            ∙ ap₂ (λ l n. l ++ answers n rest.triggers) (i.sent d) i.counted
            ∙ append_assoc (ch.contents s.tx) (to_list (answer (echoed s) i.trigger))
                (answers (count_after (echoed s) i.trigger) rest.triggers);
      }

  -- With an unbounded outbound channel whose receiver lives, a run of any number of iterations comes
  -- back without a panic: no task fails, whatever arrives and whatever the clocks read.
  pub run_iterations-returns :
      (s : EchoService gate ch) (turns : List (Turn ch clock slot))
      → Delivers ch s.tx
      → (last : EchoService gate ch) × (copperlists : List (CopperList slot)) × (run_iterations gate
            ch clock slot s turns
          ≡ returns (last, copperlists))
  run_iterations-returns s turns d =
      let r = run-Runs s turns d in (r.last, r.copperlists, r.comes_back)

  abbrev run_or :
      EchoService gate ch × List (CopperList slot)
      → Checked (EchoService gate ch × List (CopperList slot))
      → EchoService gate ch × List (CopperList slot)
  run_or d (returns r) = r
  run_or d (panics text) = d

  -- The check at the end of the echo service holds: take any run from a machine that has echoed
  -- nothing yet, with an unbounded outbound channel whose receiver lives, that comes back, and a log
  -- with its slots in the expected order that opens for reading and holds the copperlists of the run.
  -- Reading the log back gives inputs and outputs, the replay of the inputs through a fresh machine
  -- gives exactly these outputs, and the bodies of the messages sent to the transport in the run are
  -- these outputs too, in order.
  pub live-replayed :
      (s last : EchoService gate ch) (turns : List (Turn ch clock slot))
      (copperlists : List (CopperList slot)) (log_base : String)
      (reader : LogSource.Reader log.source) (e : DecodeError)
      → Delivers ch s.tx
      → echoed s ≡ 0
      → run_iterations gate ch clock slot s turns ≡ returns (last, copperlists)
      → log.in_order ≡ true
      → LogSource.build log.source log_base ≡ ok (read reader)
      → Holds log.source reader copperlists e
      → (recorded : Recorded) × (read_recorded slot log log_base ≡ some (returns recorded))
        × (replay gate recorded.ingress_inputs ≡ returns recorded.echo_outputs)
        × ((sent : List EchoMsg) × (ch.contents last.tx ≡ ch.contents s.tx ++ sent)
            × (map body_of sent ≡ recorded.echo_outputs))
  live-replayed s last turns copperlists log_base reader e d fresh run ordered opened held =
      let r = run-Runs s turns d in
      let same : (r.last, r.copperlists) ≡ (last, copperlists) =
        ap (run_or (last, copperlists)) (sym r.comes_back ∙ run) in
      let logged : IsLogOf slot log 0 r.triggers copperlists =
        subst (λ n. IsLogOf slot log n r.triggers copperlists) fresh
          (subst (λ p. IsLogOf slot log (echoed s) r.triggers p.1) same r.logged) in
      (
        recorded_of 0 r.triggers,
        read_recorded-IsLogOf slot log log_base reader r.triggers copperlists e ordered opened held
            logged,
        replay-recorded_of gate r.triggers,
        (
          answers 0 r.triggers,
          ap (λ p. ch.contents p.0.tx) (sym same)
              ∙ r.sent
              ∙ ap (λ n. ch.contents s.tx ++ answers n r.triggers) fresh,
          refl,
        ),
      )
