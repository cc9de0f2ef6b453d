-- ===== src/Echo/Main/Counts.antt =====
-- examples/echo/src/main.rs: which checks of `main` can fail after a live run.
use msrs.Shared.{
  ◌≡◌, sym, ap, ◌∙◌, subst, Bool, true, false, some, ◌∷◌, List, [], ◌++◌, append-nil, String, ok,
  returns, panics, Bool-cases, inl, inr, map, length, ◌==◌,
}
use msrs.Shared.Printing.{Printing}
use msrs.Shared.Checks.{same_texts_refl}
use msrs.Copper.{CuMsg, Clock}
use msrs.Channel.{Channel}
use msrs.Tasks.Egress.Delivery.{Delivers}
use msrs.Replay.Log.{DecodeError, read, LogSource, Holds}
use msrs.Echo.{EchoMsg, Gate}
use msrs.Echo.Service.{
  Recorded, CopperList, LogReader, read_recorded, replay, Turn, EchoService, run_iterations,
}
use msrs.Echo.Service.Replayed.{body_of}
use msrs.Echo.Service.Iteration.{echoed}
use msrs.Echo.Service.Live.{live-replayed}
use msrs.Echo.Main.{main, Files, lines, live_line, replay_line, recovered_line}

-- What `main` prints and comes to where only the number of echoes is open: every echo, and where
-- they are all there, what was recovered, every echo again, and the verdict.
abbrev pub by_count : List String → Recorded → Bool → Printing Bool
by_count live recorded true = (
  map live_line live
      ++ recovered_line recorded
        ∷ (map replay_line live ++ "REPLAY DETERMINISM: OK (diff empty)" ∷ []),
  returns true,
)
by_count live recorded false = (map live_line live, panics "live run did not echo every input")

module _ (gate : Gate) (files : Files) where
  -- Where the replay gives the recorded outputs, and these are the echoes, their number decides.
  main-by_count :
      (inputs : List String) (recorded : Recorded)
      → replay gate recorded.ingress_inputs ≡ returns recorded.echo_outputs
      → files.create_dir_all ≡ ok tt
      → files.write_live ≡ ok tt
      → files.write_replay ≡ ok tt
      → main gate files inputs recorded.echo_outputs (returns recorded)
        ≡ by_count recorded.echo_outputs recorded (length recorded.echo_outputs == length inputs)
  unfolding main
  main-by_count inputs recorded same created live_written replay_written =
      elim (Bool-cases (length recorded.echo_outputs == length inputs)) [
        | inl all ↦
            rw (created, all, main)
              (rw same (
                rw (
                  same_texts_refl recorded.echo_outputs,
                  live_written,
                  replay_written,
                  files.diff_refl (lines recorded.echo_outputs),
                )))
        | inr fewer ↦
            rw (created, fewer, main)
              (ap (λ l. (l, panics "live run did not echo every input")) (append-nil _))
      ]

  module _ (ch : Channel EchoMsg) (clock : Clock) (slot : CuMsg EchoMsg)
      (log : LogReader slot) where
    -- The outcome of the echo service's `main` rests on the number of echoes alone: take any run from
    -- a machine that has echoed nothing yet, with an unbounded outbound channel that is empty and
    -- whose receiver lives, that comes back, and a log with its slots in the expected order that opens
    -- for reading and holds the copperlists of the run, with a file system that does not fail. Where
    -- the texts that the run sent are collected, `main` prints them all, and panics at the check of
    -- their number if they are not as many as the inputs. Otherwise it goes on to print what was
    -- recovered from the log, the same texts as replayed, and the empty difference, and ends with
    -- success; neither the replay nor `diff` ever finds a difference.
    pub main-counts :
        (inputs : List String) (s last : EchoService gate ch) (turns : List (Turn ch clock slot))
        (copperlists : List (CopperList slot)) (log_base : String)
        (reader : LogSource.Reader log.source) (e : DecodeError)
        → Delivers ch s.tx
        → ch.contents s.tx ≡ []
        → echoed s ≡ 0
        → run_iterations gate ch clock slot s turns ≡ returns (last, copperlists)
        → log.in_order ≡ true
        → LogSource.build log.source log_base ≡ ok (read reader)
        → Holds log.source reader copperlists e
        → files.create_dir_all ≡ ok tt
        → files.write_live ≡ ok tt
        → files.write_replay ≡ ok tt
        → let live = map body_of (ch.contents last.tx) in
          (recorded : Recorded) × (read_recorded slot log log_base ≡ some (returns recorded))
          × (main gate files inputs live (returns recorded)
              ≡ by_count live recorded (length live == length inputs))
    main-counts inputs s last turns copperlists log_base reader e d empty fresh run ordered opened
          held created live_written replay_written =
        let (recorded, back, same, (sent, all, bodies)) =
          live-replayed gate ch clock slot log s last turns copperlists log_base reader e d fresh
            run ordered opened held in
        let live : map body_of (ch.contents last.tx) ≡ recorded.echo_outputs =
          ap (map body_of) (all ∙ ap (λ l. l ++ sent) empty) ∙ bodies in
        (
          recorded,
          back,
          subst
              (λ l.
                main gate files inputs l (returns recorded)
                ≡ by_count l recorded (length l == length inputs))
              (sym live) (main-by_count inputs recorded same created live_written replay_written),
        )
