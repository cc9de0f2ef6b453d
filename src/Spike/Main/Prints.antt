-- ===== src/Spike/Main/Prints.antt =====
-- spike/src/main.rs: what `main` prints, from its first line to its last.
use Prim.Native.String.{◌++◌}
use msrs.Shared.{
  ℕ, zero, suc, ◌%◌, ◌^◌, ◌≡◌, refl, ap, ◌∙◌, arith, Option, List, [], ◌∷◌, String, ok, returns,
  to_decimal,
}
use msrs.Shared.{◌++◌ as append}
use msrs.Copper.{CuMsg, Clock, ComponentConfig}
use msrs.Spike.{Counter, new, next_count, State, Gate}
use msrs.Spike.Toggling.{statig_lines, run_statig-toggled}
use msrs.Spike.Main.{Answers, create_logs, i32_text, iterate, main}

abbrev pub iteration_line : ℕ → String
iteration_line i = "[copper] --- iteration " ++ (to_decimal i ++ " ---")

abbrev pub received_line : ℕ → String
received_line n = "[copper sink] received i32 = " ++ i32_text n

abbrev pub starting_line : Answers → String
starting_line a = "[copper] starting clock: " ++ a.starting_clock

-- What so many iterations print, from the i-th on.
abbrev pub iteration_lines : ℕ → ℕ → List String
iteration_lines zero i = []
iteration_lines (suc left) i =
    iteration_line i ∷ received_line (suc i % 2 ^ 32) ∷ iteration_lines left (suc i)

module _ (clock : Clock) (msg : CuMsg ℕ) (cycle : ℕ → clock.Ctx × msg.Msg) where
  -- The copper loop never panics; its i-th iteration prints its own number, and then the sink
  -- prints the number that the source counts to in it, i + 1 (modulo 2^32).
  pub iterate-prints :
      (left i : ℕ) (c : Counter)
      → c.count ≡ i % 2 ^ 32
      → iterate clock msg cycle left i c ≡ (iteration_lines left i, returns tt)
  unfolding iterate
  iterate-prints zero i c h = refl
  iterate-prints (suc left) i c h =
      let counted : next_count c.count ≡ suc i % 2 ^ 32 = ap next_count h ∙ omega arith in
      rw (msg.payload-set_tov, msg.payload-set_payload, counted)
        (rw (iterate-prints left (suc i) (record { count = suc i % 2 ^ 32 }) refl))

  -- What `main` prints where nothing fails.
  abbrev pub main_lines : (State → String) → Answers → List String
  main_lines debug a =
      starting_line a
      ∷ append (iteration_lines 5 0)
          (("[copper] end clock: " ++ a.end_clock) ∷ "--- statig demo ---" ∷ statig_lines debug 3)

  -- Where copper and the file system answer without an error, `main` of the spike comes to its end,
  -- whatever the clocks read and the slots held before, and prints, between the readings of the
  -- clock, the numbers that the source counts to, one in each of five iterations, and then the three
  -- moves of the machine from its closed state, each with its number.
  pub main-prints :
      (gate : Gate) (debug : State → String) (a : Answers) (config : Option ComponentConfig)
      → create_logs a ≡ returns tt
      → a.with_log_path ≡ ok tt
      → a.build ≡ ok tt
      → a.start_all_tasks ≡ ok tt
      → a.stop_all_tasks ≡ ok tt
      → main clock msg gate debug a config cycle ≡ (main_lines debug a, returns tt)
  unfolding main new
  main-prints gate debug a config logs log built started stopped =
      rw (logs, log, built, started, iterate-prints 5 0 (record { count = 0 }) refl, stopped)
        (rw ((run_statig-toggled gate debug 3 []).2))
