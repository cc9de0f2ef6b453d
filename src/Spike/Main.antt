-- ===== src/Spike/Main.antt =====
-- spike/src/main.rs: the printing sink and `main`, with the lines that it prints. What copper and
-- the file system answer, and the texts that they print, are parameters.
pub mod Prints
use Prim.Native.String.{◌++◌}
use msrs.Shared.{
  ℕ, zero, suc, ◌-◌, ◌^◌, Bool, Option, none, some, List, [], ◌∷◌, String, Result, ok, err, Checked,
  returns, panics, ltb, to_decimal, if◌then◌else◌,
}
use msrs.Shared.{◌++◌ as append}
use msrs.Shared.Checks.{expect}
use msrs.Shared.Printing.{Printing, ◌>>=◌, ◌>>◌, print, print_each, silently}
use msrs.Copper.{CuMsg, CuResult, Clock, ComponentConfig}
use msrs.Spike.{Counter, new, process, State, Gate, run_statig}

-- An i32 in decimal, from its bits.
abbrev pub i32_text : ℕ → String
i32_text n = if ltb n (2 ^ 31) then to_decimal n else "-" ++ to_decimal (2 ^ 32 - n)

-- What copper and the file system answer to `main`; an error is its `{:?}` text.
pub record Answers : Type 0 where
  pub parent_exists : Bool
  pub create_dir_all : Result String (Unit {0})
  pub with_log_path : Result String (Unit {0})
  pub build : Result String (Unit {0})
  pub start_all_tasks : Result String (Unit {0})
  pub stop_all_tasks : Result String (Unit {0})
  pub starting_clock : String
  pub end_clock : String

abbrev pub create_logs : Answers → Checked (Unit {0})
create_logs a =
    if a.parent_exists
    then returns tt
    else expect "Failed to create logs directory" a.create_dir_all

module _ (clock : Clock) (msg : CuMsg ℕ) where
  -- `Printer::process`, with the lines that it prints.
  unfoldable pub print_payload : Option ℕ → List String × CuResult (Unit {0})
  print_payload (some value) = (("[copper sink] received i32 = " ++ i32_text value) ∷ [], ok tt)
  print_payload none = ([], ok tt)

  -- One `run_one_iteration`: the counter, and then the printer on what it left in its slot.
  unfoldable pub run_one_iteration :
      Counter → clock.Ctx → msg.Msg → Counter × List String × CuResult (Unit {0})
  unfolding process print_payload
  run_one_iteration c ctx slot =
      let (c', slot', ctx', result) = process clock msg c ctx slot in
      let (out, printed) = print_payload (msg.payload slot') in
      elim result [ ok _ ↦ (c', out, printed) | err e ↦ (c', [], err e) ]

  -- The loop from the i-th iteration on; each iteration has a context and a slot of its own.
  unfoldable pub iterate : (ℕ → clock.Ctx × msg.Msg) → ℕ → ℕ → Counter → Printing (Unit {0})
  unfolding run_one_iteration
  iterate cycle zero i c = silently (returns tt)
  iterate cycle (suc left) i c =
      let (ctx, slot) = cycle i in
      let (c', out, result) = run_one_iteration c ctx slot in
      let rest = iterate cycle left (suc i) c' in
      do
        print ("[copper] --- iteration " ++ (to_decimal i ++ " ---"))
        (out, expect "run_one_iteration failed" result)
        rest

  module _ (gate : Gate) (debug : State → String) where
    -- `main`: the lines printed, and whether it panics.
    unfoldable pub main :
        Answers → Option ComponentConfig → (ℕ → clock.Ctx × msg.Msg) → Printing (Unit {0})
    main a config cycle = do
      silently (create_logs a)
      silently (expect "Failed to setup logger." a.with_log_path)
      silently (expect "Failed to create application." a.build)
      counter ← silently (expect "Failed to create application." (new config))
      print ("[copper] starting clock: " ++ a.starting_clock)
      silently (expect "start_all_tasks failed" a.start_all_tasks)
      iterate cycle 5 0 counter
      silently (expect "stop_all_tasks failed" a.stop_all_tasks)
      print ("[copper] end clock: " ++ a.end_clock)
      print "--- statig demo ---"
      print_each (run_statig gate debug 3 []).1.stdout
