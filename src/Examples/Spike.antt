-- ===== src/Examples/Spike.antt =====
-- The theorems on the spike, at concrete inputs.
use msrs.Shared.{ℕ, ◌≡◌, refl, none, List, [], ◌∷◌, String, ok, returns, true, to_decimal}
use msrs.Spike.{State, closed, opened, handler, Gate}
use msrs.Spike.Main.{Answers, main}
use msrs.Spike.Main.Prints.{main-prints}
use msrs.Examples.Plain.{PlainMsg, plain_msg, counting, empty_at, plain_statig}

abbrev toggle_gate : Gate
toggle_gate = plain_statig closed handler

abbrev debug : State → String
debug closed = "Closed"
debug opened = "Open"

abbrev answers : Answers
answers = record {
  parent_exists = true;
  create_dir_all = ok tt;
  with_log_path = ok tt;
  build = ok tt;
  start_all_tasks = ok tt;
  stop_all_tasks = ok tt;
  starting_clock = "1 ms";
  end_clock = "2 ms";
}

abbrev cycles : ℕ → ℕ × PlainMsg ℕ
cycles i = (i, empty_at 0)

abbrev printed : List String
printed =
    "[copper] starting clock: 1 ms" ∷ "[copper] --- iteration 0 ---"
    ∷ "[copper sink] received i32 = 1" ∷ "[copper] --- iteration 1 ---"
    ∷ "[copper sink] received i32 = 2" ∷ "[copper] --- iteration 2 ---"
    ∷ "[copper sink] received i32 = 3" ∷ "[copper] --- iteration 3 ---"
    ∷ "[copper sink] received i32 = 4" ∷ "[copper] --- iteration 4 ---"
    ∷ "[copper sink] received i32 = 5" ∷ "[copper] end clock: 2 ms" ∷ "--- statig demo ---"
    ∷ "[statig] initial state = Closed" ∷ "[statig] closed -> open (transition #1)"
    ∷ "[statig] now in state = Open" ∷ "[statig] open -> closed (transition #2)"
    ∷ "[statig] now in state = Closed" ∷ "[statig] closed -> open (transition #3)"
    ∷ "[statig] now in state = Open" ∷ "[statig] total transitions recorded in context = 3" ∷ []

main-prints_example :
    main counting (plain_msg ℕ) toggle_gate debug answers none cycles ≡ (printed, returns tt)
unfolding to_decimal
main-prints_example =
    main-prints counting (plain_msg ℕ) cycles toggle_gate debug answers none refl refl refl refl
      refl
