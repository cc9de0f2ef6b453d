-- ===== src/Watchdog/Main.antt =====
-- examples/watchdog/src/main.rs: `main`, from the alarms of the live run and the steps read back,
-- with the lines that it prints. The removal of old logs is left out.
pub mod Decides
use Prim.Native.String.{◌++◌}
use msrs.Shared.{
  ℕ, ◌+◌, Bool, true, false, not, ◌&&◌, List, [], ◌∷◌, String, Result, ok, err, Checked, returns,
  panics, map, length, ◌==◌, to_decimal,
}
use msrs.Shared.Checks.{assert, expect, same_texts}
use msrs.Shared.Printing.{Printing, ◌>>=◌, ◌>>◌, print, print_each, silently}
use msrs.Replay.{GateReport, passed}
use msrs.Watchdog.{Alarm, armed_alarm, tripped_alarm, recovered_alarm, Gate}
use msrs.Watchdog.Service.{Step, Encoding, replay, perturb, alarms_of, kind}

-- `PartialEq` as derived for `Alarm`.
unfoldable pub same_alarm : Alarm → Alarm → Bool
same_alarm armed_alarm armed_alarm = true
same_alarm armed_alarm (tripped_alarm n) = false
same_alarm armed_alarm recovered_alarm = false
same_alarm (tripped_alarm m) armed_alarm = false
same_alarm (tripped_alarm m) (tripped_alarm n) = m == n
same_alarm (tripped_alarm m) recovered_alarm = false
same_alarm recovered_alarm armed_alarm = false
same_alarm recovered_alarm (tripped_alarm n) = false
same_alarm recovered_alarm recovered_alarm = true

unfoldable pub same_alarms : List Alarm → List Alarm → Bool
unfolding same_alarm
same_alarms [] [] = true
same_alarms [] (y ∷ ys) = false
same_alarms (x ∷ xs) [] = false
same_alarms (x ∷ xs) (y ∷ ys) = same_alarm x y && same_alarms xs ys

abbrev pub expected_kinds : List String
expected_kinds = "armed" ∷ "tripped" ∷ "recovered" ∷ "tripped" ∷ []

abbrev pub kinds_text : String
kinds_text = "live run did not arm, trip on silence, recover, and trip after the last feed"

-- `{:?}` as derived for `Alarm`.
abbrev pub alarm_text : Alarm → String
alarm_text armed_alarm = "Armed"
alarm_text (tripped_alarm n) = "Tripped { silent_ns: " ++ (to_decimal n ++ " }")
alarm_text recovered_alarm = "Recovered"

abbrev pub live_line : Alarm → String
live_line a = "[live] " ++ alarm_text a

-- `map(..).sum()`, as a natural number.
abbrev pub count_feeds : List Step → ℕ
count_feeds [] = 0
count_feeds (s ∷ steps) = length s.input.events + count_feeds steps

abbrev pub recovered_line : List Step → String
recovered_line steps =
    "[replay] recovered "
    ++ (to_decimal (length steps)
        ++ (" cycle(s) carrying "
            ++ (to_decimal (count_feeds steps)
                ++ (" feed(s) and "
                    ++ (to_decimal (length (alarms_of steps)) ++ " alarm(s) from the log")))))

abbrev pub control_line : ℕ → String
control_line divergent =
    "[replay] negative control diverged as required ("
    ++ (to_decimal divergent ++ " divergent step(s))")

abbrev pub last_line : String
last_line = "REPLAY DETERMINISM: OK (log == replay, bit-identical; ids contiguous)"

module _ (gate : Gate) (enc : Encoding) (debug_report : GateReport → String) where
  -- `main`, by what `create_dir_all`, the live run and `read_recorded` come back with: the lines
  -- printed, and whether it panics.
  unfoldable pub main :
      Result String (Unit {0}) → List Alarm → Checked (List Step) → Printing (Unit {0})
  unfolding same_alarms
  main created live read = do
    silently (expect "create log dir" created)
    print_each (map live_line live)
    silently (assert (same_texts (map kind live) expected_kinds) kinds_text)
    recorded ← silently read
    print (recovered_line recorded)
    silently (
        assert (same_alarms (alarms_of recorded) live)
          "the log does not hold the alarms the live run sent")
    let report = replay gate enc recorded
    print ("[replay] " ++ debug_report report)
    silently
        (assert (passed report) ("replay diverged or the log has gaps: " ++ debug_report report))
    perturbed ← silently (perturb recorded)
    let control = replay gate enc perturbed
    silently (assert (not (passed control)) "negative control passed: the gate is vacuous")
    print (control_line control.divergent)
    print last_line
