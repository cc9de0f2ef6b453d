-- ===== src/Echo/Main.antt =====
-- examples/echo/src/main.rs: `main`, from the echoes of the live run and what is read back, with the
-- lines that it prints on either stream. The removal of old logs is left out; the file system and the
-- program `diff` are a parameter.
pub mod Counts
use Prim.Native.String.{◌++◌}
use msrs.Shared.{
  ℕ, suc, ◌≡◌, Bool, true, false, List, [], ◌∷◌, map, String, Result, ok, err, Checked, returns,
  panics, length, ◌==◌, to_decimal, if◌then◌else◌,
}
use msrs.Shared.Checks.{assert, expect, same_texts}
use msrs.Shared.Printing.{Printing, ◌>>=◌, ◌>>◌, print, print_each, silently}
use msrs.Echo.{Gate}
use msrs.Echo.Service.{RecordedInput, recorded_message, recorded_tick, Recorded, replay}

-- `[String]::join`.
abbrev pub join_tail : String → List String → String
join_tail sep [] = ""
join_tail sep (t ∷ ts) = sep ++ (t ++ join_tail sep ts)

abbrev pub join : List String → String → String
join [] sep = ""
join (t ∷ ts) sep = t ++ join_tail sep ts

-- The contents of the two files that `diff` compares.
abbrev pub lines : List String → String
lines l = join l "\n" ++ "\n"

-- What the file system and the program `diff` answer to `main`; an error is its `{:?}` text. `diff`
-- tells whether two files with these contents are the same for it.
pub record Files : Type 0 where
  pub create_dir_all : Result String (Unit {0})
  pub write_live : Result String (Unit {0})
  pub write_replay : Result String (Unit {0})
  pub diff : String → String → Result String Bool
  pub diff_refl : (text : String) → diff text text ≡ ok true

abbrev pub is_message : RecordedInput → Bool
is_message (recorded_message msg) = true
is_message (recorded_tick ns) = false

-- `filter(..).count()`.
abbrev pub count_messages : List RecordedInput → ℕ
count_messages [] = 0
count_messages (i ∷ inputs) =
    let rest = count_messages inputs in if is_message i then suc rest else rest

abbrev pub live_line : String → String
live_line e = "[live] " ++ e

abbrev pub replay_line : String → String
replay_line e = "[replay] " ++ e

abbrev pub recovered_line : Recorded → String
recovered_line r =
    "[replay] recovered "
    ++ (to_decimal (length r.ingress_inputs)
        ++ (" ingress cycle(s) ("
            ++ (to_decimal (count_messages r.ingress_inputs)
                ++ (" message(s)) and "
                    ++ (to_decimal (length r.echo_outputs) ++ " echo output(s) from the log")))))

-- The last line, and whether the exit is a success.
abbrev pub ending : Bool → Printing Bool
ending true = ("REPLAY DETERMINISM: OK (diff empty)" ∷ [], returns true)
ending false = ("REPLAY DETERMINISM: FAILED (diff non-empty)" ∷ [], returns false)

module _ (gate : Gate) (files : Files) where
  -- `main`, from the echoes of the live run and from what `read_recorded` comes back with: the lines
  -- printed, and whether the exit is a success.
  unfoldable pub main : List String → List String → Checked Recorded → Printing Bool
  main inputs live read = do
    silently (expect "create log dir" files.create_dir_all)
    print_each (map live_line live)
    silently (assert (length live == length inputs) "live run did not echo every input")
    recorded ← silently read
    print (recovered_line recorded)
    replayed ← silently (replay gate recorded.ingress_inputs)
    print_each (map replay_line replayed)
    silently (
        assert (same_texts replayed recorded.echo_outputs)
          "replay diverged from the echo outputs recorded in the log")
    silently (expect "write live file" files.write_live)
    silently (expect "write replay file" files.write_replay)
    same ← silently (expect "run diff" (files.diff (lines live) (lines replayed)))
    ending same
