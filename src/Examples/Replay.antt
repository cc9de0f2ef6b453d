-- ===== src/Examples/Replay.antt =====
-- The theorems on the replay gate and on reading logs, at concrete inputs.
use msrs.Shared.{
  false, ℕ, ◌+◌, ◌<◌, ◌≡◌, refl, ◌≢◌, ◌↔◌, true, inr, Option, none, some, List, [], ◌∷◌, String,
  Result, ok, err, length, All, arith,
}
use msrs.Trigger.{Trigger}
use msrs.Fsm.Batch.{Batch}
use msrs.Replay.{Recorded, Gate, passed, same_bytes, replay_gate}
use msrs.Replay.Spec.{ids, replayed, divergences, first_text}
use msrs.Replay.Reports.{replay_gate-reports}
use msrs.Replay.Verdict.{Contiguous, SameEncoding, passed_iff}
use msrs.Replay.Live.{gate, log_run, log_run-passed}
use msrs.Replay.Log.{
  end_of, eof, DecodeError, unexpected_end, read, LogSource, read_copperlists, stops, yields,
  read_copperlists-ends, read_copperlists_total, LogEnd, failed, io, RunsOut, IsOther,
}
use msrs.Examples.Plain.{plain_msg, counting, counter}
use msrs.Examples.Fsm.{counting_batch, three_cycles}

-- A closure that adds each input to what it has seen; outputs are encoded as one byte.
abbrev adding : Gate ℕ ℕ ℕ
adding = record {
  encode = λ o. some (o ∷ []);
  debug_input = λ i. "in";
  debug_output = λ o. "out";
  step = λ s i. (s + i, s + i);
}

abbrev recorded_at : ℕ → ℕ → ℕ → Recorded ℕ ℕ
recorded_at id input output = record { id = id; input = input; output = output }

-- One output is not what the closure gives, and one id is missing.
abbrev altered : List (Recorded ℕ ℕ)
altered = recorded_at 0 1 1 ∷ recorded_at 1 2 9 ∷ recorded_at 3 4 7 ∷ []

replay_gate-reports_example :
    let report = replay_gate adding 0 altered in
    (report.steps ≡ 3)
    × (report.divergent ≡ 1)
    × (report.first_divergence ≡ first_text adding (divergences adding (replayed adding 0 altered)))
    × (report.id_gaps ≡ (1, 3) ∷ [])
unfolding same_bytes
replay_gate-reports_example = replay_gate-reports adding 0 altered

passed_iff_example : (passed (replay_gate adding 0 altered) ≡ true) ↔ (
    (altered ≢ [])
    × All (SameEncoding adding) (replayed adding 0 altered)
    × Contiguous (ids altered))
passed_iff_example = passed_iff adding 0 altered (omega arith)

abbrev bytes_of : Option (Batch ℕ) → Option (List ℕ)
bytes_of none = some []
bytes_of (some b) = some b.values

abbrev some_input : Trigger ℕ → String
some_input t = "input"

abbrev some_output : Option (Batch ℕ) → String
some_output o = "output"

log_run-passed_example :
    passed (
      replay_gate
        (gate counter counting
          (plain_msg ℕ)
          (plain_msg (Batch ℕ))
          bytes_of
          some_input
          some_output
          0)
        4
        (log_run counter counting
          (plain_msg ℕ)
          (plain_msg (Batch ℕ))
          bytes_of
          some_input
          some_output
          0
          17
          counting_batch
          three_cycles))
    ≡ true
log_run-passed_example =
    log_run-passed counter counting (plain_msg ℕ) (plain_msg (Batch ℕ)) bytes_of some_input
      some_output 0 17 counting_batch three_cycles (λ e. cc)
      (inr (λ e. cc), (inr (λ e. cc), (inr (λ e. cc), tt))) (omega arith)

-- A log of numbers, each of which is one copperlist.
abbrev decode_list : List ℕ → Result DecodeError ℕ × List ℕ
decode_list [] = (err unexpected_end, [])
decode_list (n ∷ l) = (ok n, l)

decode_list-length :
    (l : List ℕ) (n : ℕ) → (decode_list l).0 ≡ ok n → length (decode_list l).1 < length l
decode_list-length [] n h = cc
decode_list-length (m ∷ l) n h = omega arith

abbrev numbers : LogSource ℕ
numbers = record {
  Reader = List ℕ;
  build = λ base. ok (read (3 ∷ 5 ∷ []));
  decode = decode_list;
  remaining = length;
  decode-remaining = decode_list-length;
}

read_copperlists-ends_example :
    (end : LogEnd) × (read_copperlists numbers "log" ≡ ok (some (3 ∷ 5 ∷ [], end)))
    × ((end ≡ eof) ↔ RunsOut unexpected_end)
    × ((text : String) → (end ≡ failed text) ↔ IsOther text unexpected_end)
read_copperlists-ends_example =
    read_copperlists-ends numbers "log" (3 ∷ 5 ∷ []) (3 ∷ 5 ∷ []) unexpected_end refl
      (yields 3 refl (yields 5 refl (stops refl)))

-- A file that is cut off is no failure, and any other input error is.
kinds_of_ends :
    (end_of unexpected_end ≡ eof)
    × (end_of (io true "cut off") ≡ eof)
    × (end_of (io false "denied") ≡ failed "denied")
unfolding end_of
kinds_of_ends = (refl, refl, refl)

read_copperlists_total_example : read_copperlists numbers "log" ≢ ok none
read_copperlists_total_example = read_copperlists_total numbers "log"
