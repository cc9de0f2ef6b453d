-- ===== src/Replay.antt =====
-- crates/msrs-core/src/replay.rs: the replay gate. bincode's encoder is a parameter (the bytes, or
-- nothing on an error), and so are the two `Debug` texts.
pub mod Log
pub mod Spec
pub mod Reports
pub mod Verdict
pub mod Live
use Prim.Native.String.{◌++◌}
use msrs.Shared.{
  ℕ, suc, ◌+◌, ◌%◌, ◌^◌, ◌<◌, Bool, true, false, ◌&&◌, Option, none, some, List, [], ◌∷◌, String,
  length, is_nil, ltb, ◌==◌, if◌then◌else◌, to_decimal,
}
use msrs.Shared.{◌++◌ as append}

-- One recorded decision; `id` is a u64.
pub record Recorded (I O : Type 0) : Type 0 where
  pub id : ℕ
  pub input : I
  pub output : O

pub record GateReport : Type 0 where
  pub steps : ℕ
  pub divergent : ℕ
  pub first_divergence : Option String
  pub id_gaps : List (ℕ × ℕ)

-- `GateReport::passed`.
unfoldable pub passed : GateReport → Bool
passed report = ltb 0 report.steps && (report.divergent == 0 && is_nil report.id_gaps)

-- `==` on the bytes of two encodings.
unfoldable pub same_list : List ℕ → List ℕ → Bool
same_list [] [] = true
same_list [] (y ∷ ys) = false
same_list (x ∷ xs) [] = false
same_list (x ∷ xs) (y ∷ ys) = x == y && same_list xs ys

unfoldable pub same_bytes : Option (List ℕ) → Option (List ℕ) → Bool
unfolding same_list
same_bytes none none = true
same_bytes none (some b) = false
same_bytes (some a) none = false
same_bytes (some a) (some b) = same_list a b

-- `p + 1` on a u64, as a release build computes it.
abbrev pub next_id : ℕ → ℕ
next_id p = (p + 1) % 2 ^ 64

unfoldable pub check_id : GateReport → Option ℕ → ℕ → GateReport
check_id report none id = report
check_id report (some p) id =
    if id == next_id p
    then report
    else record report { id_gaps = append report.id_gaps ((p, id) ∷ []) }

-- `report.first_divergence.is_none()` guards the write.
abbrev pub first_of_two : Option String → String → Option String
first_of_two none text = some text
first_of_two (some old) text = some old

unfoldable pub note_divergence : GateReport → String → GateReport
note_divergence report text = record report {
  divergent = report.divergent + 1;
  first_divergence = first_of_two report.first_divergence text;
}

-- The parts of a gate that its caller chooses: the encoder, the texts, and the closure `step`, whose
-- captured machine is a state of type `S`.
pub record Gate (S I O : Type 0) : Type 0 where
  pub encode : O → Option (List ℕ)
  pub debug_input : I → String
  pub debug_output : O → String
  pub step : S → I → S × O

module _ {S I O : Type 0} (g : Gate S I O) where
  unfoldable pub divergence_text : Recorded I O → O → String
  divergence_text r replayed =
      "copperlist "
      ++ (to_decimal r.id
          ++ (":\n  input:    "
              ++ (g.debug_input r.input
                  ++ ("\n  recorded: "
                      ++ (g.debug_output r.output
                          ++ ("\n  replayed: " ++ g.debug_output replayed))))))

  unfoldable pub compare_output : GateReport → Recorded I O → O → GateReport
  unfolding note_divergence
  compare_output report r replayed =
      if same_bytes (g.encode replayed) (g.encode r.output)
      then report
      else note_divergence report (divergence_text r replayed)

  -- The `for r in recorded` loop, over the report, `prev` and the state of the closure.
  unfoldable pub gate_loop : GateReport → Option ℕ → S → List (Recorded I O) → GateReport
  unfolding check_id compare_output
  gate_loop report prev s [] = report
  gate_loop report prev s (r ∷ rs) =
      let (s', replayed) = g.step s r.input in
      gate_loop (compare_output (check_id report prev r.id) r replayed) (some r.id) s' rs

  unfoldable pub replay_gate : S → List (Recorded I O) → GateReport
  unfolding gate_loop
  replay_gate s recorded =
      gate_loop
        (record { steps = length recorded; divergent = 0; first_divergence = none; id_gaps = [] })
        none s recorded
