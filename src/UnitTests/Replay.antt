-- ===== src/UnitTests/Replay.antt =====
-- crates/msrs-core/src/replay.rs: its unit tests. An f64 is a whole number or NaN here, which is what
-- the tests use of it, with an encoding that tells any two of these apart.
use text.Mathlib.Text.{starts_with}
use msrs.Shared.{
  ℕ, ◌≡◌, refl, Bool, not, ◌&&◌, ◌||◌, Option, some, List, [], ◌∷◌, returns, to_decimal, ◌==◌,
  if◌then◌else◌,
}
use msrs.Shared.Checks.{◌>>=◌, ◌>>◌}
use msrs.Replay.{Recorded, GateReport, Gate, passed, same_bytes, replay_gate}
use msrs.UnitTests.Assert.{Test, assert_eq, assert_that, same_nat, same_elements, unwrap}

data Float : Type 0 where
  number : ℕ → Float
  nan : Float

abbrev float_bytes : Float → Option (List ℕ)
float_bytes (number n) = some (0 ∷ n ∷ [])
float_bytes nan = some (1 ∷ [])

-- A gate whose closure is a function of the input.
abbrev gate_of : (ℕ → Float) → Gate (Unit {0}) ℕ Float
gate_of f = record {
  encode = float_bytes;
  debug_input = to_decimal;
  debug_output = λ x. "float";
  step = λ s i. (s, f i);
}

-- `zip` and `map`.
abbrev rec : List ℕ → List Float → List (Recorded ℕ Float)
rec [] outputs = []
rec (id ∷ ids) [] = []
rec (id ∷ ids) (output ∷ outputs) =
    record { id = id; input = id; output = output } ∷ rec ids outputs

abbrev zeros : ℕ → Float
zeros i = number 0

-- `[1.0, NAN, 3.0][i]`, at the indices that the test takes.
abbrev one_nan_three : ℕ → Float
one_nan_three i = if i == 0 then number 1 else if i == 1 then nan else number 3

passes_identical_outputs_including_nan : Test
passes_identical_outputs_including_nan = do
  let r = rec (0 ∷ 1 ∷ 2 ∷ []) (number 1 ∷ nan ∷ number 3 ∷ [])
  assert_that (passed (replay_gate (gate_of one_nan_three) tt r))

passes_identical_outputs_passes : passes_identical_outputs_including_nan ≡ returns tt
unfolding passes_identical_outputs_including_nan replay_gate passed same_bytes
passes_identical_outputs_passes = refl

abbrev zero_at_six_and_seven : ℕ → Float
zero_at_six_and_seven i = if i == 6 || i == 7 then number 0 else number 1

reports_first_divergence_and_keeps_counting : Test
reports_first_divergence_and_keeps_counting = do
  let r = rec (5 ∷ 6 ∷ 7 ∷ []) (number 1 ∷ number 2 ∷ number 3 ∷ [])
  let out = replay_gate (gate_of zero_at_six_and_seven) tt r
  assert_eq same_nat out.divergent 2
  first ← unwrap out.first_divergence
  assert_that (starts_with first "copperlist 6:")

reports_first_divergence_passes : reports_first_divergence_and_keeps_counting ≡ returns tt
unfolding reports_first_divergence_and_keeps_counting replay_gate same_bytes
    msrs.Replay.divergence_text to_decimal
reports_first_divergence_passes = refl

abbrev same_gap : ℕ × ℕ → ℕ × ℕ → Bool
same_gap (a, b) (c, d) = a == c && b == d

detects_id_gaps : Test
detects_id_gaps = do
  let r = rec (0 ∷ 1 ∷ 3 ∷ []) (number 0 ∷ number 0 ∷ number 0 ∷ [])
  let out = replay_gate (gate_of zeros) tt r
  assert_eq (same_elements same_gap) out.id_gaps ((1, 3) ∷ [])
  assert_that (not (passed out))

detects_id_gaps_passes : detects_id_gaps ≡ returns tt
unfolding detects_id_gaps replay_gate passed same_bytes
detects_id_gaps_passes = refl

empty_recording_does_not_pass : Test
empty_recording_does_not_pass = assert_that (not (passed (replay_gate (gate_of zeros) tt [])))

empty_recording_does_not_pass_passes : empty_recording_does_not_pass ≡ returns tt
unfolding empty_recording_does_not_pass replay_gate passed
empty_recording_does_not_pass_passes = refl
