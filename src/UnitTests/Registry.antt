-- ===== src/UnitTests/Registry.antt =====
-- crates/msrs-transport/src/registry.rs: its unit tests. The registry is process-wide, but each test
-- has a key of its own; here each starts from an empty registry.
use text.Mathlib.Text.{find?}
use msrs.Shared.{ℕ, ◌≡◌, refl, Bool, true, false, not, none, is_some, returns, ok?}
use msrs.Shared.{ℕ_discrete}
use msrs.Shared.Checks.{◌>>=◌, ◌>>◌}
use msrs.Registry.{Types, Registry, install, take}
use msrs.UnitTests.Assert.{Test, assert_eq, assert_that, same_nat, is_ok, unwrap, should_panic}

-- The types u8 and u16, whose values are numbers.
abbrev u8 : ℕ
u8 = 8

abbrev u16 : ℕ
u16 = 16

abbrev types : Types
types = record {
  Key = ℕ;
  key_discrete = ℕ_discrete;
  key_name = λ k. "Key";
  Code = ℕ;
  code_discrete = ℕ_discrete;
  code_name = λ c. "number";
  Value = λ c. ℕ;
}

-- `KeyA`, `KeyB` and `KeyC`.
abbrev key_a : ℕ
key_a = 0

abbrev key_b : ℕ
key_b = 1

abbrev key_c : ℕ
key_c = 2

abbrev at_first : Registry types
at_first = record { slots = λ k. none; held = false; poisoned = false }

install_then_take_round_trips_once : Test
install_then_take_round_trips_once = do
  let (r, installed) = install at_first key_a u8 5
  installed
  let (r', taken) = take r key_a u8
  value ← unwrap (ok? taken)
  assert_eq same_nat value 5
  assert_that (not (is_ok (take r' key_a u8).1))

install_then_take_passes : install_then_take_round_trips_once ≡ returns tt
unfolding install_then_take_round_trips_once install take ℕ_discrete
install_then_take_passes = refl

take_with_wrong_type_errors : Test
take_with_wrong_type_errors = do
  let (r, installed) = install at_first key_b u8 5
  installed
  assert_that (not (is_ok (take r key_b u16).1))

take_with_wrong_type_errors_passes : take_with_wrong_type_errors ≡ returns tt
unfolding take_with_wrong_type_errors install take ℕ_discrete
take_with_wrong_type_errors_passes = refl

-- `should_panic(expected = "already installed")`.
double_install_panics : Bool
double_install_panics =
    let (r, first) = install at_first key_c u8 1 in
    should_panic (λ t. is_some (find? t "already installed")) (first >> (install r key_c u8 2).1)

double_install_panics_passes : double_install_panics ≡ true
unfolding double_install_panics install take ℕ_discrete
double_install_panics_passes = refl
