-- ===== src/Spike.antt =====
-- spike/src/main.rs: the counting source and the two-state machine of the spike. Its sink and its
-- main are in the child Main.
pub mod Toggling
pub mod Counting
pub mod Main
use Prim.Native.String.{◌++◌}
use msrs.Shared.{
  ℕ, zero, suc, ◌+◌, ◌%◌, ◌^◌, Option, none, some, List, [], ◌∷◌, String, ok, err, to_decimal,
}
use msrs.Shared.{◌++◌ as append}
use msrs.Copper.{CuMsg, CuResult, Clock, ComponentConfig, time}
use msrs.Tasks.Ingress.{Sampled}
use msrs.Statig.{Outcome, transition, Handler, Statig}

-- The bits of an i32 that counts up from zero; `count += 1` as a release build computes it.
pub record Counter : Type 0 where
  pub count : ℕ

abbrev pub next_count : ℕ → ℕ
next_count n = (n + 1) % 2 ^ 32

unfoldable pub new : Option ComponentConfig → CuResult Counter
new config = ok (record { count = 0 })

-- What `freeze` writes is the count, and `thaw` takes it back: over the encoded value itself.
unfoldable pub freeze : Counter → ℕ
freeze c = c.count

unfoldable pub thaw : Counter → ℕ → Counter
thaw c decoded = record c { count = decoded }

module _ (clock : Clock) (output : CuMsg ℕ) where
  unfoldable pub process :
      Counter → clock.Ctx → output.Msg → Counter × output.Msg × clock.Ctx × CuResult (Unit {0})
  process c ctx msg =
      let count = next_count c.count in
      let (now, ctx') = clock.now ctx in
      (
        record { count = count },
        output.set_tov (output.set_payload msg count) (time now),
        ctx',
        ok tt,
      )

-- `transitions` is a u32.
pub record Ctx : Type 0 where
  pub transitions : ℕ

pub data Toggle : Type 0 where
  toggle : Toggle

pub data State : Type 0 where
  closed opened : State

-- What a handler changes: the context, and the lines that are printed.
pub record World : Type 0 where
  pub ctx : Ctx
  pub stdout : List String

abbrev pub println : World → String → World
println w line = record w { stdout = append w.stdout (line ∷ []) }

-- `context.transitions += 1`.
abbrev pub count_transition : World → World
count_transition w = record w { ctx = record { transitions = next_count w.ctx.transitions } }

abbrev pub transition_line : String → ℕ → String
transition_line moved n = "[statig] " ++ (moved ++ (" (transition #" ++ (to_decimal n ++ ")")))

unfoldable pub closed_handler : World → Toggle → Outcome State × World
closed_handler w e =
    let w' = count_transition w in
    (transition opened, println w' (transition_line "closed -> open" w'.ctx.transitions))

unfoldable pub opened_handler : World → Toggle → Outcome State × World
opened_handler w e =
    let w' = count_transition w in
    (transition closed, println w' (transition_line "open -> closed" w'.ctx.transitions))

-- The handlers of `fsm::Gate`, by state.
unfoldable pub handler : Handler State World Toggle
unfolding closed_handler opened_handler
handler closed w e = closed_handler w e
handler opened w e = opened_handler w e

-- The machine that statig generates from the handlers.
abbrev pub Gate : Type 1
Gate = Statig closed handler

-- The text of a state, as `{:?}` prints the generated type, is a parameter.
module _ (gate : Gate) (debug : State → String) where
  -- One round of the loop of `run_statig`.
  unfoldable pub toggle_once : gate.Machine × World → gate.Machine × World
  toggle_once (m, w) =
      let (m', w') = gate.handle_with_context m toggle w in
      (m', println w' ("[statig] now in state = " ++ debug (gate.state m')))

  unfoldable pub toggle_times : ℕ → gate.Machine × World → gate.Machine × World
  unfolding toggle_once
  toggle_times zero p = p
  toggle_times (suc n) p = toggle_times n (toggle_once p)

  -- `run_statig`, for any number of events.
  unfoldable pub run_statig : ℕ → List String → gate.Machine × World
  unfolding toggle_times
  run_statig n stdout =
      let (m, w) =
        gate.init_with_context (record { ctx = record { transitions = 0 }; stdout = stdout }) in
      let initial = println w ("[statig] initial state = " ++ debug (gate.state m)) in
      let (m', w') = toggle_times n (m, initial) in
      (
        m',
        println w'
            ("[statig] total transitions recorded in context = " ++ to_decimal w'.ctx.transitions),
      )
