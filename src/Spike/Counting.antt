-- ===== src/Spike/Counting.antt =====
-- spike/src/main.rs: what the counting source puts out over a run, a freeze and a thaw included.
use msrs.Shared.{ℕ, ◌+◌, ◌%◌, ◌^◌, ◌≡◌, refl, ap, ap₂, ◌∙◌, Option, some, List, [], ◌∷◌, arith}
use msrs.Copper.{CuMsg, Clock}
use msrs.Spike.{Counter, next_count, process, freeze, thaw}

module _ (clock : Clock) (output : CuMsg ℕ) where
  -- The payloads of a run, with the message slot and the context of each cycle.
  pub payloads : Counter → List (clock.Ctx × output.Msg) → List (Option ℕ)
  payloads c [] = []
  payloads c ((ctx, msg) ∷ cycles) =
      output.payload (process clock output c ctx msg).1
      ∷ payloads (process clock output c ctx msg).0 cycles

  abbrev pub counting_from : ℕ → List (clock.Ctx × output.Msg) → List (Option ℕ)
  counting_from n [] = []
  counting_from n (c ∷ cycles) = some ((n + 1) % 2 ^ 32) ∷ counting_from (n + 1) cycles

  payloads-counting :
      (c : Counter) (n : ℕ) (cycles : List (clock.Ctx × output.Msg))
      → c.count ≡ n % 2 ^ 32
      → payloads c cycles ≡ counting_from n cycles
  unfolding payloads process
  payloads-counting c n [] h = refl
  payloads-counting c n ((ctx, msg) ∷ cycles) h =
      let counted : next_count c.count ≡ (n + 1) % 2 ^ 32 = ap next_count h ∙ omega arith in
      ap₂ ◌∷◌ (output.payload-set_tov _ _ ∙ output.payload-set_payload msg _ ∙ ap some counted)
        (payloads-counting (record { count = next_count c.count }) (n + 1) cycles counted)

  -- A counter that is frozen after n cycles and thawed into any other counter goes on with the
  -- numbers n + 1, n + 2, … (modulo 2^32), one in each cycle, whatever the clock reads.
  pub payloads-thaw :
      (c old : Counter) (n : ℕ) (cycles : List (clock.Ctx × output.Msg))
      → c.count ≡ n % 2 ^ 32
      → payloads (thaw old (freeze c)) cycles ≡ counting_from n cycles
  unfolding thaw freeze
  payloads-thaw c old n cycles h = payloads-counting (record { count = c.count }) n cycles h
