-- ===== src/Echo/Threads/Numbered.antt =====
-- examples/echo/src/echo.rs: the echoes of a run of messages.
use msrs.Shared.{ℕ, ◌≡◌, refl, ap, List, [], ◌∷◌, ◌++◌, String, map, length, arith}
use msrs.Echo.{EchoMsg, next_count}
use msrs.Echo.Numbering.{nth_echo}
use msrs.Echo.Feeder.{new_msg}
use msrs.Echo.Service.Replayed.{body_of}

abbrev pub count_of : ℕ → List EchoMsg → ℕ
count_of count [] = count
count_of count (m ∷ ms) = count_of (next_count count) ms

-- The echoes of the messages, after `count` echoes.
abbrev pub numbered : ℕ → List EchoMsg → List EchoMsg
numbered count [] = []
numbered count (m ∷ ms) = nth_echo (next_count count) m.body ∷ numbered (next_count count) ms

-- The texts that a service which echoes every input sends.
abbrev pub all_echoes : List String → List String
all_echoes inputs = map body_of (numbered 0 (map new_msg inputs))

pub count_of-append :
    (count : ℕ) (xs ys : List EchoMsg) → count_of count (xs ++ ys) ≡ count_of (count_of count xs) ys
count_of-append count [] ys = refl
count_of-append count (x ∷ xs) ys = count_of-append (next_count count) xs ys

pub numbered-append :
    (count : ℕ) (xs ys : List EchoMsg)
    → numbered count (xs ++ ys) ≡ numbered count xs ++ numbered (count_of count xs) ys
numbered-append count [] ys = refl
numbered-append count (x ∷ xs) ys =
    ap (◌∷◌ (nth_echo (next_count count) x.body)) (numbered-append (next_count count) xs ys)

pub length-numbered : (count : ℕ) (xs : List EchoMsg) → length (numbered count xs) ≡ length xs
length-numbered count [] = refl
length-numbered count (x ∷ xs) = omega (arith, length-numbered (next_count count) xs)
