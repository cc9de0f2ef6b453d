-- ===== src/Channel.antt =====
-- What the transport crate uses of crossbeam-channel (not part of the repository): first-in-first-out
-- channels, bounded or not, whose ends may be dropped. One state stands for both ends of a channel.
pub mod Blocking
pub mod Drain
pub mod Queue
use msrs.Shared.{
  ℕ, zero, suc, ◌<◌, ◌≡◌, Bool, true, false, Option, none, some, List, [], ◌∷◌, ◌++◌, String,
  Result, ok, err, ok?, length,
}

-- Whether a channel of this capacity takes one more message at once.
abbrev pub HasRoom : Option ℕ → ℕ → Type 0
HasRoom none n = Unit {0}
HasRoom (some cap) n = n < cap

pub record Channel (T : Type 0) : Type 1 where
  pub Chan : Type 0
  pub RecvError : Type 0
  -- `unbounded()` and `bounded(cap)`.
  pub unbounded : Chan
  pub bounded : ℕ → Chan
  -- The queued messages, oldest first; the capacity; whether a receiver is left.
  pub contents : Chan → List T
  pub capacity : Chan → Option ℕ
  pub is_open : Chan → Bool
  pub try_recv : Chan → Result RecvError T × Chan
  -- A failed `send` is reported by the text of its error.
  pub send : Chan → T → Result String (Unit {0}) × Chan
  pub len : Chan → ℕ
  -- What is left when the receiving end is dropped.
  pub drop_receiver : Chan → Chan
  pub contents-unbounded : contents unbounded ≡ []
  pub capacity-unbounded : capacity unbounded ≡ none
  pub is_open-unbounded : is_open unbounded ≡ true
  pub contents-bounded : (cap : ℕ) → contents (bounded cap) ≡ []
  pub capacity-bounded : (cap : ℕ) → capacity (bounded cap) ≡ some cap
  pub is_open-bounded : (cap : ℕ) → is_open (bounded cap) ≡ true
  pub is_open-drop_receiver : (c : Chan) → is_open (drop_receiver c) ≡ false
  pub len-contents : (c : Chan) → len c ≡ length (contents c)
  pub try_recv-nil :
      (c : Chan) → contents c ≡ [] → (ok? (try_recv c).0 ≡ none) × (contents (try_recv c).1 ≡ [])
  pub try_recv-cons :
      (c : Chan) (v : T) (vs : List T)
      → contents c ≡ v ∷ vs
      → (ok? (try_recv c).0 ≡ some v) × (contents (try_recv c).1 ≡ vs)
  pub is_open-try_recv : (c : Chan) → is_open (try_recv c).1 ≡ is_open c
  pub capacity-try_recv : (c : Chan) → capacity (try_recv c).1 ≡ capacity c
  pub send-open :
      (c : Chan) (v : T)
      → is_open c ≡ true
      → HasRoom (capacity c) (length (contents c))
      → ((send c v).0 ≡ ok tt)
        × (contents (send c v).1 ≡ contents c ++ v ∷ [])
        × (is_open (send c v).1 ≡ true)
        × (capacity (send c v).1 ≡ capacity c)
  pub send-closed :
      (c : Chan) (v : T)
      → is_open c ≡ false
      → ((text : String) × ((send c v).0 ≡ err text)) × (contents (send c v).1 ≡ contents c)
