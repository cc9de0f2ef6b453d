-- ===== src/Channel/Blocking.antt =====
-- crossbeam-channel's `recv_timeout`, which waits for the other end of a channel.
use msrs.Shared.{ℕ, ◌≡◌, List, ◌++◌, Result, ok?}
use msrs.Effects.Laws.{to_list}
use msrs.Channel.{Channel}

-- `sent` is what the other end puts in while the call waits.
pub record Blocking {T : Type 0} (ch : Channel T) : Type 1 where
  pub TimeoutError : Type 0
  pub recv_timeout : ℕ → ch.Chan → Result TimeoutError T × ch.Chan
  pub recv_timeout-contents :
      (secs : ℕ) (c : ch.Chan)
      → (sent : List T) × (ch.contents c ++ sent
          ≡ to_list (ok? (recv_timeout secs c).0) ++ ch.contents (recv_timeout secs c).1)
