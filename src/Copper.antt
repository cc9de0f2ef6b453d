-- ===== src/Copper.antt =====
-- What the tasks use of copper-rs (the crate cu29, not part of the repository): messages that carry
-- a payload and a time of validity, the context's clock, errors made from a text, and the
-- configuration of a component. Messages and clock are interfaces with the documented laws.
use msrs.Shared.{ℕ, ◌≡◌, Option, some, none, String, Result}

-- `CuError`, as far as the code makes one: `CuError::from(text)`.
abbrev pub CuError : Type 0
CuError = String

-- `CuResult<A>`.
abbrev pub CuResult : Type 0 → Type 0
CuResult A = Result CuError A

-- A time range of copper, as far as the code reads one.
pub record TimeRange : Type 0 where
  pub start : ℕ
  pub end : ℕ

-- The cases of `Tov` that the code distinguishes; times are nanoseconds (u64).
pub data Tov : Type 0 where
  time : ℕ → Tov
  range : TimeRange → Tov
  unset : Tov

-- `CuMsg<T>` for one payload type `T`.
pub record CuMsg (T : Type 0) : Type 1 where
  pub Msg : Type 0
  pub new : Option T → Msg
  pub payload : Msg → Option T
  pub tov : Msg → Tov
  pub set_payload : Msg → T → Msg
  pub clear_payload : Msg → Msg
  pub set_tov : Msg → Tov → Msg
  pub payload-new : (o : Option T) → payload (new o) ≡ o
  pub payload-set_payload : (m : Msg) (v : T) → payload (set_payload m v) ≡ some v
  pub payload-clear_payload : (m : Msg) → payload (clear_payload m) ≡ none
  pub payload-set_tov : (m : Msg) (t : Tov) → payload (set_tov m t) ≡ payload m
  pub tov-set_tov : (m : Msg) (t : Tov) → tov (set_tov m t) ≡ t
  pub tov-set_payload : (m : Msg) (v : T) → tov (set_payload m v) ≡ tov m
  pub tov-clear_payload : (m : Msg) → tov (clear_payload m) ≡ tov m

-- `CuContext`: each reading of the clock may find it further on.
pub record Clock : Type 1 where
  pub Ctx : Type 0
  pub now : Ctx → ℕ × Ctx

-- The part of a `ComponentConfig` that the code reads: `cfg.get::<u32>(key)`, which fails when the
-- value is of another type.
pub record ComponentConfig : Type 0 where
  pub get_u32 : String → CuResult (Option ℕ)
