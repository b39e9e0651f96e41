-- ===== src/Memory/Pma.antt =====
-- kernel/src/memory/areas/mod.rs: the trait `PmArea`, physical memory behind an area: the methods that
-- an area calls. Each call takes the state that all areas share, such as the frames that are free, and returns it; `none` is a
-- panic.
pub mod Lazy
pub mod Fixed
use maturin.Prelude.{ℕ, Bool, Option, none, some, List}
use maturin.Memory.Error.{Result, Done}
use maturin.Memory.Backend.{FileStore}

infixl 5 ◌>>=◌
abbrev pub ◌>>=◌ : {A B : Type 0} → Option A → (A → Option B) → Option B
◌>>=◌ m f = elim m [ none ↦ none | some a ↦ f a ]

abbrev pub pure : {A : Type 0} → A → Option A
pure a = some a

pub record PmArea (World : Type 0) : Type 1 where
  pub State : Type 0
  pub size : State → ℕ
  pub clone_as_fork : State → Result State
  pub get_frame : State → ℕ → Bool → World → Option (Result (Option ℕ) × State × World)
  pub sync_frame_with_file : State → ℕ → World → Option World
  pub release_frame : State → ℕ → World → Option (Done × State × World)
  pub split : State → ℕ → ℕ → World → Option (Result State × State × World)
