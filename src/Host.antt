-- ===== src/Host.antt =====
-- What src/execution_state.cpp asks of the world outside it: `TraceeMemory` of
-- include/whyrun/execution_state.hpp, symbolic links, and the C library's `inet_ntop`. A handler
-- takes the host as it is when the handler runs.
use whyrun.Common.{ℕ, Option, Bytes}

pub record Host : Type 0 where
  -- `read_string tid address`, at the default `max_length`
  pub read_string : ℕ → ℕ → Bytes
  -- `read_bytes tid address size`: the bytes stored through `destination`, or `none` for `false`
  pub read_bytes : ℕ → ℕ → ℕ → Option Bytes
  -- `std::filesystem::read_symlink`: `none` when it sets the error code
  pub read_symlink : Bytes → Option Bytes
  -- `inet_ntop family address`: `none` for the null pointer
  pub inet_ntop : ℕ → Bytes → Option Bytes
