-- ===== src/Agent/Guest.antt =====
-- The operating system of the guest as the agent calls it, with `uuid`, `tokio::process`,
-- `tokio::fs`, `std::path` and `nix`. Errors are kept as their text.
use rustbox.Prelude.{ℕ, Text, List, Bool, Option, Result}
use rustbox.Prelude.Dict.{Dict}
use rustbox.Prelude.Int.{ℤ}
use rustbox.Core.Protocol.{OutputStream}

-- `Command::new` and what is set on it. `piped` is whether both outputs are captured; otherwise they
-- are discarded. The input is always discarded.
pub record Command : Type 0 where
  pub program : Text
  pub args : List Text
  pub current_dir : Option Text
  pub envs : Option (Dict Text)
  pub piped : Bool

-- A running process. `id` is its number until it was waited for.
pub record Child : Type 0 where
  pub id : Option ℕ

-- One return of `read` on one of the outputs: bytes, none at the end, or an error.
abbrev pub Read : Type 0
Read = OutputStream × Result Text (List ℕ)

-- `reads` is what the reads of both outputs of a process return, in the order in which they return.
pub record Guest (G : Type 0) : Type 0 where
  pub now_v7 : G → Text × G
  pub spawn : Command → G → Result Text Child × G
  pub reads : Child → G → List Read × G
  pub wait : Child → G → Result Text (Option ℤ) × G
  pub try_from : ℤ → Result Text ℕ
  pub kill : ℤ → ℕ → G → Result Text (Unit {0}) × G
  pub parent : Text → Option Text
  pub create_dir_all : Text → G → Result Text (Unit {0}) × G
  pub write : Text → List ℕ → G → Result Text (Unit {0}) × G
  pub read : Text → G → Result Text (List ℕ) × G
  pub decimal : ℤ → Text
