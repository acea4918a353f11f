-- ===== src/Base/Floats.antt =====
-- Python's floats as an interface: the operations that the modelled code calls. No law is
-- assumed here; a theorem that needs one takes it as a hypothesis.
use Prim.Native.Nat.{ℕ, ◌+◌, ◌-◌, ◌*◌, ◌/◌}
use mathlib.Core.Bool.{Bool}
use mootloop.Base.Tests.{ltb, leb}

pub record FloatOps (F : Type 0) : Type 0 where
  pub of_int : ℕ → F
  pub add : F → F → F
  pub sub : F → F → F
  pub mul : F → F → F
  pub div : F → F → F
  pub abs : F → F
  pub lt : F → F → Bool
  pub le : F → F → Bool

-- Whole numbers, for tests and witnesses; a difference below zero is zero.
abbrev pub whole : FloatOps ℕ
whole = record {
  of_int = λ n. n;
  add = λ a b. a + b;
  sub = λ a b. a - b;
  mul = λ a b. a * b;
  div = λ a b. a / b;
  abs = λ a. a;
  lt = ltb;
  le = leb;
}
