-- ===== src/Prelude/Maps.antt =====
-- Families indexed by a number: the arrays of the program, whose length is known elsewhere.
use Prim.Native.Nat.{ℕ}
use mathlib.Core.Path.{◌≡◌}
use mathlib.Core.Logic.{◌≢◌}
use native.Mathlib.Omega.{arith}
use qsense.Prelude.Tests.{◌==◌, if◌then◌else◌}

module _ {ℓ} {A : Type ℓ} where
  -- `f[i] = a`
  abbrev pub put : (ℕ → A) → ℕ → A → ℕ → A
  put f i a j = if i == j then a else f j

  pub put_self : (f : ℕ → A) (i : ℕ) (a : A) → put f i a i ≡ a
  put_self f i a = ground arith

  pub put_ne : (f : ℕ → A) (i : ℕ) (a : A) (j : ℕ) → i ≢ j → put f i a j ≡ f j
  put_ne f i a j h = ground arith
