-- ===== src/Prelude/Tables.antt =====
-- Database tables as finite views: a row by its primary key, which has one to three numbers.
-- Identifiers are only compared, so they are naturals.
use Prim.Native.Nat.{ℕ}
use mathlib.Core.Bool.{◌&&◌}
use mathlib.Core.Option.{Option, none, some}
use chat_pulse.Prelude.Tests.{◌==◌, if◌then◌else◌}

abbrev pub Table {ℓ} : Type ℓ → Type ℓ
Table V = ℕ → Option V

abbrev pub Table2 {ℓ} : Type ℓ → Type ℓ
Table2 V = ℕ → ℕ → Option V

abbrev pub Table3 {ℓ} : Type ℓ → Type ℓ
Table3 V = ℕ → ℕ → ℕ → Option V

module _ {ℓ} {V : Type ℓ} where
  abbrev pub put : Table V → ℕ → V → Table V
  put t a v a' = if a == a' then some v else t a'

  abbrev pub put2 : Table2 V → ℕ → ℕ → V → Table2 V
  put2 t a b v a' b' = if (a == a') && (b == b') then some v else t a' b'

  abbrev pub put3 : Table3 V → ℕ → ℕ → ℕ → V → Table3 V
  put3 t a b c v a' b' c' = if (a == a') && (b == b') && (c == c') then some v else t a' b' c'

  -- The value, or a default where the row is missing.
  abbrev pub get_or : Option V → V → V
  get_or none d = d
  get_or (some v) d = v
