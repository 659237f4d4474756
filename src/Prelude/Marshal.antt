-- ===== src/Prelude/Marshal.antt =====
-- encoding/json at one type: a parameter of the model. `unmarshal` gives what it leaves in a zeroed
-- variable, and whether it returned no error. json.Marshal does not fail on the program's types.
use mathlib.Core.Path.{◌≡◌}
use mathlib.Core.Bool.{Bool, true}
use dsc_zookeeper.Prelude.Tests.{Bytes}

pub record Codec (A : Type 0) : Type 0 where
  pub marshal : A → Bytes
  pub unmarshal : Bytes → A × Bool

-- What the program relies on: a value that was marshalled is read back, without an error.
pub record IsExact {A : Type 0} (c : Codec A) : Type 0 where
  pub exact : (a : A) → c.unmarshal (c.marshal a) ≡ (a, true)
