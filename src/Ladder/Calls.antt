-- ===== src/Ladder/Calls.antt =====
-- What the ladder calls: models, their sizes, the quantizers and the validator.
use astra_back.Prelude.{ℕ, Bool, Option, List, Text}
use astra_back.Compression.{OperatorInfo, ConcreteAction}

-- The outcome of a call that may raise.
pub data Attempt (A : Type 0) : Type 0 where
  done : A → Attempt A
  raised : Attempt A

-- `byte_size` is `ByteSize()`. A fidelity is only compared, so that it is any type with a test.
pub record Engine : Type 1 where
  pub Model : Type 0
  pub Fidelity : Type 0
  pub below : Fidelity → Fidelity → Bool
  pub zero_fidelity : Fidelity
  pub full_fidelity : Fidelity
  pub byte_size : Model → ℕ
  pub quantize_int8_real : Model → List ℕ → Attempt Model
  pub convert_fp16_real : Model → Attempt Model
  pub apply_actions : Model → List ConcreteAction → Attempt Model
  pub validate : Model → Model → Attempt (Fidelity × Fidelity)

-- What `guarantee_compress` is given or works out before the first rung: the operators of the graph,
-- the names that UOSA protects (`none` where the profile has no result), and the size of the gate.
pub record Setup : Type 0 where
  pub operators : List OperatorInfo
  pub protection_set : Option (List ℕ)
  pub n_probes_gate : ℕ
  pub seed : ℕ

pub data Rung : Type 0 where
  int8_uniform int8_uosa w8 fp16_rung original : Rung
  custom : Text → Rung
