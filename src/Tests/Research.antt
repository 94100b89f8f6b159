-- ===== src/Tests/Research.antt =====
-- The compression core at concrete operators, trials and rungs.
use astra_back.Prelude.{
  codes, ℕ, ◌≡◌, ◌≤◌, ◌+◌, ◌*◌, refl, inl, inr, true, false, none, some, List, [], ◌∷◌, ◌==◌, In,
  map, find_if, arith, ltb, if◌then◌else◌,
}
use astra_back.Compression.{
  OperatorInfo, dense_compute, ActionSpace, get_action_space, fp32, int8, PrecisionLevel,
  CompressionConfig,
}
use astra_back.Compression.Spaces.{IsSound, get_action_space-IsSound}
use astra_back.Search.{
  Settings, budget, effective_dimensionality, Sampler, sample_actions, ParetoPoint,
  compute_pareto_front,
}
use astra_back.Search.Budget.{budget_clamped}
use astra_back.Search.Sampling.{sample_actions_dimensions}
use astra_back.Search.Optimal.{Covers, front_sound, front_complete}
use astra_back.Ladder.{
  done, Engine, Setup, Rung, ladder_v1, int8_uniform, int8_uosa, fp16_rung, original,
  GuaranteeResult, guarantee_compress, tried_rungs,
}
use astra_back.Ladder.Floor.{Honours, guarantee_floor}
use astra_back.Ladder.Choice.{is_admissible, or_original, up_to_admissible, guarantee_choice}

abbrev conv : OperatorInfo
conv = record {
  name = 3;
  op_type = codes "Conv";
  domain = codes "ai.onnx";
  category = dense_compute;
  input_names = [];
  output_names = [];
  input_shapes = [];
  output_shapes = [];
  param_count = 90;
  flops_estimate = 0;
  is_compressible = true;
  topo_index = none;
}

abbrev space : ActionSpace
space = get_action_space conv (some 40) 80 none none

abbrev half_pruned : CompressionConfig
half_pruned = record {
  precision_level = int8;
  prune_ratio = 5;
  fuse_enabled = false;
  approx_rank = none;
}

get_action_space-IsSound_example : IsSound space
get_action_space-IsSound_example = get_action_space-IsSound conv (some 40) 80 none none

abbrev settings : Settings
settings = record {
  n_trials = 20;
  allow_pruning = true;
  adaptive = true;
  trials_per_dim = 3;
  startup_trials = 10;
  min_trials = 15;
  max_trials = 60;
}

budget_clamped_example :
    (budget settings 4 ≤ 60)
    × (15 ≤ 60 → 15 ≤ budget settings 4)
    × (4 ≤ 6 → budget settings 4 ≤ budget settings 6)
    × (15 ≤ 3 * 4 + 10 → 3 * 4 + 10 ≤ 60 → budget settings 4 ≡ 3 * 4 + 10)
budget_clamped_example = budget_clamped settings refl 4 6

abbrev first_choice : ℕ → List PrecisionLevel → PrecisionLevel
first_choice name [] = fp32
first_choice name (p ∷ ps) = p

-- A sampler that takes the first choice and the lowest ratio.
abbrev lowest : Sampler
lowest = record {
  suggest_precision = first_choice;
  suggest_prune = λ name lo hi. lo;
  suggest_fuse = λ name. true;
  chosen = λ name p ps. ground arith;
  in_range = λ name lo hi h. (omega arith, h);
}

abbrev spaces : OperatorInfo → ActionSpace
spaces op = get_action_space op (some 40) 80 none none

sample_actions_dimensions_example :
    (sample_actions lowest spaces true (conv ∷ [])).1
    ≡ effective_dimensionality spaces (conv ∷ []) true
sample_actions_dimensions_example =
    sample_actions_dimensions lowest true spaces (conv ∷ [])
      (λ op. get_action_space-IsSound op (some 40) 80 none none)

abbrev small : ParetoPoint
small = record { trial_number = 0; accuracy = 900; model_size_bytes = 10; latency_ms = 3 }

abbrev exact : ParetoPoint
exact = record { trial_number = 1; accuracy = 950; model_size_bytes = 20; latency_ms = 4 }

abbrev worse : ParetoPoint
worse = record { trial_number = 2; accuracy = 890; model_size_bytes = 20; latency_ms = 4 }

-- Another trial with the figures of `small`.
abbrev twin : ParetoPoint
twin = record { trial_number = 3; accuracy = 900; model_size_bytes = 10; latency_ms = 5 }

abbrev trials : List ParetoPoint
trials = worse ∷ small ∷ exact ∷ twin ∷ []

front_sound_example :
    In small trials
    × (twin.accuracy ≡ small.accuracy)
    × (twin.model_size_bytes ≡ small.model_size_bytes)
unfolding compute_pareto_front
front_sound_example =
    front_sound trials small twin (inl refl) (inr (inr (inr (inl refl)))) (omega arith)

front_complete_example : (q : ParetoPoint) × In q (compute_pareto_front trials) × Covers q worse
front_complete_example = front_complete trials worse (inl refl)

abbrev score : ℕ → ℕ
score c = if c == 40 then 70 else 95

-- Models are their sizes: INT8 gives 40 and FP16 gives 50, and INT8 falls below the floor.
abbrev toy : Engine
toy = record {
  Model = ℕ;
  Fidelity = ℕ;
  below = ltb;
  zero_fidelity = 0;
  full_fidelity = 100;
  byte_size = λ m. m;
  quantize_int8_real = λ m names. done 40;
  convert_fp16_real = λ m. done 50;
  apply_actions = λ m actions. done 45;
  validate = λ m c. done (score c, 90);
}

abbrev setup : Setup
setup = record { operators = conv ∷ []; protection_set = none; n_probes_gate = 8; seed = 42 }

abbrev after_uniform : List Rung
after_uniform = int8_uosa ∷ fp16_rung ∷ original ∷ []

guarantee_floor_example :
    (g : GuaranteeResult ℕ ℕ) × (guarantee_compress toy setup 90 100 ladder_v1 ≡ done g)
    × Honours toy setup 90 100 g
guarantee_floor_example = guarantee_floor toy setup 90 100 refl int8_uniform after_uniform

guarantee_choice_example :
    (g : GuaranteeResult ℕ ℕ) × (guarantee_compress toy setup 90 100 ladder_v1 ≡ done g)
    × (g.rung
        ≡ or_original toy setup 90 100
            (find_if (is_admissible toy setup 90 100) (tried_rungs int8_uniform after_uniform)))
    × (map (λ x. x.rung) g.rung_reports
        ≡ up_to_admissible toy setup 90 100 (tried_rungs int8_uniform after_uniform))
guarantee_choice_example = guarantee_choice toy setup 90 100 int8_uniform after_uniform
