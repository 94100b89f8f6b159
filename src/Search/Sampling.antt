-- ===== src/Search/Sampling.antt =====
-- The search dimensions counted before the study are the suggestions that a trial makes.
use astra_back.Prelude.{◌≡◌, refl, Bool, List, [], ◌∷◌, arith}
use astra_back.Compression.{OperatorInfo, ActionSpace}
use astra_back.Compression.Spaces.{IsSound}
use astra_back.Search.Trials.{
  Sampler, dimensions_of, effective_dimensionality, sample_config, sample_actions,
}

module _ (t : Sampler) (allow_pruning : Bool) where
  sample_config_dimensions :
      (op : OperatorInfo) (sp : ActionSpace)
      → IsSound sp
      → (sample_config t allow_pruning op sp).1 ≡ dimensions_of allow_pruning op sp
  unfolding sample_config
  sample_config_dimensions op sp h = ground (arith, h.nonempty)

  -- One objective evaluation makes exactly as many `suggest_*` calls as
  -- `_effective_dimensionality` counts, for every list of operators whose action spaces are sound.
  pub sample_actions_dimensions :
      (spaces : OperatorInfo → ActionSpace) (ops : List OperatorInfo)
      → ((op : OperatorInfo) → IsSound (spaces op))
      → (sample_actions t spaces allow_pruning ops).1
        ≡ effective_dimensionality spaces ops allow_pruning
  unfolding sample_actions effective_dimensionality
  sample_actions_dimensions spaces [] h = refl
  sample_actions_dimensions spaces (op ∷ ops) h = ground (
    arith,
    sample_config_dimensions op (spaces op) (h op),
    sample_actions_dimensions spaces ops h,
  )
