-- ===== src/Ladder/Rungs.antt =====
-- `_build_candidate` and its helpers, `gate_check`, and the judgement of one rung.
use astra_back.Prelude.{
  ℕ, Bool, true, false, not, ◌&&◌, Option, none, some, List, [], ◌∷◌, ◌++◌, ltb, leb, ◌==◌, any,
  keep_if, if◌then◌else◌,
}
use astra_back.Compression.{
  OperatorCategory, dense_compute, normalization, embedding, tree_ensemble, linear_model, svm,
  OperatorInfo, PrecisionLevel, fp16, int8, CompressionConfig, ConcreteAction, translate,
}
use astra_back.Ladder.Calls.{
  Attempt, done, raised, Engine, Setup, Rung, int8_uniform, int8_uosa, w8, fp16_rung,
}

infixl 5 ◌>>=◌
abbrev pub ◌>>=◌ : {A B : Type 0} → Attempt A → (A → Attempt B) → Attempt B
done a >>= f = f a
raised >>= f = raised

-- `_STANDARD_CATEGORIES` and `_ML_CATEGORIES`
abbrev pub is_standard : OperatorCategory → Bool
is_standard dense_compute = true
is_standard normalization = true
is_standard embedding = true
is_standard _ = false

abbrev pub is_ml : OperatorCategory → Bool
is_ml tree_ensemble = true
is_ml linear_model = true
is_ml svm = true
is_ml _ = false

abbrev is_weight_surface : OperatorCategory → Bool
is_weight_surface dense_compute = true
is_weight_surface embedding = true
is_weight_surface _ = false

abbrev pub compressible_operators : Setup → List OperatorInfo
compressible_operators s = keep_if (λ op. op.is_compressible) s.operators

abbrev pub has_standard : Setup → Bool
has_standard s = any (λ op. is_standard op.category) (compressible_operators s)

abbrev pub has_ml : Setup → Bool
has_ml s = any (λ op. is_ml op.category) (compressible_operators s)

abbrev at_precision : PrecisionLevel → CompressionConfig
at_precision p = record {
  precision_level = p;
  prune_ratio = 0;
  fuse_enabled = false;
  approx_rank = none;
}

-- `actions.extend(translator.translate(op, …))` over the operators that pass the test.
translate_all : (OperatorInfo → Bool) → PrecisionLevel → List OperatorInfo → List ConcreteAction
translate_all test p [] = []
translate_all test p (op ∷ ops) =
    let rest = translate_all test p ops in
    if test op then translate op (at_precision p) ++ rest else rest

module _ (e : Engine) where
  abbrev apply_or : {A : Type 0} → (e.Model → A) → A → e.Model → List ConcreteAction → Attempt A
  apply_or wrap empty m [] = done empty
  apply_or wrap empty m (a ∷ as') = e.apply_actions m (a ∷ as') >>= λ m'. done (wrap m')

  quantize_ml_native : Setup → List ℕ → PrecisionLevel → e.Model → Attempt e.Model
  unfolding translate_all
  quantize_ml_native s protected p m =
      apply_or (λ m'. m') m m
        (translate_all (λ op. is_ml op.category && not (any (λ n. n == op.name) protected)) p
          (compressible_operators s))

  quantize_w8_weight_only : Setup → e.Model → Attempt (Option e.Model)
  unfolding translate_all
  quantize_w8_weight_only s m =
      apply_or some none m
        (translate_all (λ op. is_weight_surface op.category) int8 (compressible_operators s))

  -- The dynamic INT8 rungs: ONNX Runtime on the standard domain, then the native ML operators.
  quantize_int8 : Setup → List ℕ → e.Model → Attempt (Option e.Model)
  unfolding quantize_ml_native
  quantize_int8 s protected m = do
    m' ← if has_standard s then e.quantize_int8_real m protected else done m
    m'' ← if has_ml s then quantize_ml_native s protected int8 m' else done m'
    done (some m'')

  abbrev int8_protecting : Setup → Option (List ℕ) → e.Model → Attempt (Option e.Model)
  unfolding quantize_int8
  int8_protecting s none m = done none
  int8_protecting s (some protected) m = quantize_int8 s protected m

  build_rung : Setup → Rung → e.Model → Attempt (Option e.Model)
  unfolding quantize_int8 quantize_w8_weight_only quantize_ml_native
  build_rung s int8_uniform m = quantize_int8 s [] m
  build_rung s int8_uosa m = int8_protecting s s.protection_set m
  build_rung s w8 m = if has_standard s then quantize_w8_weight_only s m else done none
  build_rung s fp16_rung m =
      if has_standard s
      then (e.convert_fp16_real m >>= λ m'. done (some m'))
      else (quantize_ml_native s [] fp16 m >>= λ m'. done (some m'))
  build_rung s _ m = raised

  -- `none` is a rung that does not apply.
  unfoldable pub build_candidate : Setup → Rung → e.Model → Attempt (Option e.Model)
  unfolding build_rung
  build_candidate s r m =
      if not (has_standard s) && not (has_ml s) then done none else build_rung s r m

  -- The fidelity and the quality of a candidate; an error of the validator counts as zero.
  unfoldable pub gate_check : e.Model → e.Model → e.Fidelity × e.Fidelity
  gate_check m candidate = elim (e.validate m candidate) [
    | done scores ↦ scores
    | raised ↦ (e.zero_fidelity, e.zero_fidelity)
  ]

pub data Reason : Type 0 where
  build_error not_applicable below_tau no_size_reduction accepted_reason fallback : Reason

-- A size ratio is the pair of sizes that it divides.
pub record RungReport (F : Type 0) : Type 0 where
  pub rung : Rung
  pub attempted : Bool
  pub accepted : Bool
  pub reason : Reason
  pub output_fidelity : Option F
  pub quality_score : Option F
  pub size_bytes : Option ℕ
  pub size_ratio : Option (ℕ × ℕ)

-- What the loop learns from one rung: a report, and the candidate that it may return.
pub record Judged (M F : Type 0) : Type 0 where
  pub report : RungReport F
  pub winner : Option (M × F × ℕ)

module _ (e : Engine) where
  abbrev unbuilt : Rung → Bool → Reason → Judged e.Model e.Fidelity
  unbuilt r attempted reason = record {
    report = record {
      rung = r;
      attempted = attempted;
      accepted = false;
      reason = reason;
      output_fidelity = none;
      quality_score = none;
      size_bytes = none;
      size_ratio = none;
    };
    winner = none;
  }

  abbrev reason_of : Bool → Bool → Reason
  reason_of true _ = below_tau
  reason_of false true = no_size_reduction
  reason_of false false = accepted_reason

  -- `cand_size / orig_size`, and 1.0 for a model of no bytes
  abbrev ratio_of : ℕ → ℕ → ℕ × ℕ
  ratio_of size orig_size = if ltb 0 orig_size then (size, orig_size) else (1, 1)

  abbrev weigh :
      Rung → e.Fidelity → e.Model → e.Model → e.Fidelity × e.Fidelity → Judged e.Model e.Fidelity
  weigh r tau m c (ofs, quality) =
      let size = e.byte_size c in
      let low = e.below ofs tau in
      let big = leb (e.byte_size m) size in
      record {
        report = record {
          rung = r;
          attempted = true;
          accepted = not low && not big;
          reason = reason_of low big;
          output_fidelity = some ofs;
          quality_score = some quality;
          size_bytes = some size;
          size_ratio = some (ratio_of size (e.byte_size m));
        };
        winner = if not low && not big then some (c, ofs, size) else none;
      }

  -- One round of the loop over the rungs.
  unfoldable pub judge : Setup → e.Fidelity → e.Model → Rung → Judged e.Model e.Fidelity
  judge s tau m r = elim (build_candidate e s r m) [
    | raised ↦ unbuilt r true build_error
    | done none ↦ unbuilt r false not_applicable
    | done (some c) ↦ weigh r tau m c (gate_check e m c)
  ]
