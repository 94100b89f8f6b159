-- ===== src/Ladder/Run.antt =====
-- `guarantee_compress`: the loop over the rungs, with the fallback to the original.
use astra_back.Prelude.{ℕ, true, Option, none, some, List, [], ◌∷◌, ◌++◌}
use astra_back.Ladder.Calls.{
  Attempt, done, raised, Engine, Setup, Rung, int8_uniform, int8_uosa, w8, fp16_rung, original,
}
use astra_back.Ladder.Rungs.{RungReport, fallback, judge}

abbrev pub ladder_v1 : List Rung
ladder_v1 = int8_uniform ∷ int8_uosa ∷ fp16_rung ∷ original ∷ []

abbrev pub ladder_v2 : List Rung
ladder_v2 = int8_uniform ∷ int8_uosa ∷ w8 ∷ fp16_rung ∷ original ∷ []

abbrev pub without_original : Rung → List Rung
without_original original = []
without_original r = r ∷ []

-- `rungs[:-1]`, once `ORIGINAL` has been appended where it is not the last rung.
unfoldable pub tried_rungs : Rung → List Rung → List Rung
tried_rungs r [] = without_original r
tried_rungs r (q ∷ qs) = r ∷ tried_rungs q qs

pub record GuaranteeResult (M F : Type 0) : Type 0 where
  pub model : M
  pub rung : Rung
  pub output_fidelity : F
  pub size_ratio : ℕ × ℕ
  pub tau : F
  pub n_probes_gate : ℕ
  pub seed : ℕ
  pub rung_reports : List (RungReport F)

module _ (e : Engine) (s : Setup) (tau : e.Fidelity) (m : e.Model) where
  abbrev result_at :
      Rung
      → e.Model
      → e.Fidelity
      → ℕ × ℕ
      → List (RungReport e.Fidelity)
      → GuaranteeResult e.Model e.Fidelity
  result_at r c ofs ratio reports = record {
    model = c;
    rung = r;
    output_fidelity = ofs;
    size_ratio = ratio;
    tau = tau;
    n_probes_gate = s.n_probes_gate;
    seed = s.seed;
    rung_reports = reports;
  }

  abbrev original_report : RungReport e.Fidelity
  original_report = record {
    rung = original;
    attempted = true;
    accepted = true;
    reason = fallback;
    output_fidelity = some e.full_fidelity;
    quality_score = some e.full_fidelity;
    size_bytes = some (e.byte_size m);
    size_ratio = some (1, 1);
  }

  -- `if accepted: return …`, and else the next round.
  abbrev pub return_or :
      Rung
      → List (RungReport e.Fidelity)
      → Option (e.Model × e.Fidelity × ℕ)
      → GuaranteeResult e.Model e.Fidelity
      → GuaranteeResult e.Model e.Fidelity
  return_or r reports none rest = rest
  return_or r reports (some (c, ofs, size)) rest = result_at r c ofs (size, e.byte_size m) reports

  unfoldable pub try_rungs :
      List (RungReport e.Fidelity) → List Rung → GuaranteeResult e.Model e.Fidelity
  try_rungs reports [] =
      result_at original m e.full_fidelity (1, 1) (reports ++ original_report ∷ [])
  try_rungs reports (r ∷ rs) =
      let j = judge e s tau m r in
      let reports' = reports ++ j.report ∷ [] in
      let rest = try_rungs reports' rs in return_or r reports' j.winner rest

  -- An empty ladder has no last rung: `rungs[-1]` raises.
  unfoldable pub guarantee_compress : List Rung → Attempt (GuaranteeResult e.Model e.Fidelity)
  guarantee_compress [] = raised
  guarantee_compress (r ∷ rs) = done (try_rungs [] (tried_rungs r rs))
