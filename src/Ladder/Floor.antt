-- ===== src/Ladder/Floor.antt =====
-- Proposition 1 of astra/core/guarantee.py: the returned model keeps the fidelity floor.
use astra_back.Prelude.{
  ℕ, ◌<◌, ◌≡◌, refl, ◌⊎◌, inl, inr, false, Option, none, some, List, [], ◌∷◌, ◌++◌, arith,
}
use astra_back.Ladder.Calls.{done, Engine, Setup, Rung, original}
use astra_back.Ladder.Rungs.{RungReport, judge, build_candidate, gate_check}
use astra_back.Ladder.Run.{GuaranteeResult, try_rungs, tried_rungs, return_or, guarantee_compress}

module _ (e : Engine) (s : Setup) (tau : e.Fidelity) (m : e.Model) where
  -- What a rung must show to be chosen: a candidate that was built, whose gated fidelity is not below
  -- the floor, and that is smaller than the original.
  pub record Wins (r : Rung) (c : e.Model) (ofs : e.Fidelity) : Type 0 where
    pub built : build_candidate e s r m ≡ done (some c)
    pub gated : ofs ≡ (gate_check e m c).0
    pub kept : e.below ofs tau ≡ false
    pub smaller : e.byte_size c < e.byte_size m

  pub judge-Wins :
      (r : Rung) (c : e.Model) (ofs : e.Fidelity) (size : ℕ)
      → (judge e s tau m r).winner ≡ some (c, ofs, size)
      → Wins r c ofs × (size ≡ e.byte_size c)
  unfolding judge
  judge-Wins r c ofs size h = (
    record {
      built = ground arith;
      gated = ground arith;
      kept = ground arith;
      smaller = ground arith;
    },
    ground arith,
  )

  -- What the caller of the ladder relies on: the fidelity floor, and where the model comes from.
  pub record Honours (g : GuaranteeResult e.Model e.Fidelity) : Type 0 where
    pub floor : e.below g.output_fidelity tau ≡ false
    pub source :
        ((g.rung ≡ original) × (g.model ≡ m) × (g.output_fidelity ≡ e.full_fidelity))
        ⊎ Wins g.rung g.model g.output_fidelity

  return_or-Honours :
      (r : Rung) (reports : List (RungReport e.Fidelity)) (g : GuaranteeResult e.Model e.Fidelity)
      (w : Option (e.Model × e.Fidelity × ℕ))
      → (judge e s tau m r).winner ≡ w
      → Honours g
      → Honours (return_or e s tau m r reports w g)
  return_or-Honours r reports g none h k = k
  return_or-Honours r reports g (some (c, ofs, size)) h k =
      let (wins, _) = judge-Wins r c ofs size h in record { floor = wins.kept; source = inr wins }

  try_rungs-Honours :
      e.below e.full_fidelity tau ≡ false
      → (reports : List (RungReport e.Fidelity)) (rs : List Rung)
      → Honours (try_rungs e s tau m reports rs)
  unfolding try_rungs
  try_rungs-Honours full reports [] = record { floor = full; source = inl (refl, refl, refl) }
  try_rungs-Honours full reports (r ∷ rs) =
      let reports' = reports ++ (judge e s tau m r).report ∷ [] in
      return_or-Honours r reports' (try_rungs e s tau m reports' rs) (judge e s tau m r).winner refl
        (try_rungs-Honours full reports' rs)

  -- Over every ladder with a rung, the call returns, its fidelity is not below the floor, and the
  -- model is the original or a smaller candidate whose own gate gave that fidelity. The floor
  -- itself has to admit full fidelity.
  pub guarantee_floor :
      e.below e.full_fidelity tau ≡ false
      → (r : Rung) (rs : List Rung)
      → (g : GuaranteeResult e.Model e.Fidelity) × (guarantee_compress e s tau m (r ∷ rs) ≡ done g)
        × Honours g
  unfolding guarantee_compress
  guarantee_floor full r rs = (
    try_rungs e s tau m [] (tried_rungs r rs),
    refl,
    try_rungs-Honours full [] (tried_rungs r rs),
  )
