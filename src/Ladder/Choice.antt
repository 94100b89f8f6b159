-- ===== src/Ladder/Choice.antt =====
-- Which rung `guarantee_compress` chooses, and what its reports say.
use astra_back.Prelude.{
  ◌≡◌, refl, ◌∙◌, Bool, true, false, not, ◌&&◌, Option, none, some, List, [], ◌∷◌, ◌++◌, map, ltb,
  find_if, if◌then◌else◌, arith, ap, ℕ,
}
use mathlib.Core.List.{append_assoc, map-append}
use astra_back.Ladder.Calls.{done, raised, Engine, Setup, Rung, original}
use astra_back.Ladder.Rungs.{RungReport, judge, build_candidate, gate_check}
use astra_back.Ladder.Run.{GuaranteeResult, try_rungs, tried_rungs, return_or, guarantee_compress}

not_false : {b : Bool} → ¬ (b ≡ false) → b ≡ true
not_false {b = true} h = refl
not_false {b = false} h = absurd (h refl)

module _ (e : Engine) (s : Setup) (tau : e.Fidelity) (m : e.Model) where
  -- A rung is admissible if its candidate is built, is not below the floor and is smaller than the
  -- original.
  abbrev pub fits : e.Model → Bool
  fits c = not (e.below (gate_check e m c).0 tau) && ltb (e.byte_size c) (e.byte_size m)

  abbrev pub is_admissible : Rung → Bool
  is_admissible r = elim (build_candidate e s r m) [
    | raised ↦ false
    | done none ↦ false
    | done (some c) ↦ fits c
  ]

  abbrev pub or_original : Option Rung → Rung
  or_original none = original
  or_original (some r) = r

  -- The rungs that are reported: those up to the first admissible one.
  abbrev pub up_to_admissible : List Rung → List Rung
  up_to_admissible [] = original ∷ []
  up_to_admissible (r ∷ rs) =
      r ∷ (let rest = up_to_admissible rs in if is_admissible r then [] else rest)

  judge-report :
      (r : Rung)
      → ((judge e s tau m r).report.rung ≡ r)
        × ((judge e s tau m r).report.accepted ≡ is_admissible r)
        × ((is_admissible r ≡ false) → (judge e s tau m r).winner ≡ none)
        × ((judge e s tau m r).winner ≡ none → is_admissible r ≡ false)
  unfolding judge
  judge-report r = (ground arith, ground arith, λ h. ground arith, λ h. ground arith)

  -- An account of a run: the rung that was chosen, and the reports, of which the last alone accepts.
  pub record Accounts (before : List Rung) (rs : List Rung) (g : GuaranteeResult e.Model e.Fidelity)
      : Type 0 where
    pub chosen : g.rung ≡ or_original (find_if is_admissible rs)
    pub reported : map (λ x. x.rung) g.rung_reports ≡ before ++ up_to_admissible rs

  abbrev rungs_of : List (RungReport e.Fidelity) → List Rung
  rungs_of = map (λ x. x.rung)

  rungs_of-snoc :
      (reports : List (RungReport e.Fidelity)) (r : Rung)
      → rungs_of (reports ++ (judge e s tau m r).report ∷ []) ≡ rungs_of reports ++ r ∷ []
  rungs_of-snoc reports r = rw map-append (ap (λ q. rungs_of reports ++ q ∷ []) (judge-report r).0)

  return_or-Accounts :
      (r : Rung) (rs : List Rung) (reports : List (RungReport e.Fidelity))
      (rest : GuaranteeResult e.Model e.Fidelity) (w : Option (e.Model × e.Fidelity × ℕ))
      → (judge e s tau m r).winner ≡ w
      → let reports' = reports ++ (judge e s tau m r).report ∷ [] in
        Accounts (rungs_of reports') rs rest
        → Accounts (rungs_of reports) (r ∷ rs) (return_or e s tau m r reports' w rest)
  return_or-Accounts r rs reports rest none h ih =
      let k = (judge-report r).3 h in
      record {
        chosen = rw k ih.chosen;
        reported = rw k (ih.reported ∙ rw (rungs_of-snoc, append_assoc));
      }
  return_or-Accounts r rs reports rest (some w) h ih =
      let k = not_false (λ (no : is_admissible r ≡ false). cc (h, (judge-report r).2 no)) in
      record { chosen = rw k; reported = rw k (rungs_of-snoc reports r) }

  try_rungs-Accounts :
      (reports : List (RungReport e.Fidelity)) (rs : List Rung)
      → Accounts (rungs_of reports) rs (try_rungs e s tau m reports rs)
  unfolding try_rungs
  try_rungs-Accounts reports [] = record { chosen = refl; reported = rw map-append }
  try_rungs-Accounts reports (r ∷ rs) =
      let reports' = reports ++ (judge e s tau m r).report ∷ [] in
      return_or-Accounts r rs reports (try_rungs e s tau m reports' rs) (judge e s tau m r).winner
        refl (try_rungs-Accounts reports' rs)

  -- The call chooses the first admissible rung of the ladder, from the most aggressive one on, and
  -- the original if there is none; its reports name exactly the rungs up to the chosen one, in
  -- order.
  pub guarantee_choice :
      (r : Rung) (rs : List Rung)
      → (g : GuaranteeResult e.Model e.Fidelity) × (guarantee_compress e s tau m (r ∷ rs) ≡ done g)
        × (g.rung ≡ or_original (find_if is_admissible (tried_rungs r rs)))
        × (map (λ x. x.rung) g.rung_reports ≡ up_to_admissible (tried_rungs r rs))
  unfolding guarantee_compress
  guarantee_choice r rs =
      let a = try_rungs-Accounts [] (tried_rungs r rs) in
      (try_rungs e s tau m [] (tried_rungs r rs), refl, a.chosen, a.reported)
