-- ===== src/Tests/Comparing.antt =====
-- thin_delta on concrete inputs.
use thin_provisioning_tools.Prelude.{
  ℕ, ◌≡◌, refl, none, some, List, [], ◌∷◌, ◌++◌, Result, ok, arith,
}
use thin_provisioning_tools.Thin.BlockTime.{BlockTime}
use thin_provisioning_tools.Thin.Delta.{
  DataMapping, Delta, left_only, differ, same, DeltaError, Leaf, get_mappings, dump_delta_mappings,
}
use thin_provisioning_tools.Thin.Delta.Expand.{expand, find, data_at}
use thin_provisioning_tools.Thin.Delta.Recorded.{leaf_pairs, expand-get_mappings}
use thin_provisioning_tools.Thin.Delta.Round.{compare_at}
use thin_provisioning_tools.Thin.Delta.Pointwise.{delta_at, Spans}
use thin_provisioning_tools.Thin.Delta.InOrder.{InOrder}
use thin_provisioning_tools.Thin.Delta.Walk.{replay, dump_delta_mappings-Correct}
use thin_provisioning_tools.Thin.Delta.Report.{Element, SimpleXmlWriter, delta, diff_e}
use thin_provisioning_tools.Thin.Delta.Report
use thin_provisioning_tools.Thin.Delta.Device.{name_at, name_of, simple_report-Correct}

abbrev at_time_one : ℕ → BlockTime
at_time_one b = record { block = b; time = 1 }

abbrev origin : List Leaf
origin =
    (1 ∷ 2 ∷ 3 ∷ [], at_time_one 10 ∷ at_time_one 11 ∷ at_time_one 12 ∷ [])
    ∷ (5 ∷ [], at_time_one 20 ∷ [])
    ∷ []

abbrev snapshot : List Leaf
snapshot = (2 ∷ 3 ∷ [], at_time_one 11 ∷ at_time_one 30 ∷ []) ∷ (7 ∷ [], at_time_one 21 ∷ []) ∷ []

abbrev run_of : ℕ → ℕ → ℕ → DataMapping
run_of t d n = record { thin_begin = t; data_begin = d; len = n }

get_mappings_test : get_mappings origin ≡ run_of 1 10 3 ∷ run_of 5 20 1 ∷ []
unfolding get_mappings
get_mappings_test = refl

-- A visitor that keeps the deltas that it is called on.
abbrev keep : List Delta → Delta → Result DeltaError (List Delta)
keep ds d = ok (ds ++ d ∷ [])

dump_delta_mappings_test :
    dump_delta_mappings keep
      (run_of 1 10 3 ∷ run_of 5 20 1 ∷ [])
      (run_of 2 11 1 ∷ run_of 3 30 1 ∷ [])
      []
    ≡ ok (
        left_only (run_of 1 10 1)
        ∷ same (run_of 2 11 1)
        ∷ differ (record { thin_begin = 3; left_data_begin = 12; right_data_begin = 30; len = 1 })
        ∷ left_only (run_of 5 20 1)
        ∷ [])
unfolding dump_delta_mappings
dump_delta_mappings_test = refl

expand-get_mappings_example : expand (get_mappings origin) ≡ leaf_pairs origin
expand-get_mappings_example = expand-get_mappings origin

dump_delta_mappings-Correct_example :
    (ds : List Delta) × ((s : List Delta)
      → dump_delta_mappings keep (run_of 1 10 3 ∷ []) (run_of 2 30 1 ∷ []) s ≡ replay keep ds s)
    × Spans 0 ds
    × ((t : ℕ)
        → delta_at ds t ≡ compare_at (find (run_of 1 10 3 ∷ []) t) (find (run_of 2 30 1 ∷ []) t))
dump_delta_mappings-Correct_example =
    dump_delta_mappings-Correct keep (run_of 1 10 3 ∷ []) (run_of 2 30 1 ∷ []) (omega arith, tt)
      (omega arith, tt)

simple_report-Correct_example :
    (writer : SimpleXmlWriter) × (dump_delta_mappings delta
        (get_mappings origin)
        (get_mappings snapshot)
        (record { w = []; builder = none })
      ≡ ok writer)
    × InOrder 0 (diff_e writer).w
    × ((t : ℕ)
        → name_at (diff_e writer).w t
          ≡ name_of (compare_at (data_at (leaf_pairs origin) t) (data_at (leaf_pairs snapshot) t)))
simple_report-Correct_example =
    simple_report-Correct origin snapshot
      (omega arith, (omega arith, (omega arith, (omega arith, tt))))
      (omega arith, (omega arith, (omega arith, tt)))

-- The builder joins deltas that touch in the thin device, wherever their data lies.
merged_test :
    Report.next (some (left_only (run_of 1 10 1))) (left_only (run_of 2 50 1))
    ≡ (some (left_only (run_of 1 10 2)), none)
unfolding Report.next
merged_test = refl
