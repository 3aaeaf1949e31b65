-- ===== src/Rank/Tests.antt =====
-- Concrete entries of a ranking.
use origin.Prelude.{◌≡◌, refl, [], ◌∷◌, arith}
use origin.Rank.{RankData, plus, compare_more_than, or_by_key, asc_compare}
use origin.Rank.Order.{asc_compare_trans}

abbrev gold : RankData
gold = record { key = 3; sort_data = 9 ∷ 5 ∷ [] }

abbrev silver : RankData
silver = record { key = 2; sort_data = 9 ∷ 1 ∷ [] }

abbrev bronze : RankData
bronze = record { key = 1; sort_data = 9 ∷ 1 ∷ [] }

gold_above : asc_compare gold silver ≡ plus
unfolding asc_compare compare_more_than or_by_key
gold_above = refl

silver_above : asc_compare silver bronze ≡ plus
unfolding asc_compare compare_more_than or_by_key
silver_above = refl

asc_compare_trans_example : asc_compare gold bronze ≡ plus
asc_compare_trans_example =
    asc_compare_trans gold silver bronze refl refl (λ e. absurd (omega arith)) gold_above
      silver_above
