-- ===== src/Tests/Common.antt =====
-- Pages and rewards at concrete inputs.
use pay_era.Prelude.{ℕ, ◌≡◌, none, some, List, [], ◌∷◌, length, arith}
use pay_era.Common.Pagination.{intercept}
use pay_era.Common.Pagination.Laws.{pages, list_page-concat}

abbrev rows : List ℕ
rows = 10 ∷ 20 ∷ 30 ∷ 40 ∷ 50 ∷ []

list_page-concat_example : pages 2 1 (intercept none (some 2) (length rows)).total_pages rows ≡ rows
list_page-concat_example = list_page-concat 2 rows (omega arith)
