-- ===== src/Common/Pagination.antt =====
-- Pages of a query: apps/api/src/common/utils/pagination.ts, common/dto/pagination.dto.ts (page and
-- limit are at least 1, the limit at most 100) and common/interceptors/pagination.interceptor.ts.
pub mod Laws
use pay_era.Prelude.{
  ℕ, ◌+◌, ◌-◌, ◌*◌, ◌/◌, ◌≤◌, Bool, Option, none, some, List, take, drop, length, ltb, or_else,
}

pub record Pagination : Type 0 where
  pub skip : ℕ
  pub take : ℕ

unfoldable pub to_pagination : ℕ → ℕ → Pagination
to_pagination page limit = record { skip = (page - 1) * limit; take = limit }

module _ {A : Type 0} where
  -- `findMany({ skip, take })` on the rows that the query selects.
  abbrev pub page_of : Pagination → List A → List A
  page_of p rows = take p.take (drop p.skip rows)

  -- The items that a list request returns.
  unfoldable pub list_page : ℕ → ℕ → List A → List A
  unfolding to_pagination
  list_page page limit rows = page_of (to_pagination page limit) rows

-- `Math.ceil(total / limit)`, for a limit that is not 0.
abbrev pub ceil_div : ℕ → ℕ → ℕ
ceil_div total limit = (total + limit - 1) / limit

pub record Meta : Type 0 where
  pub total : ℕ
  pub page : ℕ
  pub limit : ℕ
  pub total_pages : ℕ
  pub has_next_page : Bool
  pub has_previous_page : Bool

-- The `meta` of a response with `items` and `total`; both query parameters may be absent.
unfoldable pub intercept : Option ℕ → Option ℕ → ℕ → Meta
intercept page? limit? total =
    let page = or_else page? 1 in
    let limit = or_else limit? 25 in
    let total_pages = ceil_div total limit in
    record {
      total = total;
      page = page;
      limit = limit;
      total_pages = total_pages;
      has_next_page = ltb page total_pages;
      has_previous_page = ltb 1 page;
    }
