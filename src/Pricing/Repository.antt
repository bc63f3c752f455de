-- ===== src/Pricing/Repository.antt =====
-- The tables of pricing models and of their history (src/pricing/pricing.repository.ts). Rows stand in the
-- order of insertion, times are numbers of milliseconds, and rates are kept as such and not as JSON.
mod Tests
pub mod Lookup
pub mod Upsert
use zk_api.Common.{
  ℕ, suc, Bool, true, false, not, ◌&&◌, Option, none, some, List, [], ◌∷◌, ◌++◌, map, ltb, leb,
  if◌then◌else◌, is_some, filter, take, length,
}
use zk_api.Common.Eq.{◌===◌, text_eq}
use zk_api.Common.Text.{Text}
use zk_api.Pricing.Oracle.{PricingModel, PricingRate}

pub record PricingModelRow : Type 0 where
  pub id : ℕ
  pub model : PricingModel
  pub created_at : ℕ
  pub updated_at : ℕ

pub record PricingHistory : Type 0 where
  pub id : ℕ
  pub provider_id : Text
  pub endpoint : Option Text
  pub old_rates : Option (List PricingRate)
  pub new_rates : List PricingRate
  pub changed_by : Text
  pub changed_at : ℕ
  pub reason : Text

pub record PricingTables : Type 0 where
  pub pricing_models : List PricingModelRow
  pub pricing_history : List PricingHistory

-- An endpoint as a condition: an empty text is falsy.
abbrev pub given : Option Text → Option Text
given none = none
given (some []) = none
given (some (c ∷ s)) = some (c ∷ s)

-- `endpoint = ?` for a text, `endpoint IS NULL` for none.
abbrev pub is_endpoint : Option Text → Option Text → Bool
is_endpoint none none = true
is_endpoint none (some e) = false
is_endpoint (some e) none = false
is_endpoint (some e) (some e') = e' === e

abbrev pub is_for : Text → Option Text → PricingModel → Bool
is_for provider_id endpoint m = m.provider_id === provider_id && is_endpoint endpoint m.endpoint

-- `effective_from <= ? AND (effective_until IS NULL OR effective_until > ?)`
abbrev pub is_active : ℕ → PricingModel → Bool
is_active now m =
    leb m.effective_from now && elim m.effective_until [ none ↦ true | some until ↦ ltb now until ]

-- `ORDER BY effective_from DESC LIMIT 1`: of rows with the same effective_from, whose order SQL leaves open,
-- the first.
abbrev pub later : PricingModel → Option PricingModel → Option PricingModel
later m none = some m
later m (some m') = if ltb m.effective_from m'.effective_from then some m' else some m

unfoldable pub latest : (PricingModel → Bool) → List PricingModelRow → Option PricingModel
latest selected [] = none
latest selected (r ∷ rs) =
    let rest = latest selected rs in if selected r.model then later r.model rest else rest

abbrev pub select : ℕ → Text → Option Text → List PricingModelRow → Option PricingModel
select now provider_id endpoint rows =
    latest (λ m. is_for provider_id endpoint m && is_active now m) rows

-- `getPricing`
unfoldable pub get_pricing : ℕ → Text → Option Text → List PricingModelRow → Option PricingModel
unfolding latest
get_pricing now provider_id endpoint rows = elim (given endpoint) [
  | none ↦ select now provider_id none rows
  | some e ↦ elim (select now provider_id (some e) rows) [
    | none ↦ select now provider_id none rows
    | some specific ↦ some specific
  ]
]

-- The UPDATE of `upsertPricing`.
abbrev pub closed_at : ℕ → PricingModelRow → PricingModelRow
closed_at now r = record r {
  model = record r.model { effective_until = some now };
  updated_at = now;
}

abbrev pub close_if : Bool → ℕ → PricingModelRow → PricingModelRow
close_if b now r = if b then closed_at now r else r

abbrev pub is_open : Text → Option Text → PricingModel → Bool
is_open provider_id endpoint m = is_for provider_id endpoint m && not (is_some m.effective_until)

unfoldable pub close_open : ℕ → Text → Option Text → List PricingModelRow → List PricingModelRow
close_open now provider_id endpoint rows =
    map (λ r. close_if (is_open provider_id endpoint r.model) now r) rows

-- `upsertPricing`
unfoldable pub upsert_pricing : ℕ → PricingModel → List PricingModelRow → List PricingModelRow
unfolding get_pricing close_open
upsert_pricing now m rows =
    let closed =
      if is_some (get_pricing now m.provider_id m.endpoint rows)
      then close_open now m.provider_id (given m.endpoint) rows
      else rows in
    closed ++ record { id = suc (length rows); model = m; created_at = now; updated_at = now } ∷ []

-- `addHistory`
unfoldable pub add_history :
    ℕ
    → Text
    → Option Text
    → Option (List PricingRate)
    → List PricingRate
    → Text
    → Text
    → List PricingHistory
    → List PricingHistory
add_history now provider_id endpoint old_rates new_rates changed_by reason history =
    history
    ++ record {
      id = suc (length history);
      provider_id = provider_id;
      endpoint = endpoint;
      old_rates = old_rates;
      new_rates = new_rates;
      changed_by = changed_by;
      changed_at = now;
      reason = reason;
    }
      ∷ []

-- `ORDER BY changed_at DESC`
abbrev pub insert_newest : PricingHistory → List PricingHistory → List PricingHistory
insert_newest h [] = h ∷ []
insert_newest h (g ∷ gs) =
    let rest = insert_newest h gs in if leb g.changed_at h.changed_at then h ∷ g ∷ gs else g ∷ rest

abbrev pub newest_first : List PricingHistory → List PricingHistory
newest_first [] = []
newest_first (h ∷ hs) = insert_newest h (newest_first hs)

-- `getHistory`
unfoldable pub get_history : Text → ℕ → List PricingHistory → List PricingHistory
get_history provider_id limit history =
    take limit (newest_first (filter (λ h. h.provider_id === provider_id) history))
