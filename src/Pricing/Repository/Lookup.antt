-- ===== src/Pricing/Repository/Lookup.antt =====
-- Which price is found (`getPricing` in src/pricing/pricing.repository.ts).
use zk_api.Common.{
  ℕ, ◌≤◌, ◌≡◌, refl, ◌⊎◌, inl, inr, Bool, true, ◌&&◌, Option, none, some, List, [], ◌∷◌, arith, ltb,
  filter, All, Bool-cases, Option-cases,
}
use zk_api.Common.Eq.{text_eq}
use zk_api.Common.Text.{Text}
use zk_api.Pricing.Oracle.{PricingModel}
use zk_api.Pricing.Repository.{
  PricingModelRow, given, is_for, is_active, latest, select, get_pricing,
}

-- m is selected, and no selected row has a later effective_from.
pub record IsLatest (selected : PricingModel → Bool) (rows : List PricingModelRow)
    (m : PricingModel) : Type 0 where
  pub is_selected : selected m ≡ true
  pub is_last :
      All (λ r. r.model.effective_from ≤ m.effective_from) (filter (λ r. selected r.model) rows)

module _ (selected : PricingModel → Bool) where
  pub latest-none :
      (rows : List PricingModelRow)
      → latest selected rows ≡ none
      → filter (λ r. selected r.model) rows ≡ []
  unfolding latest
  latest-none [] h = refl
  latest-none (r ∷ rs) h = ground (arith, h, latest-none rs)

  pub none-latest :
      (rows : List PricingModelRow)
      → filter (λ r. selected r.model) rows ≡ []
      → latest selected rows ≡ none
  unfolding latest
  none-latest [] h = refl
  none-latest (r ∷ rs) h = ground (arith, h, none-latest rs)

  later_bound :
      (xs : List PricingModelRow) (a b : ℕ)
      → a ≤ b
      → All (λ r. r.model.effective_from ≤ a) xs
      → All (λ r. r.model.effective_from ≤ b) xs
  later_bound [] a b h k = tt
  later_bound (x ∷ xs) a b h k = (omega (arith, k.0), later_bound xs a b h k.1)

  pub latest-IsLatest :
      (rows : List PricingModelRow) (m : PricingModel)
      → latest selected rows ≡ some m
      → IsLatest selected rows m
  unfolding latest
  latest-IsLatest [] m h = ground arith
  latest-IsLatest (r ∷ rs) m h = elim (Bool-cases (selected r.model)) [
    | inr out ↦
        let i : IsLatest selected rs m = latest-IsLatest rs m (ground (arith, h, out)) in
        record { is_selected = i.is_selected; is_last = ground (arith, out, i.is_last) }
    | inl chosen ↦ elim (Option-cases (latest selected rs)) [
      | inl nothing ↦
          let same : r.model ≡ m = ground (arith, h, chosen, nothing) in
          record {
            is_selected = ground (arith, same, chosen);
            is_last = ground (arith, chosen, same, latest-none rs nothing);
          }
      | inr (m', found) ↦
          let i : IsLatest selected rs m' = latest-IsLatest rs m' found in
          elim (Bool-cases (ltb r.model.effective_from m'.effective_from)) [
            | inl before ↦
                let same : m' ≡ m = ground (arith, h, chosen, found, before) in
                rw (← same) record {
                  is_selected = i.is_selected;
                  is_last = ground (arith, chosen, before, i.is_last);
                }
            | inr after ↦
                let same : r.model ≡ m = ground (arith, h, chosen, found, after) in
                let bound =
                  later_bound (filter (λ r. selected r.model) rs) m'.effective_from
                    r.model.effective_from (ground (arith, after)) i.is_last in
                rw (← same) record { is_selected = chosen; is_last = ground (arith, chosen, bound) }
          ]
    ]
  ]

-- The endpoint that a price found is of: the one asked for, or none.
abbrev pub IsPriceFor : ℕ → Text → Option Text → List PricingModelRow → PricingModel → Type 0
IsPriceFor now provider_id endpoint rows m =
    IsLatest (λ m. is_for provider_id endpoint m && is_active now m) rows m

-- What a lookup gives, for an endpoint that is given or not.
abbrev pub IsRightPrice :
    ℕ → Text → Option Text → List PricingModelRow → Option PricingModel → Type 0
IsRightPrice now provider_id endpoint rows (some m) =
    IsPriceFor now provider_id endpoint rows m
    ⊎ ((filter (λ r. is_for provider_id endpoint r.model && is_active now r.model) rows ≡ [])
        × IsPriceFor now provider_id none rows m)
IsRightPrice now provider_id endpoint rows none =
    (filter (λ r. is_for provider_id endpoint r.model && is_active now r.model) rows ≡ [])
    × (filter (λ r. is_for provider_id none r.model && is_active now r.model) rows ≡ [])

module _ (now : ℕ) (provider_id : Text) (rows : List PricingModelRow) where
  none_of :
      (endpoint : Option Text)
      → select now provider_id endpoint rows ≡ none
      → filter (λ r. is_for provider_id endpoint r.model && is_active now r.model) rows ≡ []
  none_of endpoint = latest-none (λ m. is_for provider_id endpoint m && is_active now m) rows

  price_of :
      (endpoint : Option Text) (m : PricingModel)
      → select now provider_id endpoint rows ≡ some m
      → IsPriceFor now provider_id endpoint rows m
  price_of endpoint = latest-IsLatest (λ m. is_for provider_id endpoint m && is_active now m) rows

  get_pricing_given :
      (g : Option Text)
      → IsRightPrice now provider_id g rows (elim g [
        | none ↦ select now provider_id none rows
        | some e ↦ elim (select now provider_id (some e) rows) [
          | none ↦ select now provider_id none rows
          | some specific ↦ some specific
        ]
      ])
  get_pricing_given none = elim (Option-cases (select now provider_id none rows)) [
    | inl e ↦ rw (e) (none_of none e, none_of none e)
    | inr (m, e) ↦ rw (e) (inl (price_of none m e))
  ]
  get_pricing_given (some t) = elim (Option-cases (select now provider_id (some t) rows)) [
    | inr (m, e) ↦ rw (e) (inl (price_of (some t) m e))
    | inl missed ↦ rw (missed) (elim (Option-cases (select now provider_id none rows)) [
      | inl e ↦ rw (e) (none_of (some t) missed, none_of none e)
      | inr (m, e) ↦ rw (e) (inr (none_of (some t) missed, price_of none m e))
    ])
  ]

-- The price that is found is the latest of the active ones of the endpoint, where it has any; otherwise it is
-- the latest of the active ones of the provider; and none is found only where neither has one.
pub get_pricing-IsRightPrice :
    (now : ℕ) (provider_id : Text) (endpoint : Option Text) (rows : List PricingModelRow)
    → IsRightPrice now provider_id (given endpoint) rows (get_pricing now provider_id endpoint rows)
unfolding get_pricing
get_pricing-IsRightPrice now provider_id endpoint rows =
    get_pricing_given now provider_id rows (given endpoint)
