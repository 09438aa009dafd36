-- ===== src/Reports.antt =====
-- What the reports of both stores ask of their databases: groups with a sum and a count, rows from
-- the ledgers, and the orders of the rows. The order of texts in the database and the text of a day
-- (`$dateToString`, `to_char`, in UTC) are parameters.
pub mod Totals
pub mod Rows
pub mod Ledgers
use gripe.Common.{String, Bool, true, false, List, [], ◌∷◌, ◌==◌, ◌&&◌, ◌||◌, if◌then◌else◌}
use gripe.Int.{ℤ, pos, ◌+ℤ◌}
use gripe.Domain.{Time, Currency, currency_eq}
use gripe.Domain.Views.{MerchantBalanceRow, CurrencyTotal, MerchantDailyVolume, currency_text}
use gripe.Query.{map, sort}

-- One group of `$group` or `GROUP BY`, with `$sum` of a field and the count of its members.
pub record Group (K : Type 0) : Type 0 where
  pub key : K
  pub total : ℤ
  pub count : ℤ

module _ {K : Type 0} (eq : K → K → Bool) where
  unfoldable pub add_to_group : K → ℤ → List (Group K) → List (Group K)
  add_to_group k n [] = record { key = k; total = n; count = pos 1 } ∷ []
  add_to_group k n (g ∷ gs) =
      let rest = add_to_group k n gs in
      if eq g.key k
      then (record { key = g.key; total = g.total +ℤ n; count = g.count +ℤ pos 1 }) ∷ gs
      else g ∷ rest

  unfoldable pub group : {A : Type 0} → (A → K) → (A → ℤ) → List A → List (Group K)
  unfolding add_to_group
  group key amount [] = []
  group key amount (x ∷ xs) = add_to_group (key x) (amount x) (group key amount xs)

pub record VolumeKey : Type 0 where
  pub merchant_id : String
  pub day : String
  pub currency : Currency

abbrev pub volume_key_eq : VolumeKey → VolumeKey → Bool
volume_key_eq j k =
    j.merchant_id == k.merchant_id && j.day == k.day && currency_eq j.currency k.currency

abbrev pub volume_row : Group VolumeKey → MerchantDailyVolume
volume_row g = record {
  merchant_id = g.key.merchant_id;
  day = g.key.day;
  currency = g.key.currency;
  total_minor = g.total;
  count = g.count;
}

abbrev pub currency_total : Group Currency → CurrencyTotal
currency_total g = record { currency = g.key; total_minor = g.total }

module _ (text_lt : String → String → Bool) where
  -- Each by its first column, then by the next ones.
  abbrev pub is_before_volume : MerchantDailyVolume → MerchantDailyVolume → Bool
  is_before_volume a b =
      text_lt a.merchant_id b.merchant_id
      || (a.merchant_id == b.merchant_id
          && (text_lt a.day b.day
              || (a.day == b.day && text_lt (currency_text a.currency) (currency_text b.currency))))

  abbrev pub is_before_balance : MerchantBalanceRow → MerchantBalanceRow → Bool
  is_before_balance a b =
      text_lt a.merchant_id b.merchant_id
      || (a.merchant_id == b.merchant_id
          && text_lt (currency_text a.currency) (currency_text b.currency))

  abbrev pub is_before_total : CurrencyTotal → CurrencyTotal → Bool
  is_before_total a b = text_lt (currency_text a.currency) (currency_text b.currency)

  -- Group, then sort, then the rows of the report.
  unfoldable pub volume_rows :
      {A : Type 0} → (A → VolumeKey) → (A → ℤ) → List A → List MerchantDailyVolume
  volume_rows key amount xs =
      sort is_before_volume (map volume_row (group volume_key_eq key amount xs))

  unfoldable pub revenue_rows :
      {A : Type 0} → (A → Currency) → (A → ℤ) → List A → List CurrencyTotal
  revenue_rows key amount xs =
      sort is_before_total (map currency_total (group currency_eq key amount xs))
