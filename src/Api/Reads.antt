-- ===== src/Api/Reads.antt =====
-- internal/api/payments.go (listPayments), settlement.go (getBalances) and reports.go: the handlers
-- that read. The parameters of the query come beside the request. The detail that follows "bad 'from'"
-- and its like is left out, and JSON is the library's.
pub mod Backends
pub mod Own
pub mod Tests
use gripe.Common.{
  String, Bool, true, false, Option, none, some, List, [], ◌==◌, ◌-◌, ◌*◌, if◌then◌else◌,
}
use gripe.Int.{ℤ, pos}
use gripe.Domain.{Time, Actor, ActorRole, admin, merchant, customer}
use gripe.Domain.Cadence.{day_length}
use gripe.Domain.Views.{
  Filters, Cursor, Page, Balance, MerchantBalanceRow, CurrencyTotal, MerchantDailyVolume,
}
use gripe.Exec.{Action, Result, ok, err, attempt, now, pure, if_found, ◌>>=◌}
use gripe.Api.{Request, Response}
use gripe.Api.Handlers.{Libraries, is_admin, is_customer, refuse, reply, with_actor, if_admin}

-- The methods of `store.Store` that these handlers call.
pub record Reader (D : Type 0) : Type 0 where
  pub list_merchant_payments : String → Filters → Cursor → Action D Page
  pub list_all_payments : Filters → Cursor → Action D Page
  pub get_merchant_balances : String → Action D (List Balance)
  pub admin_volume_report : Time → Time → Action D (List MerchantDailyVolume)
  pub admin_balance_report : Action D (List MerchantBalanceRow)
  pub admin_revenue_report : Action D (List CurrencyTotal)

-- encoding/json of the answers, and strconv.ParseInt.
pub record Formats : Type 0 where
  pub page_json : Page → String
  pub balances_json : List Balance → String
  pub volume_json : List MerchantDailyVolume → String
  pub balance_rows_json : List MerchantBalanceRow → String
  pub totals_json : List CurrencyTotal → String
  pub parse_int : String → Option ℤ

-- `r.URL.Query().Get`: the empty text where the parameter is absent.
abbrev pub Query : Type 0
Query = String → String

-- A parameter that is absent has its default; `none` is one that does not parse.
abbrev pub param_or : {A : Type 0} → A → (String → Option A) → String → Option A
param_or default parse v = if v == "" then some default else parse v

module _ {D : Type 0} (L : Libraries D) (F : Formats) where
  -- The switch on the role; a customer was refused before.
  abbrev pub list_for : Reader D → Actor → Filters → Cursor → Action D Page
  list_for s actor f cursor = elim actor.role [
    | admin ↦ s.list_all_payments f cursor
    | merchant ↦ s.list_merchant_payments actor.id f cursor
    | customer ↦ pure (record { items = []; next_cursor = "" })
    | ActorRole.other r ↦ pure (record { items = []; next_cursor = "" })
  ]

  abbrev pub filters_of : Actor → Query → Time → Time → ℤ → ℤ → Filters
  filters_of actor query from to min max = record {
    status = query "status";
    method = query "method";
    currency = query "currency";
    merchant_id = if is_admin actor.role then query "merchant_id" else "";
    from_time = from;
    to_time = to;
    min_minor = min;
    max_minor = max;
  }

  unfoldable pub list_payments_handler : Option (Reader D) → Request → Query → Action D Response
  unfolding attempt
  list_payments_handler store request query = with_actor L store request λ s actor.
      if is_customer actor.role
      then refuse L 403 "customers cannot list payments"
      else if_found (param_or 0 L.parse_rfc3339 (query "from")) (refuse L 400 "bad 'from'") λ from.
        if_found (param_or 0 L.parse_rfc3339 (query "to")) (refuse L 400 "bad 'to'") λ to.
          if_found (param_or (pos 0) F.parse_int (query "min_minor"))
            (refuse L 400 "bad 'min_minor'")
            λ min.
              if_found (param_or (pos 0) F.parse_int (query "max_minor"))
                (refuse L 400 "bad 'max_minor'")
                λ max. do
                  listed ←
                      attempt
                        (list_for s actor (filters_of actor query from to min max) (query "cursor"))
                  reply L 200 F.page_json listed

  abbrev balances_reply : Reader D → String → Action D Response
  balances_reply s merchant_id = do
    balances ← attempt (s.get_merchant_balances merchant_id)
    reply L 200 F.balances_json balances

  unfoldable pub get_balances_handler : Option (Reader D) → Request → Query → Action D Response
  unfolding attempt
  get_balances_handler store request query = with_actor L store request λ s actor. elim actor.role [
    | merchant ↦ balances_reply s actor.id
    | admin ↦
        if query "merchant_id" == ""
        then refuse L 400 "merchant_id required for admin"
        else balances_reply s (query "merchant_id")
    | customer ↦ refuse L 403 "customers have no balances"
    | ActorRole.other r ↦ refuse L 403 "customers have no balances"
  ]

  -- The last 30 days, where the query does not say.
  unfoldable pub admin_volume_report_handler :
      Option (Reader D) → Request → Query → Action D Response
  unfolding attempt
  admin_volume_report_handler store request query = if_admin L store request λ s. do
    t ← now
    if_found (param_or (t - 30 * day_length) L.parse_rfc3339 (query "from"))
        (refuse L 400 "bad 'from'")
        λ from.
          if_found (param_or t L.parse_rfc3339 (query "to")) (refuse L 400 "bad 'to'")
            λ to. do rows ← attempt (s.admin_volume_report from to); reply L 200 F.volume_json rows

  unfoldable pub admin_balance_report_handler : Option (Reader D) → Request → Action D Response
  unfolding attempt
  admin_balance_report_handler store request =
      if_admin L store request
        λ s. do rows ← attempt s.admin_balance_report; reply L 200 F.balance_rows_json rows

  unfoldable pub admin_revenue_report_handler : Option (Reader D) → Request → Action D Response
  unfolding attempt
  admin_revenue_report_handler store request =
      if_admin L store request
        λ s. do rows ← attempt s.admin_revenue_report; reply L 200 F.totals_json rows
