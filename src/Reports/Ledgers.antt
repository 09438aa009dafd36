-- ===== src/Reports/Ledgers.antt =====
-- The balances that a client gets, as a ledger for each currency.
use gripe.Common.{Option, none, some, List}
use gripe.Domain.{Currency, currency_eq}
use gripe.Domain.Views.{Balance}
use gripe.Contract.{Ledger, empty_ledger}
use gripe.Query.{lookup_by}

abbrev pub entry_ledger : Option Balance → Ledger
entry_ledger none = empty_ledger
entry_ledger (some b) = record { owed = b.balance_minor; fees = b.fees_minor }

-- A currency that is not there has an empty ledger.
abbrev pub ledger_in : Currency → List Balance → Ledger
ledger_in c bs = entry_ledger (lookup_by currency_eq (λ b. b.currency) c bs)
