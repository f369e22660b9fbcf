-- ===== src/Corporate/Invoices.antt =====
-- src/corporate/corporate.service.ts: the invoice of an account for a period.
use ryda.Base.{
  ℕ, ◌==◌, ltb, leb, Bool, not, ◌&&◌, Option, none, some, List, ℤ, pos, Action, ◌>>=◌, ◌>>◌, pure,
  modify, save, find_first, find_last, keep, length,
}
use ryda.Corporate.{find_by_id, is_debit, sum_amounts}
use ryda.Corporate.Entities.{
  CorporateTransaction, CorporateInvoice, invoice_keyed, Corporate, account_keyed,
}

-- balanceAsOf: the balance after the last row before the instant
unfoldable pub balance_as_of : ℕ → ℕ → List CorporateTransaction → ℤ
balance_as_of account_id instant ts =
    elim (find_last (λ t. t.corporate_account_id == account_id && ltb t.created_at instant) ts) [
      | none ↦ pos 0
      | some t ↦ t.balance_after
    ]

-- The rows of an account in a period.
abbrev pub in_period : ℕ → ℕ → ℕ → CorporateTransaction → Bool
in_period account_id start end t =
    t.corporate_account_id == account_id && leb start t.created_at && ltb t.created_at end

abbrev pub debits_in : ℕ → ℕ → ℕ → List CorporateTransaction → ℤ
debits_in account_id start end ts =
    sum_amounts (keep (λ t. in_period account_id start end t && is_debit t.direction) ts)

abbrev pub credits_in : ℕ → ℕ → ℕ → List CorporateTransaction → ℤ
credits_in account_id start end ts =
    sum_amounts (keep (λ t. in_period account_id start end t && not (is_debit t.direction)) ts)

-- The row that is made for a period.
unfoldable pub invoice_for : ℕ → ℕ → ℕ → ℕ → List CorporateTransaction → CorporateInvoice
invoice_for id account_id start end ts = record {
  id = id;
  corporate_account_id = account_id;
  period_start = start;
  period_end = end;
  opening_balance = balance_as_of account_id start ts;
  closing_balance = balance_as_of account_id end ts;
  total_debits = debits_in account_id start end ts;
  total_credits = credits_in account_id start end ts;
  transaction_count = length (keep (in_period account_id start end) ts);
}

abbrev pub invoice_of : ℕ → ℕ → ℕ → List CorporateInvoice → Option CorporateInvoice
invoice_of account_id start end =
    find_first
      (λ i. i.corporate_account_id == account_id && i.period_start == start && i.period_end == end)

-- generateInvoiceForPeriod
unfoldable pub generate_invoice : ℕ → ℕ → ℕ → ℕ → Action Corporate CorporateInvoice
generate_invoice id account_id start end c = elim (invoice_of account_id start end c.invoices) [
  | some existing ↦ pure existing c
  | none ↦
      (find_by_id account_id >>= λ account.
      let invoice = invoice_for id account_id start end c.transactions in
      modify (λ d. record d { invoices = save invoice d.invoices }) >> pure invoice)
        c
]
