-- ===== src/Corporate/Tests.antt =====
-- Runs of the corporate methods, and examples of the theorems about them.
use ryda.Base.{◌≡◌, refl, pos, ◌+ℤ◌, ◌-ℤ◌, none, [], ◌∷◌, List, arith}
use ryda.Wallets.Entities.{credit_direction, debit_direction}
use ryda.Corporate.Policy.{within_window}
use ryda.Corporate.Entities.{CorporateTransaction, Corporate}
use ryda.Corporate.Invoices.{invoice_for}
use ryda.Corporate.Books.{invoice_adds_up}
use ryda.Base.{true, false}

abbrev deposit : CorporateTransaction
deposit = record {
  corporate_account_id = 1;
  direction = credit_direction;
  amount = pos 900;
  balance_after = pos 900;
  reference_id = none;
  employee_user_id = none;
  department = none;
  created_at = 4;
}

abbrev trip : CorporateTransaction
trip = record deposit {
  direction = debit_direction;
  amount = pos 250;
  balance_after = pos 650;
  created_at = 12;
}

abbrev books : List CorporateTransaction
books = deposit ∷ trip ∷ []

invoice_adds_up_example :
    let i = invoice_for 3 1 10 20 books in
    i.closing_balance ≡ i.opening_balance +ℤ (i.total_credits -ℤ i.total_debits)
unfolding ◌+ℤ◌ ◌-ℤ◌
invoice_adds_up_example =
    invoice_adds_up 3 1 10 20 books (omega arith) (λ _. refl, (λ _. refl, tt))
      (omega arith, (omega arith, tt))

abbrev fresh : Corporate
fresh = record {
  accounts = [];
  employees = [];
  transactions = [];
  approvals = [];
  invoices = [];
  now = 15;
}

night_window : (within_window 22 5 23 ≡ true) × (within_window 22 5 12 ≡ false)
night_window = (refl, refl)
