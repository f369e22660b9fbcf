-- ===== src/Corporate/Books.antt =====
-- The ledger of a corporate account, and the invoices that are made from it.
use ryda.Base.{
  ℕ, ◌≤◌, ◌<◌, ◌==◌, ltb, ◌≡◌, ◌≤ℤ◌, refl, Bool, true, ◌&&◌, ℤ, pos, ◌+ℤ◌, ◌-ℤ◌, none, some, List,
  [], ◌∷◌, arith, int_laws, if◌then◌else◌, lookup-save_self, find_last, after,
}
use ryda.Wallets.Entities.{credit_direction, debit_direction}
use ryda.Corporate.{create_account, apply_ledger_change, change_locked, top_up}
use ryda.Corporate.Invoices.{balance_as_of, debits_in, credits_in, invoice_for}
use ryda.Corporate.Entities.{account_keyed, CorporateTransaction, Corporate}

-- What a row adds to the budget.
abbrev pub signed : CorporateTransaction → ℤ
signed t = elim t.direction [ credit_direction ↦ t.amount | debit_direction ↦ pos 0 -ℤ t.amount ]

-- The sum of the rows of an account that pass a test.
abbrev pub net : ℕ → (CorporateTransaction → Bool) → List CorporateTransaction → ℤ
net id p [] = pos 0
net id p (t ∷ ts) = (if t.corporate_account_id == id && p t then signed t else pos 0) +ℤ net id p ts

-- Each row of the account states the budget that it leaves, from `acc`.
abbrev pub Chained : ℕ → ℤ → List CorporateTransaction → Type 0
Chained id acc [] = Unit
Chained id acc (t ∷ ts) =
    (t.corporate_account_id ≡ id → t.balance_after ≡ acc +ℤ signed t)
    × Chained id (if t.corporate_account_id == id then acc +ℤ signed t else acc) ts

-- The rows stand in the order of their times, from `since` on.
abbrev pub Ordered : ℕ → List CorporateTransaction → Type 0
Ordered since [] = Unit
Ordered since (t ∷ ts) = (since ≤ t.created_at) × Ordered t.created_at ts

-- The balance as of an instant, from `acc`.
abbrev as_of : ℕ → ℤ → ℕ → List CorporateTransaction → ℤ
as_of id acc instant ts =
    elim (find_last (λ t. t.corporate_account_id == id && ltb t.created_at instant) ts) [
      | none ↦ acc
      | some t ↦ t.balance_after
    ]

as_of_late :
    (id : ℕ) (acc : ℤ) (since instant : ℕ) (ts : List CorporateTransaction)
    → instant ≤ since
    → Ordered since ts
    → (find_last (λ t. t.corporate_account_id == id && ltb t.created_at instant) ts ≡ none)
      × (net id (λ t. ltb t.created_at instant) ts ≡ pos 0)
as_of_late id acc since instant [] h o = (refl, refl)
as_of_late id acc since instant (t ∷ ts) h o =
    grind (int_laws, as_of_late id acc t.created_at instant ts)

as_of-net :
    (id : ℕ) (acc : ℤ) (since instant : ℕ) (ts : List CorporateTransaction)
    → Chained id acc ts
    → Ordered since ts
    → as_of id acc instant ts ≡ acc +ℤ net id (λ t. ltb t.created_at instant) ts
as_of-net id acc since instant [] h o = omega int_laws
as_of-net id acc since instant (t ∷ ts) h o = grind (
  int_laws,
  as_of_late id acc t.created_at instant ts,
  as_of-net id (acc +ℤ signed t) t.created_at instant ts,
  as_of-net id acc t.created_at instant ts,
)

net-period :
    (id start end : ℕ) (ts : List CorporateTransaction)
    → start ≤ end
    → net id (λ t. ltb t.created_at end) ts
      ≡ net id (λ t. ltb t.created_at start) ts
        +ℤ (credits_in id start end ts -ℤ debits_in id start end ts)
net-period id start end [] h = omega int_laws
net-period id start end (t ∷ ts) h = grind (int_laws, net-period id start end ts h)

-- An invoice adds up: where each row of the account states the budget that it leaves, from nothing, and
-- the rows stand in the order of their times, the closing balance is the opening balance with the
-- credits of the period added and its debits taken away.
pub invoice_adds_up :
    (id account_id start end : ℕ) (ts : List CorporateTransaction)
    → start ≤ end
    → Chained account_id (pos 0) ts
    → Ordered 0 ts
    → let i = invoice_for id account_id start end ts in
      i.closing_balance ≡ i.opening_balance +ℤ (i.total_credits -ℤ i.total_debits)
unfolding invoice_for balance_as_of
invoice_adds_up id account_id start end ts h chained ordered = grind (
  int_laws,
  as_of-net account_id (pos 0) 0 start ts chained ordered,
  as_of-net account_id (pos 0) 0 end ts chained ordered,
  net-period account_id start end ts h,
)

-- The row that the first top-up of an account writes.
pub top_up-row :
    (id owner : ℕ) (budget amount : ℤ) (c : Corporate)
    → c.transactions ≡ []
    → pos 1 ≤ℤ amount
    → (after (top_up id amount) (after (create_account id owner budget) c)).transactions
      ≡ record {
        corporate_account_id = id;
        direction = credit_direction;
        amount = amount;
        balance_after = budget +ℤ amount;
        reference_id = none;
        employee_user_id = none;
        department = none;
        created_at = c.now;
      }
        ∷ []
unfolding create_account top_up apply_ledger_change change_locked
top_up-row id owner budget amount c new p = ground (
  arith,
  lookup-save_self
      (record {
        id = id;
        owner_user_id = owner;
        budget_balance = budget;
        is_active = true;
        allowed_categories = none;
        max_fare_per_ride = none;
        operating_hours_start = none;
        operating_hours_end = none;
        allowed_cities = none;
        requires_approval_above_fare = none;
      })
      c.accounts,
)

-- What an account that was made with a budget, and topped up once, is billed for the period: nothing to
-- open with and the top-up as the only credit, though it closes with the budget and the top-up.
initial_budget_unbilled :
    (id owner invoice_id start end : ℕ) (budget amount : ℤ) (c : Corporate)
    → start ≤ c.now
    → c.now < end
    → c.transactions ≡ []
    → pos 1 ≤ℤ amount
    → let c' = after (top_up id amount) (after (create_account id owner budget) c) in
      let i = invoice_for invoice_id id start end c'.transactions in
      (i.opening_balance ≡ pos 0)
      × (i.total_credits ≡ amount)
      × (i.total_debits ≡ pos 0)
      × (i.closing_balance ≡ budget +ℤ amount)
unfolding invoice_for balance_as_of
initial_budget_unbilled id owner invoice_id start end budget amount c early late new p =
    grind (int_laws, top_up-row id owner budget amount c new p)
