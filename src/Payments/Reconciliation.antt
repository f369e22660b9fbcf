-- ===== src/Payments/Reconciliation.antt =====
-- src/payments/paystack-reconciliation.service.ts: the comparison of the own records of a period with the
-- transactions that the provider lists for it.
use ryda.Base.{
  ℕ, ◌+◌, ◌==◌, ltb, Bool, not, ◌&&◌, ◌||◌, Option, none, some, List, [], ◌∷◌, ◌++◌, if◌then◌else◌,
  some_of, find_last,
}
use ryda.Payments.Entities.{is_success, Payment}

-- A transaction of the provider.
pub record Transaction : Type 0 where
  pub reference : ℕ
  pub succeeded : Bool
  pub amount : ℕ

-- PaystackReconciliationIssueType
pub data IssueType : Type 0 where
  missing_locally status_mismatch amount_mismatch : IssueType

pub record Issue : Type 0 where
  pub type : IssueType
  pub reference : ℕ

-- `paystackByReference.get(reference)`: of two with one reference a Map keeps the last.
abbrev pub transaction_of : ℕ → List Transaction → Option Transaction
transaction_of reference = find_last (λ t. t.reference == reference)

-- The transactions of the provider that are not known here
unfoldable pub missing : List Payment → List Transaction → List Issue
missing records [] = []
missing records (t ∷ ts) =
    let rest = missing records ts in
    if t.succeeded && not (some_of (λ r. r.reference == t.reference) records)
    then record { type = missing_locally; reference = t.reference } ∷ rest
    else rest

-- More than one kobo apart
abbrev pub differs : ℕ → ℕ → Bool
differs a b = ltb (a + 1) b || ltb (b + 1) a

-- What is wrong with one of the own records
abbrev pub issue_of : List Transaction → Payment → Option IssueType
issue_of ts r =
    if not (is_success r.status) || r.simulated
    then none
    else elim (transaction_of r.reference ts) [
      | none ↦ some status_mismatch
      | some t ↦
          if not t.succeeded
          then some status_mismatch
          else if differs r.amount t.amount
          then some amount_mismatch
          else none
    ]

unfoldable pub mismatches : List Transaction → List Payment → List Issue
mismatches ts [] = []
mismatches ts (r ∷ rs) =
    let rest = mismatches ts rs in
    elim (issue_of ts r) [
      | none ↦ rest
      | some type ↦ record { type = type; reference = r.reference } ∷ rest
    ]

-- reconcile
unfoldable pub reconcile : List Payment → List Transaction → List Issue
reconcile records ts = missing records ts ++ mismatches ts records
