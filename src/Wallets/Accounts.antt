-- ===== src/Wallets/Accounts.antt =====
-- The abstract view of the wallets: accounts with a balance, that can be frozen. It forgets the order of the
-- rows, the ledger and the events.
use ryda.Base.{
  ℕ, ◌==◌, ◌≡◌, refl, ℤ, pos, ◌+ℤ◌, ◌-ℤ◌, ltb_ℤ, leb_ℤ, Bool, ◌||◌, ◌&&◌, Option, none, some, List,
  [], ◌∷◌, if◌then◌else◌, arith, Option-cases, inl, inr, lookup, lookup-save, key-lookup, after, ap,
  ◌∙◌,
}
use ryda.Settings.{Settings, get_number, wallet_max_balance}
use ryda.Wallets.{credit, debit, over_maximum, default_max_balance}
use ryda.Wallets.Entities.{Wallet, wallet_keyed, Category, is_topup, Bank}

-- The balance of an account, and whether it is frozen.
abbrev pub Accounts : Type 0
Accounts = ℕ → Option (ℤ × Bool)

abbrev pub account_of : Option Wallet → Option (ℤ × Bool)
account_of none = none
account_of (some w) = some (w.balance, w.is_frozen)

abbrev pub accounts : Bank → Accounts
accounts b id = account_of (lookup id b.wallets)

-- A payment into a wallet, and one out of it, of any category.
pub data Call : Type 0 where
  pay_in pay_out : ℕ → ℤ → Category → Option ℕ → Call

abbrev pub run : Settings ℤ → Call → Bank → Bank
run s (pay_in id amount c reference) b = after (credit s id amount c reference) b
run s (pay_out id amount c reference) b = after (debit id amount c reference) b

abbrev pub replay : Settings ℤ → List Call → Bank → Bank
replay s [] b = b
replay s (k ∷ ks) b = replay s ks (run s k b)

-- What a call does to one account, where no top-up may lead above a maximum: a payment in adds a
-- positive amount; a payment out takes a positive amount that an unfrozen account holds; all else
-- does nothing.
abbrev pub change : ℤ → Call → Option (ℤ × Bool) → Option (ℤ × Bool)
change maximum k none = none
change maximum (pay_in _ amount c _) (some (balance, frozen)) =
    if leb_ℤ amount (pos 0) || (is_topup c && ltb_ℤ maximum (balance +ℤ amount))
    then some (balance, frozen)
    else some (balance +ℤ amount, frozen)
change maximum (pay_out _ amount _ _) (some (balance, frozen)) =
    if leb_ℤ amount (pos 0) || frozen || ltb_ℤ balance amount
    then some (balance, frozen)
    else some (balance -ℤ amount, frozen)

abbrev pub target : Call → ℕ
target (pay_in id _ _ _) = id
target (pay_out id _ _ _) = id

abbrev pub step : ℤ → Call → Accounts → Accounts
step maximum k a id = if id == target k then change maximum k (a id) else a id

abbrev pub steps : ℤ → List Call → Accounts → Accounts
steps maximum [] a = a
steps maximum (k ∷ ks) a = steps maximum ks (step maximum k a)

-- The maximum that the settings give
abbrev pub maximum_of : Settings ℤ → ℤ
maximum_of s = get_number s wallet_max_balance default_max_balance

run-step :
    (s : Settings ℤ) (k : Call) (b : Bank) (id : ℕ)
    → accounts (run s k b) id ≡ step (maximum_of s) k (accounts b) id
unfolding credit debit over_maximum
run-step s (pay_in target amount c reference) b id = elim (Option-cases (lookup target b.wallets)) [
  | inl missing ↦ ground arith
  | inr (w, e) ↦ ground (
    arith,
    key-lookup target b.wallets e,
    lookup-save id (record w { balance = w.balance +ℤ amount }) b.wallets,
  )
]
run-step s (pay_out target amount c reference) b id =
    elim (Option-cases (lookup target b.wallets)) [
      | inl missing ↦ ground arith
      | inr (w, e) ↦ ground (
        arith,
        key-lookup target b.wallets e,
        lookup-save id (record w { balance = w.balance -ℤ amount }) b.wallets,
      )
    ]

-- The wallets refine the abstract accounts: whatever sequence of payments in and out is made, of
-- whatever categories, the accounts that the tables stand for are those that the specification
-- reaches, with the maximum of the settings for top-ups.
pub replay_refines :
    (s : Settings ℤ) (ks : List Call) (b : Bank)
    → accounts (replay s ks b) ≡ steps (maximum_of s) ks (accounts b)
replay_refines s [] b = refl
replay_refines s (k ∷ ks) b =
    replay_refines s ks (run s k b) ∙ ap (steps (maximum_of s) ks) (λ i id. run-step s k b id i)
