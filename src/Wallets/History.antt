-- ===== src/Wallets/History.antt =====
-- The banks that the wallet methods reach, in any order and with any arguments, from empty tables.
use ryda.Base.{
  ℕ, ◌≡◌, refl, ℤ, pos, Option, none, [], arith, lookup, save-Distinct, lookup-save, after, Bool,
}
use ryda.Wallets.{create_for_user, credit, debit, transfer}
use ryda.Wallets.Entities.{Wallet, wallet_keyed, Category, Bank}
use ryda.Wallets.Balances.{IsSolvent, credit-IsSolvent, debit-IsSolvent}
use ryda.Wallets.Transfers.{transfer-IsSolvent}
use ryda.Wallets.Records.{IsRecorded, credit-IsRecorded, debit-IsRecorded, transfer-IsRecorded}
use ryda.Settings.{Settings}

-- One call of a wallet method, or the passing of time.
pub data Step : Bank → Bank → Type 0 where
  created :
      (b : Bank) (id user_id : ℕ)
      → lookup id b.wallets ≡ none
      → Step b (after (create_for_user id user_id) b)
  credited :
      (b : Bank) (s : Settings ℤ) (id : ℕ) (amount : ℤ) (c : Category) (r : Option ℕ)
      → Step b (after (credit s id amount c r) b)
  debited :
      (b : Bank) (id : ℕ) (amount : ℤ) (c : Category) (r : Option ℕ)
      → Step b (after (debit id amount c r) b)
  transferred :
      (b : Bank) (s t : ℕ) (amount fee : ℤ) (r : Option ℕ)
      → Step b (after (transfer s t amount fee r) b)
  waited : (b : Bank) (now : ℕ) → Step b (record b { now = now })

abbrev pub empty : Bank
empty = record { wallets = []; transactions = []; events = []; now = 0 }

pub data Reach : Bank → Type 0 where
  start : Reach empty
  next : {b b' : Bank} → Reach b → Step b b' → Reach b'

-- What holds of every reachable bank.
pub record IsSound (b : Bank) : Type 0 where
  pub solvent : IsSolvent b.wallets
  pub recorded : IsRecorded b.wallets b.transactions

created-IsSound :
    (b : Bank) (id user_id : ℕ)
    → lookup id b.wallets ≡ none
    → IsSound b
    → IsSound (after (create_for_user id user_id) b)
unfolding create_for_user
created-IsSound b id user_id e h = record {
  solvent = record {
    nonneg = λ j. ground (arith, h.solvent.nonneg j, lookup-save j (wallet id user_id) b.wallets);
  };
  recorded = record {
    replayed =
        λ j. ground (arith, h.recorded.replayed j, lookup-save j (wallet id user_id) b.wallets);
    chained = h.recorded.chained;
    distinct = save-Distinct (wallet id user_id) b.wallets h.recorded.distinct;
  };
}
  where
    wallet : ℕ → ℕ → Wallet
    wallet id user_id = record {
      id = id;
      user_id = user_id;
      balance = pos 0;
      is_frozen = Bool.false;
    }

Step-IsSound : {b b' : Bank} → Step b b' → IsSound b → IsSound b'
Step-IsSound (created b id user_id e) h = created-IsSound b id user_id e h
Step-IsSound (credited b s id amount c r) h = record {
  solvent = credit-IsSolvent s id amount c r b h.solvent;
  recorded = credit-IsRecorded s id amount c r b h.recorded;
}
Step-IsSound (debited b id amount c r) h = record {
  solvent = debit-IsSolvent id amount c r b h.solvent;
  recorded = debit-IsRecorded id amount c r b h.recorded;
}
Step-IsSound (transferred b s t amount fee r) h = record {
  solvent = transfer-IsSolvent s t amount fee r b h.solvent;
  recorded = transfer-IsRecorded s t amount fee r b h.recorded;
}
Step-IsSound (waited b now) h = record { solvent = h.solvent; recorded = h.recorded }

-- In every bank that the wallet methods reach from empty tables, no balance is below zero, each
-- balance is the sum of the wallet's rows, and each row states the balance that it left.
pub Reach-IsSound : {b : Bank} → Reach b → IsSound b
Reach-IsSound start = record {
  solvent = record { nonneg = λ id. omega arith };
  recorded = record { replayed = λ id. refl; chained = λ id. tt; distinct = tt };
}
Reach-IsSound (next r st) = Step-IsSound st (Reach-IsSound r)
