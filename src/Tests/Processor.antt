-- ===== src/Tests/Processor.antt =====
-- The processor of payments at concrete inputs.
use pay_era.Prelude.{◌≤◌, ◌≡◌, refl, true, ◌&&◌, some, ok, err, failure, All, length}
use pay_era.Payments.Store.{TransactionStatus}
use pay_era.Payments.Processor.Services.{Services}
use pay_era.Payments.Processor.Payment.{process_transaction}
use pay_era.Payments.Processor.Payment.Laws.{Settled, process_transaction-Settled}
use pay_era.Payments.Processor.Tick.{handle_pending_transactions, is_authorized, since, claim}
use pay_era.Payments.Processor.Tick.Laws.{Batch, taken, handle_pending_transactions_lem}
use pay_era.Tests.Payments.{whole, payment, paying, paying-IsValid}

-- Services of which only the mint of rewards fails.
abbrev services : Services whole
services = record {
  create_payment = λ k a. ok tt;
  quote_payment = λ k a. ok tt;
  mark_converted = λ k id. ok tt;
  submit_payment = λ k a. ok (record { hash = "h"; ledger = 12 });
  mark_settled = λ k id. ok tt;
  initiate_upi_payout = λ k a. ok (record { transaction_id = "d"; status = "PENDING" });
  issue_star_reward = λ k a. err (failure "mint");
  complete_payment = λ k id. ok tt;
  usdc_price = λ k id. ok (some 83);
}

process_transaction-Settled_example :
    let out =
      process_transaction whole
        (λ n. "5")
        services
        2000
        1
        (payment TransactionStatus.authorized)
        (paying TransactionStatus.authorized) in
    (out.0 ≡ ok tt)
    × Settled whole
        (λ n. "5")
        services
        2000
        1
        (payment TransactionStatus.authorized)
        (paying TransactionStatus.authorized)
        (payment TransactionStatus.authorized)
        out.1
process_transaction-Settled_example =
    process_transaction-Settled whole (λ n. "5") services 2000 1
      (payment TransactionStatus.authorized) (paying TransactionStatus.authorized)
      (payment TransactionStatus.authorized)
      (record { valid = paying-IsValid TransactionStatus.authorized; found = refl })

handle_pending_transactions_lem_example :
    let s = paying TransactionStatus.created in
    let out = handle_pending_transactions whole (λ n. "5") services 2000 s in
    let batch = taken whole (λ n. "5") services 2000 s in
    (out.0 ≡ ok tt)
    × (length batch ≤ 10)
    × All
        (λ t.
          (is_authorized whole (λ n. "5") services 2000 t.status
            && since whole (λ n. "5") services 2000 t.authorized_at)
          ≡ true)
        batch
    × Batch whole (λ n. "5") services 2000 batch (claim whole (λ n. "5") services 2000 s) out.1
handle_pending_transactions_lem_example =
    handle_pending_transactions_lem whole (λ n. "5") services 2000
      (paying TransactionStatus.created) (paying-IsValid TransactionStatus.created) refl
