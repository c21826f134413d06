-- ===== src/Chain/Wiring.antt =====
-- The services that the processor of payments is given
-- (apps/api/src/transaction-processor/transaction-processor.service.ts): the contracts of
-- SorobanService, the network of StellarService and the payouts of SettlementService.
pub mod Laws
use pay_era.Prelude.{ℕ, List, Option, String, Result, ok, err}
use pay_era.Payments.Rates.{Numbers}
use pay_era.Payments.Processor.Services.{PayoutArgs, Services}
use pay_era.Payments.Settlement.{DecentroConfig, Decentro, Session, Clock, initiate_upi_payout}
use pay_era.Chain.Soroban.{Rpc, Addresses}
use pay_era.Chain.Soroban.Contracts.{
  create_payment, quote_payment, mark_converted, mark_settled, complete_payment, issue_star_reward,
}
use pay_era.Chain.Stellar.{Amounts, Policy, Horizon, submit_payment}

-- `await` of a call whose result is not used.
abbrev pub forget : Result String → Result (Unit {0})
forget (err e) = err e
forget (ok _) = ok tt

-- What lies behind the services, and the state of SettlementService when a call begins.
pub record Outside (V : Type 0) (num : Numbers) : Type 1 where
  pub rpc : Rpc V
  pub addresses : Addresses
  pub uuid : ℕ → List ℕ
  pub units : String → List ℕ
  pub amounts : Amounts
  pub policy : ℕ → Policy
  pub horizon : ℕ → Horizon
  pub first_28 : String → String
  pub config : DecentroConfig
  pub decentro : Decentro num
  pub clock : ℕ → Clock
  pub session : ℕ → Session
  pub suffix : PayoutArgs → String
  pub usdc_price : ℕ → ℕ → Result (Option num.Number)

module _ {V : Type 0} (num : Numbers) (out : Outside V num) where
  unfoldable pub on_chain : Services num
  on_chain = record {
    create_payment =
        λ n args. forget (create_payment out.rpc out.addresses out.uuid out.units n args);
    quote_payment =
        λ n args. forget (quote_payment out.rpc out.addresses out.uuid out.units n args);
    mark_converted = λ n id. forget (mark_converted out.rpc out.addresses out.uuid out.units n id);
    submit_payment = λ n args.
        submit_payment out.amounts (out.policy n) (out.horizon n) out.addresses.platform
          out.first_28 args;
    mark_settled = λ n id. forget (mark_settled out.rpc out.addresses out.uuid out.units n id);
    initiate_upi_payout = λ n args.
        (initiate_upi_payout num out.config out.decentro (out.clock n) n (out.suffix args) args
          (out.session n)).0;
    issue_star_reward = λ n args. issue_star_reward out.rpc out.addresses out.uuid out.units n args;
    complete_payment =
        λ n id. forget (complete_payment out.rpc out.addresses out.uuid out.units n id);
    usdc_price = out.usdc_price;
  }
