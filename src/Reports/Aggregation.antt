-- ===== src/Reports/Aggregation.antt =====
-- The gas usage of a merchant: aggregateGasUsageData of
-- apps/api-service/src/reports/services/data-aggregation.service.ts.
use gas_guard.Prelude.{
  ℕ, suc, String, str_eq, Bool, Option, none, some, List, [], ◌∷◌, map, length, Dict, get, put,
  or_else, ltb, if◌then◌else◌,
}
use gas_guard.Numbers.{Arithmetic}

-- A row of the transactions; the gas used and the fee may be null.
pub record Transaction (Number : Type 0) : Type 0 where
  pub chain_id : String
  pub gas_used : Option Number
  pub transaction_fee : Option Number
  pub status : String

pub record ChainData (Number : Type 0) : Type 0 where
  pub total_gas : Number
  pub total_cost_usd : Number
  pub transaction_count : ℕ
  pub successful_transactions : ℕ

pub record Totals (Number : Type 0) : Type 0 where
  pub total_gas_consumed : Number
  pub total_gas_cost_usd : Number
  pub successful : ℕ
  pub failed : ℕ
  pub chain_map : Dict (ChainData Number)

pub record ChainUsage (Number : Type 0) : Type 0 where
  pub chain_id : String
  pub chain_name : String
  pub total_gas : Number
  pub total_cost_usd : Number
  pub transaction_count : ℕ
  pub success_rate : Number

pub record GasUsage (Number : Type 0) : Type 0 where
  pub total_gas_consumed : Number
  pub total_gas_cost_usd : Number
  pub chain_breakdown : List (ChainUsage Number)
  pub transaction_count : ℕ
  pub successful_transactions : ℕ
  pub failed_transactions : ℕ
  pub success_rate : Number

abbrev pub succeeded : {Number : Type 0} → Transaction Number → Bool
succeeded t = str_eq t.status "success"

module _ (ar : Arithmetic) where
  open ar use {Number, literal, add, mul, div}

  abbrev zero_number : Number
  zero_number = literal 0 1

  abbrev pub no_data : ChainData Number
  no_data = record {
    total_gas = zero_number;
    total_cost_usd = zero_number;
    transaction_count = 0;
    successful_transactions = 0;
  }

  abbrev pub count_in_chain : ChainData Number → Transaction Number → ChainData Number
  count_in_chain d t = record {
    total_gas = add d.total_gas (or_else t.gas_used zero_number);
    total_cost_usd = add d.total_cost_usd (or_else t.transaction_fee zero_number);
    transaction_count = suc d.transaction_count;
    successful_transactions =
        if succeeded t then suc d.successful_transactions else d.successful_transactions;
  }

  -- One turn of the loop.
  abbrev pub count : Totals Number → Transaction Number → Totals Number
  count a t = record {
    total_gas_consumed = add a.total_gas_consumed (or_else t.gas_used zero_number);
    total_gas_cost_usd = add a.total_gas_cost_usd (or_else t.transaction_fee zero_number);
    successful = if succeeded t then suc a.successful else a.successful;
    failed = if succeeded t then a.failed else suc a.failed;
    chain_map =
        put t.chain_id (count_in_chain (or_else (get t.chain_id a.chain_map) no_data) t)
          a.chain_map;
  }

  abbrev pub count_all : Totals Number → List (Transaction Number) → Totals Number
  count_all a [] = a
  count_all a (t ∷ ts) = count_all (count a t) ts

  abbrev pub nothing_counted : Totals Number
  nothing_counted = record {
    total_gas_consumed = zero_number;
    total_gas_cost_usd = zero_number;
    successful = 0;
    failed = 0;
    chain_map = [];
  }

  abbrev pub rate : ℕ → ℕ → Number
  rate part whole =
      if ltb 0 whole
      then mul (div (literal part 1) (literal whole 1)) (literal 100 1)
      else zero_number

  -- `chainNameMap.get(chainId) || chainId`
  abbrev name_or_id : Option String → String → String
  name_or_id none id = id
  name_or_id (some n) id = if str_eq n "" then id else n

  abbrev pub chain_usage : (String → Option String) → String × ChainData Number → ChainUsage Number
  chain_usage name_of (id, d) = record {
    chain_id = id;
    chain_name = name_or_id (name_of id) id;
    total_gas = d.total_gas;
    total_cost_usd = d.total_cost_usd;
    transaction_count = d.transaction_count;
    success_rate = rate d.successful_transactions d.transaction_count;
  }

  -- Of the merchant's transactions in the period, and the names of the chains.
  unfoldable pub aggregate_gas_usage_data :
      List (Transaction Number) → (String → Option String) → GasUsage Number
  aggregate_gas_usage_data ts name_of =
      let a = count_all nothing_counted ts in
      record {
        total_gas_consumed = a.total_gas_consumed;
        total_gas_cost_usd = a.total_gas_cost_usd;
        chain_breakdown = map (chain_usage name_of) a.chain_map;
        transaction_count = length ts;
        successful_transactions = a.successful;
        failed_transactions = a.failed;
        success_rate = rate a.successful (length ts);
      }
