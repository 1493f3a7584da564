-- ===== src/Settlement/Batch.antt =====
-- What a settlement that was made went through.
use crypto_gateway_rp.Common.{
  ℕ, ◌≡◌, refl, sym, ap, Bool, true, false, not, Option, none, some, List, ℤ, pos, pos_part,
  is_empty, length, lookup,
}
use crypto_gateway_rp.Numeric.{NumberOps}
use crypto_gateway_rp.Fee.{Result, ok, thrown, SequentialSplit, split_fees_sequential_from_gross}
use crypto_gateway_rp.Amount.{net_strictly_above_min_settlement_human}
use crypto_gateway_rp.Store.{Transaction, Merchant, Store}
use crypto_gateway_rp.Balance.{Token, Engine}
use crypto_gateway_rp.Balance.Ledger.{token_Eq, compute_merchant_balances}
use crypto_gateway_rp.Settlement.{sum_tx_amounts, load_unsettled_success_transactions}
use crypto_gateway_rp.Settlement.Execute.{
  SettlementError, Attempt, done, refused, ◌>>=◌, ◌>>◌, or_refuse, refuse_unless, of_split, Request,
  Settled, active_merchant, has_proof, token_of_asset, covers, settlement_row, ids_of,
  write_settlement, settle_rows, execute_batch_settlement,
}

done_injective : {A : Type 0} {a b : A} → done a ≡ done b → a ≡ b
done_injective {A} {a} {b} h = ap (content a) h
  where
    content : A → Attempt A → A
    content d (done x) = x
    content d (refused e) = d

step_done :
    {A B : Type 0} (m : Attempt A) (f : A → Attempt B) {b : B}
    → (m >>= f) ≡ done b
    → (a : A) × (m ≡ done a) × (f a ≡ done b)
step_done (done a) f h = (a, refl, h)
step_done (refused e) f h = cc h

or_refuse_done :
    {A : Type 0} (o : Option A) (e : SettlementError) {a : A} → or_refuse o e ≡ done a → o ≡ some a
or_refuse_done none e h = cc h
or_refuse_done (some x) e h = ap some (done_injective h)

step_checked :
    {B : Type 0} (c : Bool) (e : SettlementError) (m : Attempt B) {b : B}
    → (refuse_unless c e >> m) ≡ done b
    → (c ≡ true) × (m ≡ done b)
step_checked true e m h = (refl, h)
step_checked false e m h = cc h

of_split_done : (r : Result SequentialSplit) {s : SequentialSplit} → of_split r ≡ done s → r ≡ ok s
of_split_done (ok x) h = ap ok (done_injective h)
of_split_done (thrown e) h = cc h

module _ (js : NumberOps) (sql : Engine) where
  open js use {of_text}

  -- The values that the steps found.
  pub record Steps (now : ℕ) (store : Store) (req : Request) (merchant : Merchant)
      (rows : List Transaction) (out : Settled) : Type 0 where
    pub gross : ℤ
    pub fees : SequentialSplit
    pub balances : List (Token × ℤ)
    pub has_rows : not (is_empty rows) ≡ true
    pub sums : sum_tx_amounts (pos 0) rows ≡ some gross
    pub splits :
        split_fees_sequential_from_gross js gross
          (of_text merchant.mdr_percent)
          (of_text merchant.settlement_rate_percent)
        ≡ ok fees
    pub computes :
        compute_merchant_balances sql store req.asset.merchant_id req.asset.environment
        ≡ some balances
    pub covered : covers (lookup (token_of_asset req.asset) balances) fees.net_amount ≡ true
    pub made : out ≡ record {
      row = settlement_row store now req merchant (pos_part gross) fees (length rows);
      store =
          write_settlement store
            (settlement_row store now req merchant (pos_part gross) fees (length rows))
            (ids_of rows);
    }

  pub settle_rows-Steps :
      (now : ℕ) (store : Store) (req : Request) (merchant : Merchant) (rows : List Transaction)
      (out : Settled)
      → settle_rows js sql now store req merchant rows ≡ done out
      → Steps now store req merchant rows out
  unfolding settle_rows
  settle_rows-Steps now store req merchant rows out h =
      let (nonempty, h1) = step_checked (not (is_empty rows)) _ _ h in
      let (gross, sum, h2) = step_done (or_refuse (sum_tx_amounts (pos 0) rows) _) _ h1 in
      let (fees, split, h3) =
        step_done (of_split (split_fees_sequential_from_gross js gross _ _)) _ h2 in
      let (above, h4) =
        step_checked
          (net_strictly_above_min_settlement_human fees.net_amount merchant.min_settlement_amount
            req.asset.token_decimals)
          SettlementError.below_min_settlement_amount _ h3 in
      let (proof, h5) =
        step_checked (has_proof req.proof_file_name) SettlementError.proof_required _ h4 in
      let (balances, found, h6) =
        step_done
          (or_refuse
            (compute_merchant_balances sql store req.asset.merchant_id req.asset.environment)
            SettlementError.unexpected)
          _ h5 in
      let (enough, h7) =
        step_checked (covers (lookup (token_of_asset req.asset) balances) fees.net_amount)
          SettlementError.insufficient_balance _ h6 in
      record {
        gross = gross;
        fees = fees;
        balances = balances;
        has_rows = nonempty;
        sums = or_refuse_done _ _ sum;
        splits = of_split_done _ split;
        computes = or_refuse_done _ _ found;
        covered = enough;
        made = sym (done_injective h7);
      }

  -- A settlement that is made had an active merchant, and settled the rows that were loaded.
  pub execute_batch_settlement-Steps :
      (now : ℕ) (store : Store) (req : Request) (out : Settled)
      → execute_batch_settlement js sql now store req ≡ done out
      → (merchant : Merchant) × (active_merchant store req.asset.merchant_id ≡ some merchant)
        × Steps now store req merchant
            (load_unsettled_success_transactions store req.asset now
              merchant.settlement_period_days)
            out
  unfolding execute_batch_settlement
  execute_batch_settlement-Steps now store req out h =
      let (merchant, found, rest) =
        step_done (or_refuse (active_merchant store req.asset.merchant_id) _) _ h in
      (merchant, or_refuse_done _ _ found, settle_rows-Steps now store req merchant _ out rest)
