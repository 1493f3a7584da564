-- ===== src/Examples/Scanner.antt =====
-- Concrete runs of the deposit scanner's ticks.
use crypto_gateway_rp.Common.{ℕ, refl, true, Option, none, some, [], ◌∷◌, arith}
use crypto_gateway_rp.Text.{codes}
use crypto_gateway_rp.Store.{Chain, ScannerState, Store}
use crypto_gateway_rp.Scanner.{Tick, advance_scanner}
use crypto_gateway_rp.Scanner.Position.{IsAt, advance_scanner-IsAt}
use crypto_gateway_rp.Scanner.Ticks.{scan_ticks, Visits, scan_ticks-Visits}
use crypto_gateway_rp.Examples.{database}

abbrev pub eth_state : ScannerState
eth_state = record {
  currency = codes "USDT";
  network = codes "ERC20";
  chain = Chain.eth;
  last_block = 7;
  deleted_at = none;
}

abbrev pub scanned_database : Store
scanned_database = record database { scanner_states = eth_state ∷ [] }

abbrev tick : Option ℕ → Tick
tick tip = record {
  has_explorer_pool = true;
  has_wallets = true;
  tip = tip;
  max_blocks_per_tick = 3;
}

advance_scanner-IsAt_example : IsAt Chain.eth 10 (advance_scanner Chain.eth 10 scanned_database)
advance_scanner-IsAt_example =
    advance_scanner-IsAt Chain.eth 10 scanned_database refl refl (omega arith)

scan_ticks-Visits_example : Visits Chain.eth 10 15 (
    scan_ticks Chain.eth
      (tick (some 14) ∷ tick none ∷ tick (some 15) ∷ [])
      (advance_scanner Chain.eth 10 scanned_database))
scan_ticks-Visits_example =
    scan_ticks-Visits Chain.eth 10 15 (tick (some 14) ∷ tick none ∷ tick (some 15) ∷ [])
      (advance_scanner Chain.eth 10 scanned_database) (omega arith)
      (omega arith, (tt, (omega arith, tt)))
      (advance_scanner-IsAt Chain.eth 10 scanned_database refl refl (omega arith))
