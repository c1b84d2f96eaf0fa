-- ===== src/Tests/Rows.antt =====
-- Examples of src/domain/validation.cpp.
use fin_core_streaming_syste.Prelude.{◌≡◌, ◌↔◌, refl, none, some, arith, codes, ok}
use fin_core_streaming_syste.Prelude.Int.{pos, negsuc}
use fin_core_streaming_syste.Domain.MarketData.{Quote, Tick, OrderBookSnapshot, TradeSide}
use fin_core_streaming_syste.Domain.Validation.{
  validate_quote, validate_tick, validate_snapshot, validate_symbol_and_source, is_symbol,
  is_upper_identifier, is_source,
}
use fin_core_streaming_syste.Domain.Validation.Schema.{
  IsQuoteRow, IsSnapshotRow, MeetsTradeIdCk, blanks, validate_quote-row, validate_snapshot-row,
  validate_tick-blanks,
}

abbrev quote : Quote
quote = record {
  symbol = codes "AAPL";
  source = codes "ALPHA_VANTAGE";
  timestamp = pos 1700000000000000000;
  price = pos 18950000000;
  opening = pos 18900000000;
  high = pos 19000000000;
  low = pos 18800000000;
  volume = pos 5000000000000000;
  change_pct = none;
}

validate_quote-row_example : (validate_quote quote ≡ ok tt) ↔ IsQuoteRow quote
validate_quote-row_example = validate_quote-row quote (record {
  price = omega arith;
  opening = omega arith;
  high = omega arith;
  low = omega arith;
  volume = omega arith;
})

abbrev book_row : OrderBookSnapshot
book_row = record {
  symbol = codes "AAPL";
  source = codes "ALPHA_VANTAGE";
  snapshot_time = pos 1700000000000000000;
  best_bid = pos 18949000000;
  best_ask = pos 18951000000;
  imbalance = negsuc 24999999;
  total_bid_volume = pos 300000000000;
  total_ask_volume = pos 500000000000;
}

validate_snapshot-row_example : (validate_snapshot book_row ≡ ok tt) ↔ IsSnapshotRow book_row
validate_snapshot-row_example = validate_snapshot-row book_row (record {
  best_bid = omega arith;
  best_ask = omega arith;
  imbalance = omega arith;
  total_bid_volume = omega arith;
  total_ask_volume = omega arith;
})

abbrev tick : Tick
tick = record {
  symbol = codes "AAPL";
  source = codes "ALPHA_VANTAGE";
  timestamp = pos 1700000000000000000;
  trade_id = some (codes "T1");
  price = pos 18950000000;
  size = pos 100000000;
  side = TradeSide.bid;
}

tick_is_accepted : validate_tick tick ≡ ok tt
unfolding validate_tick validate_symbol_and_source is_symbol is_upper_identifier is_source
tick_is_accepted = refl

validate_tick-blanks_example :
    let blank = record tick { trade_id = some (blanks 3) } in
    (validate_tick blank ≡ ok tt) × ¬ MeetsTradeIdCk blank.trade_id
validate_tick-blanks_example =
    validate_tick-blanks tick 3 (omega arith) (omega arith) tick_is_accepted
