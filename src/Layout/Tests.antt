-- ===== src/Layout/Tests.antt =====
-- Runs of layout.rs, and its theorems at inputs.
use s4_logs.Prelude.{◌≡◌, refl, true, none, some, arith}
use s4_logs.Prelude.Text.{bytes}
use s4_logs.Prelude.Utf8.{is_utf8}
use s4_logs.Layout.{
  ChunkLocation, sanitize_log_group, unescape, unsanitize_log_group, upper_hex, norm_prefix,
  trim_matches, tail, data_key, parse_data_key,
}
use s4_logs.Layout.Escape.{unsanitize-sanitize}
use s4_logs.Layout.Keys.{IsLocation, parse-data_key}

sanitize_lambda : sanitize_log_group (bytes "/aws/lambda/foo") ≡ bytes "%2Faws%2Flambda%2Ffoo"
unfolding sanitize_log_group upper_hex
sanitize_lambda = refl

unsanitize_cut : unsanitize_log_group (bytes "ab%2") ≡ none
unfolding unsanitize_log_group unescape
unsanitize_cut = refl

norm_slashes : norm_prefix (bytes "//a/b/") ≡ bytes "a/b/"
unfolding norm_prefix trim_matches
norm_slashes = refl

abbrev payments : ChunkLocation
payments = record {
  account = bytes "123456789012";
  log_group = bytes "/aws/payments";
  date = bytes "2024-06-05";
  name = bytes "1717545600000-000001";
}

payments_utf8 : is_utf8 payments.log_group ≡ true
unfolding is_utf8
payments_utf8 = refl

payments-IsLocation : IsLocation payments
payments-IsLocation = record {
  account_free = omega arith;
  date_free = omega arith;
  name_free = omega arith;
  group_bytes = omega arith;
  group_utf8 = payments_utf8;
}

data_key-payments :
    data_key payments (bytes "logs")
    ≡ bytes
        "logs/data/account=123456789012/loggroup=%2Faws%2Fpayments/dt=2024-06-05/1717545600000-000001.jsonl.zst"
unfolding data_key tail norm_prefix trim_matches sanitize_log_group upper_hex
data_key-payments = refl

parse-data_key_example :
    parse_data_key (bytes "logs") (data_key payments (bytes "logs")) ≡ some payments
parse-data_key_example = parse-data_key (bytes "logs") payments payments-IsLocation

unsanitize-sanitize_example :
    unsanitize_log_group (sanitize_log_group payments.log_group) ≡ some payments.log_group
unsanitize-sanitize_example = unsanitize-sanitize payments.log_group (omega arith) payments_utf8
