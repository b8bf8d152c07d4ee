-- ===== src/Config/Field.antt =====
-- config/config_loader.cpp, parseHexField, on the form in which the daemon itself writes a number.
use wifi_offload_rpi.Prelude.{Text, arith, ok, true, ℕ, ◌<◌, ◌^◌, ◌≡◌, ◌≤◌}
use wifi_offload_rpi.Config.{Json, narrow, parse_hex_field}
use wifi_offload_rpi.Config.Hex.{format_hex}
use wifi_offload_rpi.Config.Hex.RoundTrip.{stoul-format_hex}

module _ (json : Json) (word_bits : ℕ) where
  open json use {Value, contains, at, is_string, get_string}

  -- A field that is a string of "0x" and the eight digits in lower case of a uint32_t is taken as
  -- that number, whether unsigned long has 32 bits or more.
  pub parse_hex_field-format_hex :
      (j : Value) (key : Text) (n : ℕ)
      → 32 ≤ word_bits
      → n < 2 ^ 32
      → contains j key ≡ true
      → is_string (at j key) ≡ true
      → get_string (at j key) ≡ format_hex n
      → parse_hex_field json word_bits j key ≡ ok n
  unfolding parse_hex_field narrow
  parse_hex_field-format_hex j key n w h there string same =
      let read = stoul-format_hex word_bits n w h in rw (there, string, same, read) (ground arith)
