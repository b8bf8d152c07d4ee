-- ===== src/Wpa/Parse.antt =====
-- wpa/wpa_monitor.cpp, event parsing: stripPriority, parseIntField and parseEvent, with the event
-- names of wpa/wpa_ctrl.h. A position that std::string_view::find does not find is `none`.
pub mod Decimal
pub mod SignalChange
use mathlib.Core.Option
use wifi_offload_rpi.Prelude.{
  ℕ, suc, ◌+◌, ◌-◌, ◌≤◌, Bool, true, false, ◌&&◌, Option, none, some, List, [], ◌∷◌, ℤ, pos, Text,
  codes, length, is_empty, take, drop, leb, ltb, ◌==◌, if◌then◌else◌, starts_with, find, find_from,
  digits_of, value_from, negated,
}
use wifi_offload_rpi.Types.{
  WpaEvent, WpaEventType, connected, disconnected, signal_change, terminating, other,
}

abbrev pub wpa_event_connected : Text
wpa_event_connected = codes "CTRL-EVENT-CONNECTED "

abbrev pub wpa_event_disconnected : Text
wpa_event_disconnected = codes "CTRL-EVENT-DISCONNECTED "

abbrev pub wpa_event_signal_change : Text
wpa_event_signal_change = codes "CTRL-EVENT-SIGNAL-CHANGE "

abbrev pub wpa_event_terminating : Text
wpa_event_terminating = codes "CTRL-EVENT-TERMINATING "

-- raw.substr(close + 1)
after_close : Text → Option ℕ → Text
after_close raw none = raw
after_close raw (some close) = drop (close + 1) raw

unfoldable pub strip_priority : Text → Text
unfolding after_close
strip_priority [] = []
strip_priority (c ∷ cs) =
    if c == b'<' then after_close (c ∷ cs) (find (b'>' ∷ []) (c ∷ cs)) else c ∷ cs

-- std::from_chars for an `int` of 32 bits: a value out of range, or no digit at all, leaves what
-- the variable held. Digits end at the first other byte; only a minus sign may stand before them.
from_digits : Text → ℤ → ℤ
from_digits ds held =
    if is_empty ds
    then held
    else if ltb (value_from 0 ds) 2147483648
    then pos (value_from 0 ds)
    else held

from_minus : Text → ℤ → ℤ
from_minus ds held =
    if is_empty ds
    then held
    else if leb (value_from 0 ds) 2147483648
    then negated (value_from 0 ds)
    else held

unfoldable pub from_chars : Text → ℤ → ℤ
unfolding from_digits from_minus
from_chars [] held = held
from_chars (c ∷ cs) held =
    if c == b'-' then from_minus (digits_of cs) held else from_digits (digits_of (c ∷ cs)) held

-- The text from `start` to the next space, or to the end.
unfoldable pub value_text : Text → ℕ → Option ℕ → Text
value_text msg start none = drop start msg
value_text msg start (some end) = take (end - start) (drop start msg)

unfoldable pub field_at : Text → ℕ → Option ℕ → ℤ
unfolding value_text from_chars
field_at msg key_size none = pos 0
field_at msg key_size (some p) =
    let start = p + key_size in
    if leb (length msg) start
    then pos 0
    else from_chars (value_text msg start (find_from (b' ' ∷ []) msg start)) (pos 0)

unfoldable pub parse_int_field : Text → Text → ℤ
unfolding field_at
parse_int_field msg key = field_at msg (length key) (find key msg)

-- A new WpaEvent with the given type, and no RSSI.
abbrev plain : WpaEventType → Text → Text → WpaEvent
plain type raw iface = record {
  type = type;
  raw = raw;
  iface = iface;
  rssi = pos 0;
  avg_rssi = pos 0;
}

unfoldable pub classify : Text → Text → Text → WpaEvent
unfolding parse_int_field
classify msg raw iface =
    if starts_with wpa_event_connected msg
    then plain connected raw iface
    else if starts_with wpa_event_disconnected msg
    then plain disconnected raw iface
    else if starts_with wpa_event_signal_change msg
    then (record {
      type = signal_change;
      raw = raw;
      iface = iface;
      rssi = parse_int_field msg (codes "rssi=");
      avg_rssi = parse_int_field msg (codes "avg_rssi=");
    })
    else if starts_with wpa_event_terminating msg
    then plain terminating raw iface
    else plain other raw iface

unfoldable pub parse_event : Text → Text → WpaEvent
unfolding strip_priority classify
parse_event raw iface = classify (strip_priority raw) raw iface
