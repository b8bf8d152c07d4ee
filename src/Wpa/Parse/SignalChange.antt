-- ===== src/Wpa/Parse/SignalChange.antt =====
-- parseEvent on the signal reports of wpa_supplicant, as the header of wpa/wpa_monitor.cpp gives
-- them: "<N>CTRL-EVENT-SIGNAL-CHANGE rssi=X avg_rssi=Y".
use mathlib.Core.Option
use mathlib.Core.List.{append_assoc}
use wifi_offload_rpi.Prelude.{
  ℕ, suc, ◌+◌, ◌-◌, ◌<◌, ◌≡◌, refl, sym, ap, ◌∙◌, true, false, none, some, [], ◌∷◌, ◌++◌, ℤ, pos,
  Text, codes, All, any, length, length-append, take, drop, leb, arith, starts_with, find, ◌==◌,
}
use wifi_offload_rpi.Types.{signal_change}
use wifi_offload_rpi.Wpa.Parse.{
  strip_priority, from_chars, parse_int_field, parse_event, field_at, value_text,
}
use wifi_offload_rpi.Wpa.Parse.Decimal.{
  IsFree, IsInt32, print_int, print_int-Free, print_int-nonempty, from_chars-print_int,
}

drop-append : (xs ys : Text) → drop (length xs) (xs ++ ys) ≡ ys
drop-append [] ys = refl
drop-append (x ∷ xs) ys = drop-append xs ys

drop-append_suc : (xs : Text) (y : ℕ) (ys : Text) → drop (suc (length xs)) (xs ++ (y ∷ ys)) ≡ ys
drop-append_suc [] y ys = refl
drop-append_suc (x ∷ xs) y ys = drop-append_suc xs y ys

take-append : (xs ys : Text) → take (length xs) (xs ++ ys) ≡ xs
take-append [] ys = refl
take-append (x ∷ xs) ys = ap (◌∷◌ x) (take-append xs ys)

-- A search passes over bytes that do not begin its key.
find-append :
    (k : ℕ) (ks xs rest : Text)
    → All (IsFree k) xs
    → find (k ∷ ks) (xs ++ rest) ≡ Option.map (λ p. p + length xs) (find (k ∷ ks) rest)
find-append k ks [] rest h = ground arith
find-append k ks (x ∷ xs) rest h = ground (arith, find-append k ks xs rest h.1)

skip : (pre key rest : Text) → drop (length pre + length key) (pre ++ (key ++ rest)) ≡ rest
skip pre key rest =
    rw (← length-append pre key, ← append_assoc pre key rest) (drop-append (pre ++ key) rest)

-- The value of a field that is found at `p` begins where its key ends.
field_at-some :
    (msg rest : Text) (size p : ℕ)
    → drop (p + size) msg ≡ rest
    → p + size < length msg
    → field_at msg size (some p)
      ≡ from_chars
          (value_text msg (p + size) (Option.map (λ q. q + (p + size)) (find (b' ' ∷ []) rest)))
          (pos 0)
unfolding field_at
field_at-some msg rest size p d l = rw (inside, d) refl
  where
    inside : leb (length msg) (p + size) ≡ false
    inside = ground arith

value_text-lem :
    (msg val post : Text) (start : ℕ)
    → drop start msg ≡ val ++ (b' ' ∷ post)
    → value_text msg start (some (0 + length val + start)) ≡ val
unfolding value_text
value_text-lem msg val post start d = rw (d, exact) (take-append val (b' ' ∷ post))
  where
    exact : 0 + length val + start - start ≡ length val
    exact = omega arith

within :
    (pre key rest : Text)
    → 0 < length rest
    → length pre + length key < length (pre ++ (key ++ rest))
within pre key rest h = omega (arith, length-append pre (key ++ rest), length-append key rest)

-- A field that is found is read up to the next space, or to the end.
parse_int_field-space :
    (pre key val post : Text)
    → find key (pre ++ (key ++ (val ++ (b' ' ∷ post)))) ≡ some (length pre)
    → All (IsFree b' ') val
    → parse_int_field (pre ++ (key ++ (val ++ (b' ' ∷ post)))) key ≡ from_chars val (pos 0)
unfolding parse_int_field
parse_int_field-space pre key val post f s =
    rw
      (
        f,
        field_at-some _ _ (length key) (length pre) rest_lem long,
        find-append b' ' [] val (b' ' ∷ post) s,
      )
      (ap (λ t. from_chars t (pos 0))
        (value_text-lem _ val post (length pre + length key) rest_lem))
  where
    rest_lem :
        drop (length pre + length key) (pre ++ (key ++ (val ++ (b' ' ∷ post))))
        ≡ val ++ (b' ' ∷ post)
    rest_lem = skip pre key (val ++ (b' ' ∷ post))

    long : length pre + length key < length (pre ++ (key ++ (val ++ (b' ' ∷ post))))
    long = within pre key _ (omega (arith, length-append val (b' ' ∷ post)))

find-none : (k : ℕ) (xs : Text) → All (IsFree k) xs → find (k ∷ []) xs ≡ none
find-none k [] h = refl
find-none k (x ∷ xs) h = ground (arith, find-none k xs h.1)

parse_int_field-end :
    (pre key val : Text)
    → find key (pre ++ (key ++ val)) ≡ some (length pre)
    → All (IsFree b' ') val
    → 0 < length val
    → parse_int_field (pre ++ (key ++ val)) key ≡ from_chars val (pos 0)
unfolding parse_int_field value_text
parse_int_field-end pre key val f s v =
    rw
      (
        f,
        field_at-some _ _ (length key) (length pre) (skip pre key val) (within pre key val v),
        find-none b' ' val s,
      )
      (ap (λ t. from_chars t (pos 0)) (skip pre key val))

signal_body : ℤ → ℤ → Text
signal_body rssi avg =
    codes "CTRL-EVENT-SIGNAL-CHANGE rssi="
    ++ (print_int rssi ++ (codes " avg_rssi=" ++ print_int avg))

signal_body-rssi :
    (rssi avg : ℤ) → IsInt32 rssi → parse_int_field (signal_body rssi avg) (codes "rssi=") ≡ rssi
unfolding signal_body
signal_body-rssi rssi avg h =
    parse_int_field-space (codes "CTRL-EVENT-SIGNAL-CHANGE ") (codes "rssi=") (print_int rssi)
      (codes "avg_rssi=" ++ print_int avg) refl (print_int-Free b' ' rssi refl refl)
    ∙ from_chars-print_int rssi (pos 0) h

starts_with-append : (key val : Text) → starts_with key (key ++ val) ≡ true
starts_with-append [] val = refl
starts_with-append (k ∷ ks) val = ground (arith, starts_with-append ks val)

find-first :
    (k : ℕ) (ks pre val : Text)
    → All (IsFree k) pre
    → find (k ∷ ks) (pre ++ ((k ∷ ks) ++ val)) ≡ some (length pre)
find-first k ks pre val h =
    rw (find-append k ks pre ((k ∷ ks) ++ val) h) (ground (arith, starts_with-append (k ∷ ks) val))

Free-append :
    (k : ℕ) (xs ys : Text) → All (IsFree k) xs → All (IsFree k) ys → All (IsFree k) (xs ++ ys)
Free-append k [] ys h g = g
Free-append k (x ∷ xs) ys h g = (h.0, Free-append k xs ys h.1 g)

Free-any : (k : ℕ) (xs : Text) → any (λ c. c == k) xs ≡ false → All (IsFree k) xs
Free-any k [] h = tt
Free-any k (x ∷ xs) h = (ground arith, Free-any k xs (ground arith))

-- The text before "avg_rssi=".
before_avg : ℤ → Text
before_avg rssi = codes "CTRL-EVENT-SIGNAL-CHANGE rssi=" ++ (print_int rssi ++ codes " ")

before_avg-Free : (rssi : ℤ) → All (IsFree b'a') (before_avg rssi)
unfolding before_avg
before_avg-Free rssi =
    Free-append b'a' (codes "CTRL-EVENT-SIGNAL-CHANGE rssi=") _
      (Free-any b'a' (codes "CTRL-EVENT-SIGNAL-CHANGE rssi=") refl)
      (Free-append b'a' (print_int rssi) _ (print_int-Free b'a' rssi refl refl) (refl, tt))

signal_body-before_avg :
    (rssi avg : ℤ) → signal_body rssi avg ≡ before_avg rssi ++ (codes "avg_rssi=" ++ print_int avg)
unfolding signal_body before_avg
signal_body-before_avg rssi avg =
    ap (◌++◌ (codes "CTRL-EVENT-SIGNAL-CHANGE rssi="))
      (sym (append_assoc (print_int rssi) (codes " ") _))

signal_body-avg :
    (rssi avg : ℤ) → IsInt32 avg → parse_int_field (signal_body rssi avg) (codes "avg_rssi=") ≡ avg
signal_body-avg rssi avg h = rw (signal_body-before_avg rssi avg) (
    parse_int_field-end (before_avg rssi) (codes "avg_rssi=") (print_int avg)
      (find-first b'a' (codes "vg_rssi=") (before_avg rssi) (print_int avg) (before_avg-Free rssi))
      (print_int-Free b' ' avg refl refl) (print_int-nonempty avg)
    ∙ from_chars-print_int avg (pos 0) h)

-- A report as wpa_supplicant sends it, behind its priority.
unfoldable pub signal_report : Text → ℤ → ℤ → Text
unfolding signal_body
signal_report prio rssi avg = b'<' ∷ (prio ++ (b'>' ∷ signal_body rssi avg))

strip_priority-prio :
    (prio body : Text)
    → All (IsFree b'>') prio
    → strip_priority (b'<' ∷ (prio ++ (b'>' ∷ body))) ≡ body
unfolding strip_priority
strip_priority-prio prio body h =
    rw (find-append b'>' [] prio (b'>' ∷ body) h) (rw exact (drop-append_suc prio b'>' body))
  where
    exact : suc (0 + length prio) + 1 ≡ suc (suc (length prio))
    exact = omega arith

-- The round trip: a signal report whose priority holds no '>' and whose two values fit an int is
-- parsed to a SignalChange event with these values, the raw text and the monitor's interface.
pub parse_event-signal_report :
    (prio iface : Text) (rssi avg : ℤ)
    → All (IsFree b'>') prio
    → IsInt32 rssi
    → IsInt32 avg
    → parse_event (signal_report prio rssi avg) iface ≡ record {
      type = signal_change;
      raw = signal_report prio rssi avg;
      iface = iface;
      rssi = rssi;
      avg_rssi = avg;
    }
unfolding parse_event signal_report
parse_event-signal_report prio iface rssi avg p r a = rw (
  strip_priority-prio prio (signal_body rssi avg) p,
  signal_body-rssi rssi avg r,
  signal_body-avg rssi avg a,
)
