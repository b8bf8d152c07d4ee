-- ===== src/Api/Wire/Casts.antt =====
-- api/consumer_api_server.cpp, recvMsg: any 96 bytes are a message, since they are read into the
-- struct as they come.
use wifi_offload_rpi.Prelude.{
  All, All-drop, All-take, Bool-cases, Text, [], ap, arith, drop, drop-drop, if◌then◌else◌, inl,
  inr, length, length-drop, length-take, ltb, refl, sym, take-drop, ℕ, ◌%◌, ◌*◌, ◌++◌, ◌+◌, ◌/◌,
  ◌<◌, ◌^◌, ◌∙◌, ◌∷◌, ◌≡◌, ◌≤◌,
}
use wifi_offload_rpi.Api.Wire.Frame.{
  IsInt32, IsWire, decode, encode, field_at, le_bytes, le_value, msg_size, of_word, take_all,
  to_word,
}
use mathlib.Core.Path.{subst}
use native.Mathlib.Nat.{pow-suc}

abbrev pub IsByte : ℕ → Type 0
IsByte b = b < 256

abbrev pub IsFrame : Text → Type 0
IsFrame bytes = (length bytes ≡ msg_size) × All IsByte bytes

le_bytes-le_value :
    (bytes : Text) → All IsByte bytes → le_bytes (length bytes) (le_value bytes) ≡ bytes
unfolding le_bytes le_value
le_bytes-le_value [] h = refl
le_bytes-le_value (b ∷ bs) h =
    let low : (b + 256 * le_value bs) % 256 ≡ b = omega (arith, h.0) in
    let high : (b + 256 * le_value bs) / 256 ≡ le_value bs = omega (arith, h.0) in
    rw (low, high) (ap (λ xs. b ∷ xs) (le_bytes-le_value bs h.1))

le_value-lt : (bytes : Text) → All IsByte bytes → le_value bytes < 256 ^ length bytes
unfolding le_value
le_value-lt [] h = omega arith
le_value-lt (b ∷ bs) h = omega (arith, h.0, le_value-lt bs h.1, pow-suc 256 (length bs))

to_word-of_word : (n : ℕ) → n < 2 ^ 32 → to_word (of_word n) ≡ n
unfolding to_word of_word
to_word-of_word n h = elim (Bool-cases (ltb n (2 ^ 31))) [
  | inl low ↦ rw (low, if◌then◌else◌) refl
  | inr high ↦ rw (high, if◌then◌else◌) (ground (arith, high))
]

of_word-IsInt32 : (n : ℕ) → n < 2 ^ 32 → IsInt32 (of_word n)
unfolding of_word
of_word-IsInt32 n h = elim (Bool-cases (ltb n (2 ^ 31))) [
  | inl low ↦ rw (low, if◌then◌else◌) (ground (arith, low))
  | inr high ↦ rw (high, if◌then◌else◌) (ground (arith, high))
]

module _ (bytes : Text) (h : IsFrame bytes) where
  length-field_at :
      (offset size : ℕ) → offset + size ≤ msg_size → length (field_at offset size bytes) ≡ size
  unfolding field_at
  length-field_at offset size inside =
      length-take size (drop offset bytes) (omega (arith, length-drop offset bytes, h.0))

  pub field_at-All : (offset size : ℕ) → All IsByte (field_at offset size bytes)
  unfolding field_at
  field_at-All offset size =
      All-take IsByte size (drop offset bytes) (All-drop IsByte offset bytes h.1)

  pub le_bytes-field_at :
      (offset size : ℕ)
      → offset + size ≤ msg_size
      → le_bytes size (le_value (field_at offset size bytes)) ≡ field_at offset size bytes
  le_bytes-field_at offset size inside =
      ap (λ k. le_bytes k (le_value (field_at offset size bytes)))
        (sym (length-field_at offset size inside))
      ∙ le_bytes-le_value (field_at offset size bytes) (field_at-All offset size)

  field_at-lt :
      (offset size : ℕ)
      → offset + size ≤ msg_size
      → le_value (field_at offset size bytes) < 256 ^ size
  field_at-lt offset size inside =
      subst (λ k. le_value (field_at offset size bytes) < 256 ^ k)
        (length-field_at offset size inside)
        (le_value-lt (field_at offset size bytes) (field_at-All offset size))

  pub le_bytes-word_at :
      (offset : ℕ)
      → offset + 4 ≤ msg_size
      → le_bytes 4 (to_word (of_word (le_value (field_at offset 4 bytes))))
        ≡ field_at offset 4 bytes
  le_bytes-word_at offset inside =
      ap (le_bytes 4) (to_word-of_word _ (field_at-lt offset 4 inside))
      ∙ le_bytes-field_at offset 4 inside

  -- A field and what follows it.
  field_at-drop :
      (offset size : ℕ)
      → field_at offset size bytes ++ drop (offset + size) bytes ≡ drop offset bytes
  unfolding field_at
  field_at-drop offset size =
      ap (λ rest. field_at offset size bytes ++ rest) (sym (drop-drop size offset bytes))
      ∙ take-drop size (drop offset bytes)

  -- Any 96 bytes are a message whose fields have their widths.
  pub decode-IsWire : IsWire (decode bytes)
  unfolding decode
  decode-IsWire = record {
    type_fits = field_at-lt 0 4 (omega arith);
    error_fits = field_at-lt 4 4 (omega arith);
    handle_fits = field_at-lt 8 8 (omega arith);
    pid_fits = of_word-IsInt32 _ (field_at-lt 16 4 (omega arith));
    rssi_fits = of_word-IsInt32 _ (field_at-lt 20 4 (omega arith));
    state_fits = field_at-lt 24 4 (omega arith);
    pad_fits = field_at-lt 28 4 (omega arith);
    class_id_fits = length-field_at 32 32 (omega arith);
    iface_fits = length-field_at 64 32 (omega arith);
  }

  field-append :
      (offset size : ℕ) (first rest : Text)
      → first ≡ field_at offset size bytes
      → rest ≡ drop (offset + size) bytes
      → first ++ rest ≡ drop offset bytes
  field-append offset size first rest e r =
      ap (λ x. x ++ rest) e
      ∙ ap (λ x. field_at offset size bytes ++ x) r
      ∙ field_at-drop offset size

  iface_bytes : field_at 64 32 bytes ≡ drop 64 bytes
  unfolding field_at
  iface_bytes = take_all 32 (drop 64 bytes) (omega (arith, length-drop 64 bytes, h.0))

  -- Writing the message that 96 bytes are read as gives these bytes again; with decode-encode, the
  -- messages of these widths and the frames correspond one to one.
  pub encode-decode : encode (decode bytes) ≡ bytes
  unfolding encode decode
  encode-decode = field-append 0 4 _ _ (le_bytes-field_at 0 4 (omega arith)) (
      field-append 4 4 _ _ (le_bytes-field_at 4 4 (omega arith)) (
        field-append 8 8 _ _ (le_bytes-field_at 8 8 (omega arith)) (
          field-append 16 4 _ _ (le_bytes-word_at 16 (omega arith)) (
            field-append 20 4 _ _ (le_bytes-word_at 20 (omega arith)) (
              field-append 24 4 _ _ (le_bytes-field_at 24 4 (omega arith)) (
                field-append 28 4 _ _ (le_bytes-field_at 28 4 (omega arith))
                  (field-append 32 32 _ _ refl iface_bytes)))))))
