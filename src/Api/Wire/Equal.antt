-- ===== src/Api/Wire/Equal.antt =====
-- struct ApiMsg of api/consumer_api_server.hpp against the texts of 96 bytes: the layout of its
-- members, and which messages there are.
use wifi_offload_rpi.Prelude.{
  All, List, Text, [], arith, drop, map, negsuc, pos, refl, suc, take, zero, ℕ, ℤ, ◌*◌, ◌++◌, ◌+◌,
  ◌-◌, ◌/◌, ◌∷◌, ◌≡◌,
}
use wifi_offload_rpi.Api.Wire.Casts.{
  IsByte, IsFrame, decode-IsWire, encode-decode, field_at-All, le_bytes-field_at, le_bytes-word_at,
}
use wifi_offload_rpi.Api.Wire.Frame.{
  IsInt32, IsWire, decode, decode-encode, encode, field_at, le_bytes, length-encode, msg_size,
  to_word,
}
use wifi_offload_rpi.Api.Wire.{ApiMsg}
use native.Mathlib.Bridge.{le_prop}
use native.Mathlib.Nat.{ℕ_set}
use std.Equiv.{IsEquiv, Iso, iso_to_equiv}
use std.HLevel.{Σ_prop_path}

-- The widths of the fields, and bytes in the arrays.
abbrev pub IsMessage : ApiMsg → Type 0
IsMessage msg = IsWire msg × All IsByte msg.class_id × All IsByte msg.iface

abbrev pub Message : Type 0
Message = (msg : ApiMsg) × IsMessage msg

abbrev pub Frame : Type 0
Frame = (bytes : Text) × IsFrame bytes

-- Shut, so that the lemmas below find their texts.
IsBytes : Text → Type 0
IsBytes = All IsByte

IsBytes-append : (xs ys : Text) → IsBytes xs → IsBytes ys → IsBytes (xs ++ ys)
unfolding IsBytes
IsBytes-append [] ys h k = k
IsBytes-append (x ∷ xs) ys h k = (h.0, IsBytes-append xs ys h.1 k)

le_bytes-IsBytes : (k n : ℕ) → IsBytes (le_bytes k n)
unfolding le_bytes IsBytes
le_bytes-IsBytes zero n = tt
le_bytes-IsBytes (suc k) n = (omega arith, le_bytes-IsBytes k (n / 256))

IsBytes-le_bytes : (k n : ℕ) (rest : Text) → IsBytes rest → IsBytes (le_bytes k n ++ rest)
IsBytes-le_bytes k n rest h = IsBytes-append (le_bytes k n) rest (le_bytes-IsBytes k n) h

encode-IsBytes : (msg : ApiMsg) → IsBytes msg.class_id → IsBytes msg.iface → IsBytes (encode msg)
unfolding encode
encode-IsBytes msg class_id iface = IsBytes-le_bytes 4 _ _ (
    IsBytes-le_bytes 4 _ _ (
      IsBytes-le_bytes 8 _ _ (
        IsBytes-le_bytes 4 _ _ (
          IsBytes-le_bytes 4 _ _ (
            IsBytes-le_bytes 4 _ _ (IsBytes-le_bytes 4 _ _ (IsBytes-append _ _ class_id iface)))))))

pub encode-IsFrame : (msg : ApiMsg) → IsMessage msg → IsFrame (encode msg)
unfolding IsBytes
encode-IsFrame msg (wire, class_id, iface) =
    (length-encode msg wire, encode-IsBytes msg class_id iface)

pub decode-IsMessage : (bytes : Text) → IsFrame bytes → IsMessage (decode bytes)
unfolding decode
decode-IsMessage bytes h =
    (decode-IsWire bytes h, field_at-All bytes h 32 32, field_at-All bytes h 64 32)

All-prop : (xs : Text) → IsProp (All IsByte xs)
All-prop [] = hlevel
All-prop (x ∷ xs) = hlevel (le_prop, All-prop xs)

IsInt32-prop : (z : ℤ) → IsProp (IsInt32 z)
IsInt32-prop (pos n) = hlevel le_prop
IsInt32-prop (negsuc n) = hlevel le_prop

IsWire-prop : (msg : ApiMsg) → IsProp (IsWire msg)
IsWire-prop msg = hlevel (le_prop, ℕ_set, IsInt32-prop)

IsFrame-prop : (bytes : Text) → IsProp (IsFrame bytes)
IsFrame-prop bytes = hlevel (ℕ_set, All-prop)

IsMessage-prop : (msg : ApiMsg) → IsProp (IsMessage msg)
IsMessage-prop msg = hlevel (All-prop, IsWire-prop)

abbrev pub of_frame : Frame → Message
of_frame (bytes, f) = (decode bytes, decode-IsMessage bytes f)

abbrev to_frame : Message → Frame
to_frame (msg, m) = (encode msg, encode-IsFrame msg m)

frames_messages : Iso Frame Message
frames_messages = record {
  fun = of_frame;
  inv = to_frame;
  rinv = λ (msg, m). Σ_prop_path IsMessage-prop (decode-encode msg m.0);
  linv = λ (bytes, f). Σ_prop_path IsFrame-prop (encode-decode bytes f);
}

-- The size and the alignment of each member of ApiMsg, in the order of their declarations.
abbrev declared : List (ℕ × ℕ)
declared = (4, 4) ∷ (4, 4) ∷ (8, 8) ∷ (4, 4) ∷ (4, 4) ∷ (4, 4) ∷ (4, 4) ∷ (32, 1) ∷ (32, 1) ∷ []

abbrev up_to : ℕ → ℕ → ℕ
up_to align n = (n + (align - 1)) / align * align

-- The layout of a struct: each member stands at the first offset after the one before that its
-- alignment allows.
abbrev placed : ℕ → List (ℕ × ℕ) → List (ℕ × ℕ)
placed at [] = []
placed at ((size, align) ∷ rest) = (up_to align at, size) ∷ placed (up_to align at + size) rest

abbrev end_of : ℕ → List (ℕ × ℕ) → ℕ
end_of at [] = at
end_of at ((size, align) ∷ rest) = end_of (up_to align at + size) rest

-- The bytes of the members of a message, in the order of their declarations.
abbrev members : ApiMsg → List Text
members msg =
    le_bytes 4 msg.type
    ∷ le_bytes 4 msg.error
    ∷ le_bytes 8 msg.handle
    ∷ le_bytes 4 (to_word msg.pid)
    ∷ le_bytes 4 (to_word msg.rssi)
    ∷ le_bytes 4 msg.state
    ∷ le_bytes 4 msg.pad
    ∷ msg.class_id
    ∷ msg.iface
    ∷ []

abbrev parts : List (ℕ × ℕ) → Text → List Text
parts fields bytes = map (λ f. take f.1 (drop f.0 bytes)) fields

members-decode :
    (bytes : Text) → IsFrame bytes → members (decode bytes) ≡ parts (placed 0 declared) bytes
unfolding decode field_at
members-decode bytes h =
    rw
      (
        le_bytes-field_at bytes h 0 4 (omega arith),
        le_bytes-field_at bytes h 4 4 (omega arith),
        le_bytes-field_at bytes h 8 8 (omega arith),
        le_bytes-word_at bytes h 16 (omega arith),
        le_bytes-word_at bytes h 20 (omega arith),
        le_bytes-field_at bytes h 24 4 (omega arith),
        le_bytes-field_at bytes h 28 4 (omega arith),
      )
      refl

-- The 96 bytes are the struct: its members, by their declared sizes and alignments, end at byte 96
-- without padding behind them; every member of the message that 96 bytes are read as has exactly the
-- bytes at its offset, the lowest first in numbers; and this reading is an equivalence between the
-- texts of 96 bytes and the messages whose members have their widths.
pub of_frame-IsLaidOut :
    (up_to 8 (end_of 0 declared) ≡ msg_size)
    × ((frame : Frame) → members (of_frame frame).0 ≡ parts (placed 0 declared) frame.0)
    × IsEquiv of_frame
unfolding frames_messages
of_frame-IsLaidOut = (refl, λ (bytes, f). members-decode bytes f, (iso_to_equiv frames_messages).1)
