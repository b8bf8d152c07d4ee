-- ===== src/Api/Server/Registry.antt =====
-- The registry of api/consumer_api_server.cpp as a list: handles ascend, descriptors differ.
use wifi_offload_rpi.Prelude.{
  ==_sound, All, Bool, List, [], arith, erase_if, false, find_if, keep, none, not, refl, some, suc,
  true, ℕ, ◌++◌, ◌==◌, ◌∷◌, ◌≡◌, ◌≤◌,
}
use wifi_offload_rpi.Api.Server.{ConsumerEntry, has_fd, has_handle}

-- The handles of the list ascend, from `lo` on and below `hi`.
abbrev pub IsAscending : ℕ → List ConsumerEntry → ℕ → Type 0
IsAscending lo [] hi = lo ≤ hi
IsAscending lo (e ∷ es) hi = (lo ≤ e.handle) × IsAscending (suc e.handle) es hi

-- No entry of the list is for the descriptor.
abbrev pub IsFreeFd : ℕ → List ConsumerEntry → Type 0
IsFreeFd fd = All (λ e. has_fd fd e ≡ false)

abbrev pub IsDistinct : List ConsumerEntry → Type 0
IsDistinct [] = Unit {0}
IsDistinct (e ∷ es) = IsFreeFd e.fd es × IsDistinct es

pub IsAscending-weaken :
    {lo lo' : ℕ} (es : List ConsumerEntry) (hi : ℕ)
    → lo' ≤ lo
    → IsAscending lo es hi
    → IsAscending lo' es hi
IsAscending-weaken [] hi l a = omega arith
IsAscending-weaken (e ∷ es) hi l a = (omega arith, a.1)

pub IsAscending-le : (lo : ℕ) (es : List ConsumerEntry) (hi : ℕ) → IsAscending lo es hi → lo ≤ hi
IsAscending-le lo [] hi a = a
IsAscending-le lo (e ∷ es) hi a = omega (arith, IsAscending-le (suc e.handle) es hi a.1)

pub IsAscending-keep :
    (p : ConsumerEntry → Bool) (lo hi : ℕ) (es : List ConsumerEntry)
    → IsAscending lo es hi
    → IsAscending lo (keep p es) hi
IsAscending-keep p lo hi [] a = a
IsAscending-keep p lo hi (e ∷ es) a = ground (
  arith,
  IsAscending-keep p (suc e.handle) hi es a.1,
  IsAscending-weaken {lo = suc e.handle} {lo' = lo} (keep p es) hi,
)

pub IsAscending-erase_if :
    (p : ConsumerEntry → Bool) (lo hi : ℕ) (es : List ConsumerEntry)
    → IsAscending lo es hi
    → IsAscending lo (erase_if p es) hi
IsAscending-erase_if p lo hi [] a = a
IsAscending-erase_if p lo hi (e ∷ es) a = ground (
  arith,
  IsAscending-erase_if p (suc e.handle) hi es a.1,
  IsAscending-weaken {lo = suc e.handle} {lo' = lo} es hi,
)

pub IsAscending-snoc :
    (lo : ℕ) (es : List ConsumerEntry) (e : ConsumerEntry)
    → IsAscending lo es e.handle
    → IsAscending lo (es ++ e ∷ []) (suc e.handle)
IsAscending-snoc lo [] e a = (a, omega arith)
IsAscending-snoc lo (x ∷ es) e a = (a.0, IsAscending-snoc (suc x.handle) es e a.1)

module _ {κ} (P : ConsumerEntry → Type κ) where
  pub All-keep : (p : ConsumerEntry → Bool) (es : List ConsumerEntry) → All P es → All P (keep p es)
  All-keep p [] a = tt
  All-keep p (e ∷ es) a = ground (arith, All-keep p es a.1)

  pub All-erase_if :
      (p : ConsumerEntry → Bool) (es : List ConsumerEntry) → All P es → All P (erase_if p es)
  All-erase_if p [] a = tt
  All-erase_if p (e ∷ es) a = ground (arith, All-erase_if p es a.1)

  pub All-snoc :
      (es : List ConsumerEntry) (e : ConsumerEntry) → All P es → P e → All P (es ++ e ∷ [])
  All-snoc [] e a p = (p, tt)
  All-snoc (x ∷ es) e a p = (a.0, All-snoc es e a.1 p)

pub IsDistinct-keep :
    (p : ConsumerEntry → Bool) (es : List ConsumerEntry) → IsDistinct es → IsDistinct (keep p es)
IsDistinct-keep p [] d = tt
IsDistinct-keep p (e ∷ es) d =
    ground (arith, IsDistinct-keep p es d.1, All-keep (λ x. has_fd e.fd x ≡ false) p es d.0)

pub IsDistinct-erase_if :
    (p : ConsumerEntry → Bool) (es : List ConsumerEntry)
    → IsDistinct es
    → IsDistinct (erase_if p es)
IsDistinct-erase_if p [] d = tt
IsDistinct-erase_if p (e ∷ es) d =
    ground (arith, IsDistinct-erase_if p es d.1, All-erase_if (λ x. has_fd e.fd x ≡ false) p es d.0)

abbrev pub without_fd : ℕ → List ConsumerEntry → List ConsumerEntry
without_fd fd = keep (λ e. not (has_fd fd e))

pub without_fd-IsFreeFd : (fd : ℕ) (es : List ConsumerEntry) → IsFreeFd fd (without_fd fd es)
without_fd-IsFreeFd fd [] = tt
without_fd-IsFreeFd fd (e ∷ es) = ground (arith, without_fd-IsFreeFd fd es)

pub IsDistinct-snoc :
    (es : List ConsumerEntry) (e : ConsumerEntry)
    → IsFreeFd e.fd es
    → IsDistinct es
    → IsDistinct (es ++ e ∷ [])
IsDistinct-snoc [] e f d = (tt, tt)
IsDistinct-snoc (x ∷ es) e f d = (
  All-snoc (λ y. has_fd x.fd y ≡ false) es e d.0 (ground (arith, f.0)),
  IsDistinct-snoc es e f.1 d.1,
)

pub find_if-IsFreeFd :
    (fd : ℕ) (es : List ConsumerEntry) → IsFreeFd fd es → find_if (has_fd fd) es ≡ none
find_if-IsFreeFd fd [] f = refl
find_if-IsFreeFd fd (e ∷ es) f = ground (arith, find_if-IsFreeFd fd es f.1)

pub without_fd-free : (fd : ℕ) (es : List ConsumerEntry) → IsFreeFd fd es → without_fd fd es ≡ es
without_fd-free fd [] f = refl
without_fd-free fd (e ∷ es) f = ground (arith, without_fd-free fd es f.1)

without_fd-same :
    (fd a : ℕ) (es : List ConsumerEntry) → (a == fd) ≡ true → IsFreeFd a es → without_fd fd es ≡ es
without_fd-same fd a es h f = rw (← ==_sound a fd h) (without_fd-free a es f)

-- Erasing the first entry of a descriptor erases all of them, as there is one at most.
pub erase_if-without_fd :
    (fd : ℕ) (es : List ConsumerEntry) → IsDistinct es → erase_if (has_fd fd) es ≡ without_fd fd es
erase_if-without_fd fd [] d = refl
erase_if-without_fd fd (e ∷ es) d =
    ground (arith, erase_if-without_fd fd es d.1, without_fd-same fd e.fd es)

-- A handle at the end of ascending ones is found there, and erasing it leaves the others.
pub find_if-handle_snoc :
    (lo : ℕ) (es : List ConsumerEntry) (e : ConsumerEntry)
    → IsAscending lo es e.handle
    → find_if (has_handle e.handle) (es ++ e ∷ []) ≡ some e
find_if-handle_snoc lo [] e a = ground arith
find_if-handle_snoc lo (x ∷ es) e a = ground (
  arith,
  find_if-handle_snoc (suc x.handle) es e a.1,
  IsAscending-le (suc x.handle) es e.handle a.1,
)

pub erase_if-handle_snoc :
    (lo : ℕ) (es : List ConsumerEntry) (e : ConsumerEntry)
    → IsAscending lo es e.handle
    → erase_if (has_handle e.handle) (es ++ e ∷ []) ≡ es
erase_if-handle_snoc lo [] e a = ground arith
erase_if-handle_snoc lo (x ∷ es) e a = ground (
  arith,
  erase_if-handle_snoc (suc x.handle) es e a.1,
  IsAscending-le (suc x.handle) es e.handle a.1,
)
