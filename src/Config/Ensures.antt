-- ===== src/Config/Ensures.antt =====
-- What holds of the value of a result, through the chains of config/config_loader.cpp.
use wifi_offload_rpi.Prelude.{
  List, [], arith, false, is_empty, length, ok, refl, unexpected, ◌>>=◌, ◌∷◌, ◌≡◌,
}
use wifi_offload_rpi.Config.{Result}

-- A result satisfies a predicate if it is one.
abbrev pub Ensures {κ} : {A : Type 0} → (A → Type κ) → Result A → Type κ
Ensures P (ok a) = P a
Ensures P (unexpected e) = Unit

pub Ensures->>= {κ μ} :
    {A B : Type 0} (P : A → Type κ) (Q : B → Type μ) (m : Result A) (f : A → Result B)
    → Ensures P m
    → ((a : A) → P a → Ensures Q (f a))
    → Ensures Q (m >>= f)
Ensures->>= P Q (ok a) f h k = k a h
Ensures->>= P Q (unexpected e) f h k = tt

pub Ensures-mono {κ μ} :
    {A : Type 0} (P : A → Type κ) (Q : A → Type μ) (m : Result A)
    → ((a : A) → P a → Q a)
    → Ensures P m
    → Ensures Q m
Ensures-mono P Q (ok a) k h = k a h
Ensures-mono P Q (unexpected e) k h = tt

pub Ensures-any : {A : Type 0} (m : Result A) → Ensures (λ a. Unit {0}) m
Ensures-any (ok a) = tt
Ensures-any (unexpected e) = tt

pub Ensures-ok {κ} :
    {A : Type 0} (P : A → Type κ) (m : Result A) {a : A} → Ensures P m → m ≡ ok a → P a
Ensures-ok P m h e = rw e at h

pub same_emptiness {ℓ κ} :
    {A : Type ℓ} {B : Type κ} (xs : List A) (ys : List B)
    → length xs ≡ length ys
    → is_empty ys ≡ false
    → is_empty xs ≡ false
same_emptiness [] [] l h = h
same_emptiness [] (y ∷ ys) l h = absurd (omega arith)
same_emptiness (x ∷ xs) ys l h = refl
