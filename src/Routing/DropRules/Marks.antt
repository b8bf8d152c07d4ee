-- ===== src/Routing/DropRules/Marks.antt =====
-- Classes whose ids and marks differ (routing/routing_policy_manager.cpp, addDropRules): a mark tells
-- a class as its id does.
use wifi_offload_rpi.Prelude.{
  ==_self, All, Bool, Bool-cases, List, Text, [], ap, arith, find_if, if◌then◌else◌, inl, inr, map,
  some, sym, text_eq, text_eq_self, text_eq_sound, true, ℕ, ◌==◌, ◌∷◌, ◌≡◌, ◌≢◌,
}
use wifi_offload_rpi.Types.{PathClassConfig}
use wifi_offload_rpi.Config.Unique.{IsApart}
use mathlib.Core.Path.{subst}

-- The class with an id, among classes whose ids and marks differ: a class has its mark exactly if
-- it has its id.
unfoldable pub IsMarkOf : PathClassConfig → List PathClassConfig → Type 0
IsMarkOf c = All (λ b. (b.mark == c.mark) ≡ text_eq b.id c.id)

pub found_here {ℓ} :
    {A : Type ℓ} (q : A → Bool) (x : A) (xs : List A) (c : A)
    → q x ≡ true
    → find_if q (x ∷ xs) ≡ some c
    → x ≡ c
found_here q x xs c hit e = let first : some x ≡ some c = rw (hit, if◌then◌else◌) at e in cc

found {ℓ κ} :
    {A : Type ℓ} (P : A → Type κ) (q : A → Bool) (xs : List A) (c : A)
    → find_if q xs ≡ some c
    → All P xs
    → P c
found P q [] c e h = cc
found P q (x ∷ xs) c e h = elim (Bool-cases (q x)) [
  | inl hit ↦ subst P (found_here q x xs c hit e) h.0
  | inr miss ↦ found P q xs c (rw (miss, if◌then◌else◌) at e) h.1
]

All-map {ℓ κ μ} :
    {A : Type ℓ} {B : Type κ} (P : B → Type μ) (f : A → B) (xs : List A)
    → All P (map f xs)
    → All (λ x. P (f x)) xs
All-map P f [] h = tt
All-map P f (x ∷ xs) h = (h.0, All-map P f xs h.1)

-- Two keys that differ are unequal in both tests.
differing_keys : (i j : Text) (m n : ℕ) → i ≢ j → m ≢ n → (m == n) ≡ text_eq i j
differing_keys i j m n id mark = elim (Bool-cases (text_eq i j)) [
  | inl same ↦ absurd (id (text_eq_sound i j same))
  | inr differ ↦ ground (arith, differ)
]

-- The first class against itself.
equal_keys : (x c : PathClassConfig) → x ≡ c → (x.mark == c.mark) ≡ text_eq x.id c.id
equal_keys x c e =
    ground (arith, ==_self x.mark, text_eq_self x.id, ap (λ b. b.mark) e, ap (λ b. b.id) e)

others-IsMarkOf :
    (c : PathClassConfig) (cs : List PathClassConfig)
    → All (λ id. c.id ≢ id) (map (λ b. b.id) cs)
    → All (λ mark. c.mark ≢ mark) (map (λ b. b.mark) cs)
    → IsMarkOf c cs
unfolding IsMarkOf
others-IsMarkOf c [] ids marks = tt
others-IsMarkOf c (b ∷ bs) ids marks = (
  differing_keys b.id c.id b.mark c.mark (λ e. ids.0 (sym e)) (λ e. marks.0 (sym e)),
  others-IsMarkOf c bs ids.1 marks.1,
)

pub apart-IsMarkOf :
    (id : Text) (cs : List PathClassConfig) (c : PathClassConfig)
    → find_if (λ b. text_eq b.id id) cs ≡ some c
    → IsApart (map (λ b. b.id) cs)
    → IsApart (map (λ b. b.mark) cs)
    → IsMarkOf c cs
unfolding IsMarkOf
apart-IsMarkOf id [] c e ids marks = tt
apart-IsMarkOf id (x ∷ xs) c e ids marks = elim (Bool-cases (text_eq x.id id)) [
  | inl hit ↦
      let same : x ≡ c = found_here (λ b. text_eq b.id id) x xs c hit e in
      (equal_keys x c same, subst (λ c. IsMarkOf c xs) same (others-IsMarkOf x xs ids.0 marks.0))
  | inr miss ↦
      let e' = rw (miss, if◌then◌else◌) at e in
      (
        differing_keys x.id c.id x.mark c.mark
            (found (λ b. x.id ≢ b.id) _ xs c e' (All-map _ (λ b. b.id) xs ids.0))
            (found (λ b. x.mark ≢ b.mark) _ xs c e' (All-map _ (λ b. b.mark) xs marks.0)),
        apart-IsMarkOf id xs c e' ids.1 marks.1,
      )
]
