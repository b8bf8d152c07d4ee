-- ===== src/Config/Unique.antt =====
-- ConfigLoader::validateClasses (config/config_loader.cpp) against pairwise difference.
use wifi_offload_rpi.Prelude.{
  ==_sound, All, Bool, Bool-cases, List, Text, [], any, arith, false, if◌then◌else◌, inl, inr, map,
  not, ok, refl, sym, text_eq, text_eq_iff, true, unexpected, ℕ, ◌&&◌, ◌==◌, ◌↔◌, ◌∙◌, ◌∷◌, ◌≡◌,
  ◌≢◌,
}
use wifi_offload_rpi.Types.{PathClassConfig, invalid_value}
use wifi_offload_rpi.Config.{Result, validate_classes, validate_from}

-- Every key differs from all that follow it.
abbrev pub IsApart {ℓ} : {K : Type ℓ} → List K → Type ℓ
IsApart [] = Unit
IsApart (k ∷ ks) = All (λ k'. k ≢ k') ks × IsApart ks

module _ {K : Type 0} (eq : K → K → Bool) (eq_iff : (a b : K) → (eq a b ≡ true) ↔ (a ≡ b)) where
  -- No key is among those seen or those before it.
  unique_from : List K → List K → Bool
  unique_from seen [] = true
  unique_from seen (k ∷ ks) = not (any (eq k) seen) && unique_from (k ∷ seen) ks

  Fresh : List K → List K → Type 0
  Fresh seen = All (λ k. any (eq k) seen ≡ false)

  Fresh-cons :
      (k : K) (seen ks : List K) → Fresh (k ∷ seen) ks → Fresh seen ks × All (λ k'. k ≢ k') ks
  unfolding Fresh
  Fresh-cons k seen [] f = (tt, tt)
  Fresh-cons k seen (x ∷ ks) f =
      let (fresh, apart) = Fresh-cons k seen ks f.1 in
      ((ground arith, fresh), ((λ e. ground (arith, (eq_iff x k).1 (sym e))), apart))

  cons-Fresh :
      (k : K) (seen ks : List K) → Fresh seen ks → All (λ k'. k ≢ k') ks → Fresh (k ∷ seen) ks
  unfolding Fresh
  cons-Fresh k seen [] f a = tt
  cons-Fresh k seen (x ∷ ks) f a = (other, cons-Fresh k seen ks f.1 a.1)
    where
      other : any (eq x) (k ∷ seen) ≡ false
      other = elim (Bool-cases (eq x k)) [
        | inl same ↦ absurd (a.0 (sym ((eq_iff x k).0 same)))
        | inr differ ↦ rw differ f.0
      ]

  unique_from_sound : (seen ks : List K) → unique_from seen ks ≡ true → Fresh seen ks × IsApart ks
  unfolding unique_from Fresh
  unique_from_sound seen [] h = (tt, tt)
  unique_from_sound seen (k ∷ ks) h =
      let (fresh, apart) = unique_from_sound (k ∷ seen) ks (ground arith) in
      let (old, new) = Fresh-cons k seen ks fresh in ((ground arith, old), (new, apart))

  unique_from_complete :
      (seen ks : List K) → Fresh seen ks → IsApart ks → unique_from seen ks ≡ true
  unfolding unique_from Fresh
  unique_from_complete seen [] f a = refl
  unique_from_complete seen (k ∷ ks) f a =
      ground (arith, unique_from_complete (k ∷ seen) ks (cons-Fresh k seen ks f.1 a.0) a.1)

  Fresh-nil : (ks : List K) → Fresh [] ks
  unfolding Fresh
  Fresh-nil [] = tt
  Fresh-nil (k ∷ ks) = (refl, Fresh-nil ks)

  unique_iff_IsApart : (ks : List K) → (unique_from [] ks ≡ true) ↔ IsApart ks
  unique_iff_IsApart ks =
      ((λ h. (unique_from_sound [] ks h).1), unique_from_complete [] ks (Fresh-nil ks))

number_eq_iff : (a b : ℕ) → ((a == b) ≡ true) ↔ (a ≡ b)
number_eq_iff a b = (==_sound a b, λ e. ground arith)

unique_texts : List Text → List Text → Bool
unique_texts = unique_from text_eq text_eq_iff

unique_numbers : List ℕ → List ℕ → Bool
unique_numbers = unique_from ◌==◌ number_eq_iff

abbrev validated : Result (Unit {0})
validated = ok tt

validate_from_unique :
    (ids : List Text) (classids marks tables : List ℕ) (cs : List PathClassConfig)
    → validate_from ids classids marks tables cs ≡ (
        if unique_texts ids (map (λ c. c.id) cs)
          && (unique_numbers classids (map (λ c. c.classid) cs)
              && (unique_numbers marks (map (λ c. c.mark) cs)
                  && unique_numbers tables (map (λ c. c.routing_table) cs)))
        then validated
        else unexpected invalid_value)
unfolding validate_from unique_texts unique_numbers unique_from
validate_from_unique ids classids marks tables [] = refl
validate_from_unique ids classids marks tables (c ∷ cs) = ground (
  arith,
  validate_from_unique (c.id ∷ ids) (c.classid ∷ classids) (c.mark ∷ marks)
      (c.routing_table ∷ tables) cs,
)

gate :
    (a b c d : Bool)
    → ((if a && (b && (c && d)) then validated else unexpected invalid_value) ≡ validated)
      ↔ ((a ≡ true) × (b ≡ true) × (c ≡ true) × (d ≡ true))
gate a b c d = ((λ h. (ground arith, ground arith, ground arith, ground arith)), λ h. ground arith)

-- The check passes exactly if no two classes share an id, a classid, a mark or a routing table.
pub validate_classes_iff_IsApart :
    (cs : List PathClassConfig)
    → (validate_classes cs ≡ ok tt) ↔ (
        IsApart (map (λ c. c.id) cs)
        × IsApart (map (λ c. c.classid) cs)
        × IsApart (map (λ c. c.mark) cs)
        × IsApart (map (λ c. c.routing_table) cs))
unfolding validate_classes unique_texts unique_numbers
validate_classes_iff_IsApart cs = (
  (λ h.
      let (a, b, c, d) = (gate _ _ _ _).0 (sym (validate_from_unique [] [] [] [] cs) ∙ h) in
      ((texts _).0 a, (numbers _).0 b, (numbers _).0 c, (numbers _).0 d)),
  (λ (a, b, c, d).
      validate_from_unique [] [] [] [] cs
      ∙ (gate _ _ _ _).1 ((texts _).1 a, (numbers _).1 b, (numbers _).1 c, (numbers _).1 d)),
)
  where
    texts : (ks : List Text) → (unique_texts [] ks ≡ true) ↔ IsApart ks
    texts = unique_iff_IsApart text_eq text_eq_iff

    numbers : (ks : List ℕ) → (unique_numbers [] ks ≡ true) ↔ IsApart ks
    numbers = unique_iff_IsApart ◌==◌ number_eq_iff
