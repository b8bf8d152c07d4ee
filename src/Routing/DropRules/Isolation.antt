-- ===== src/Routing/DropRules/Isolation.antt =====
-- The DROP rules of RoutingPolicyManager::addDropRules (routing/routing_policy_manager.cpp): which
-- packets they drop.
use wifi_offload_rpi.Prelude.{
  All, Bool, Bool-cases, List, Text, [], any, ap, arith, false, find_if, if◌then◌else◌, inl, inr,
  map, not, refl, some, sym, text_eq, text_eq_self, text_eq_sound, true, ℕ, ◌&&◌, ◌++◌, ◌==◌, ◌||◌,
  ◌∙◌, ◌∷◌, ◌≡◌,
}
use wifi_offload_rpi.Types.{PathClassConfig}
use wifi_offload_rpi.Routing.DropRules.Marks.{IsMarkOf, apart-IsMarkOf, found_here}
use wifi_offload_rpi.Routing.DropRules.{
  add_ifaces, all_ifaces, collect_ifaces, drop_rules, drop_rules_from, foreign_rules, has_name,
  intruder_rules,
}
use wifi_offload_rpi.Config.Unique.{IsApart}

-- Whether a rule drops the packets with a mark that leave on an interface.
abbrev pub is_hit : Text → ℕ → Text × ℕ → Bool
is_hit o m (iface, mark) = text_eq iface o && (mark == m)

-- Whether a class has the interface.
abbrev pub is_mentioned : List PathClassConfig → Text → Bool
is_mentioned classes o = any (λ s. has_name o s.interfaces) classes

-- What strict isolation forbids class `c`: with isolation of its own, the interfaces of others;
-- else those of each isolated class.
abbrev pub is_forbidden : List PathClassConfig → PathClassConfig → Text → Bool
is_forbidden classes c o =
    any
      (λ s.
        s.strict_isolation
        && (if text_eq s.id c.id
            then is_mentioned classes o && not (has_name o s.interfaces)
            else has_name o s.interfaces))
      classes

any-append {ℓ} :
    {A : Type ℓ} (p : A → Bool) (xs ys : List A) → any p (xs ++ ys) ≡ (any p xs || any p ys)
any-append p [] ys = refl
any-append p (x ∷ xs) ys = ground (arith, any-append p xs ys)

any-congr {ℓ} :
    {A : Type ℓ} (p q : A → Bool) (xs : List A) → All (λ x. p x ≡ q x) xs → any p xs ≡ any q xs
any-congr p q [] h = refl
any-congr p q (x ∷ xs) h = rw (h.0, any-congr p q xs h.1) refl

text_eq_comm : (xs ys : Text) → text_eq xs ys ≡ text_eq ys xs
unfolding text_eq
text_eq_comm [] [] = refl
text_eq_comm [] (y ∷ ys) = refl
text_eq_comm (x ∷ xs) [] = refl
text_eq_comm (x ∷ xs) (y ∷ ys) = ground (arith, text_eq_comm xs ys)

same_text : (x y : Text) (p : Text → Bool) → text_eq x y ≡ true → p x ≡ p y
same_text x y p h = ap p (text_eq_sound x y h)

-- The list after the check for one interface.
has_name-added :
    (o x : Text) (acc : List Text)
    → has_name o (if has_name x acc then acc else acc ++ x ∷ []) ≡ (has_name o acc || text_eq x o)
has_name-added o x acc = elim (Bool-cases (has_name x acc)) [
  | inr new ↦ rw (new, if◌then◌else◌) (any-append (λ y. text_eq y o) acc (x ∷ []) ∙ ground arith)
  | inl known ↦ elim (Bool-cases (text_eq x o)) [
    | inl same ↦
        rw (known, if◌then◌else◌)
          (ground (arith, same, sym (same_text x o (λ y. has_name y acc) same) ∙ known))
    | inr differ ↦ rw (known, differ, if◌then◌else◌) (ground arith)
  ]
]

has_name-add_ifaces :
    (o : Text) (acc ifaces : List Text)
    → has_name o (add_ifaces acc ifaces) ≡ (has_name o acc || has_name o ifaces)
unfolding add_ifaces
has_name-add_ifaces o acc [] = ground arith
has_name-add_ifaces o acc (x ∷ xs) = ground (
  arith,
  has_name-added o x acc,
  has_name-add_ifaces o (if has_name x acc then acc else acc ++ x ∷ []) xs,
)

has_name-collect_ifaces :
    (o : Text) (acc : List Text) (cs : List PathClassConfig)
    → has_name o (collect_ifaces acc cs) ≡ (has_name o acc || is_mentioned cs o)
unfolding collect_ifaces
has_name-collect_ifaces o acc [] = ground arith
has_name-collect_ifaces o acc (c ∷ cs) = ground (
  arith,
  has_name-collect_ifaces o (add_ifaces acc c.interfaces) cs,
  has_name-add_ifaces o acc c.interfaces,
)

foreign_rules-hit :
    (o : Text) (m : ℕ) (all : List Text) (s : PathClassConfig)
    → any (is_hit o m) (foreign_rules all s)
      ≡ ((s.mark == m) && (has_name o all && not (has_name o s.interfaces)))
unfolding foreign_rules
foreign_rules-hit o m [] s = ground arith
foreign_rules-hit o m (x ∷ xs) s = elim (Bool-cases (text_eq x o)) [
  | inl same ↦
      ground
        (arith, same, same_text x o (λ y. has_name y s.interfaces) same, foreign_rules-hit o m xs s)
  | inr differ ↦ ground (arith, differ, foreign_rules-hit o m xs s)
]

own_rules-hit :
    (o : Text) (m mark : ℕ) (ifaces : List Text)
    → any (is_hit o m) (map (λ iface. (iface, mark)) ifaces) ≡ ((mark == m) && has_name o ifaces)
own_rules-hit o m mark [] = ground arith
own_rules-hit o m mark (x ∷ xs) = ground (arith, own_rules-hit o m mark xs)

-- Whether a packet with the mark belongs to a class other than `s`.
abbrev is_intruder : List PathClassConfig → PathClassConfig → ℕ → Bool
is_intruder classes s m = any (λ b. not (text_eq b.id s.id) && (b.mark == m)) classes

intruder_rules-hit :
    (o : Text) (m : ℕ) (classes : List PathClassConfig) (s : PathClassConfig)
    → any (is_hit o m) (intruder_rules classes s)
      ≡ (is_intruder classes s m && has_name o s.interfaces)
unfolding intruder_rules
intruder_rules-hit o m [] s = refl
intruder_rules-hit o m (b ∷ bs) s = elim (Bool-cases (text_eq b.id s.id)) [
  | inl same ↦ rw (same, if◌then◌else◌) (intruder_rules-hit o m bs s)
  | inr differ ↦
      rw (differ, if◌then◌else◌)
        (any-append (is_hit o m) (map (λ iface. (iface, b.mark)) s.interfaces) (intruder_rules bs s)
          ∙ ground (arith, own_rules-hit o m b.mark s.interfaces, intruder_rules-hit o m bs s))
]

-- What the rules of one isolated class drop.
abbrev is_dropped_for : List PathClassConfig → Text → ℕ → PathClassConfig → Bool
is_dropped_for classes o m s =
    s.strict_isolation
    && (((s.mark == m) && (is_mentioned classes o && not (has_name o s.interfaces)))
        || (is_intruder classes s m && has_name o s.interfaces))

any-guarded {ℓ} :
    {A : Type ℓ} (p : A → Bool) (b : Bool) (xs ys : List A)
    → any p ((if b then xs else []) ++ ys) ≡ ((b && any p xs) || any p ys)
any-guarded p true xs ys = any-append p xs ys
any-guarded p false xs ys = refl

drop_rules_from-hit :
    (o : Text) (m : ℕ) (classes rest : List PathClassConfig)
    → any (is_hit o m) (drop_rules_from classes rest) ≡ any (is_dropped_for classes o m) rest
unfolding drop_rules_from all_ifaces
drop_rules_from-hit o m classes [] = refl
drop_rules_from-hit o m classes (s ∷ rest) =
    any-guarded (is_hit o m) s.strict_isolation
      (foreign_rules (all_ifaces classes) s ++ intruder_rules classes s)
      (drop_rules_from classes rest)
    ∙ rw
        (
          any-append (is_hit o m) (foreign_rules (all_ifaces classes) s) (intruder_rules classes s),
          foreign_rules-hit o m (all_ifaces classes) s,
          intruder_rules-hit o m classes s,
          has_name-collect_ifaces o [] classes,
          drop_rules_from-hit o m classes rest,
        )
        refl

-- Somebody else has the class's mark exactly if the class is not the isolated one.
is_intruder-IsMarkOf :
    (cs : List PathClassConfig) (c s : PathClassConfig)
    → IsMarkOf c cs
    → is_intruder cs s c.mark ≡ (not (text_eq s.id c.id) && any (λ b. text_eq b.id c.id) cs)
unfolding IsMarkOf
is_intruder-IsMarkOf [] c s h = ground arith
is_intruder-IsMarkOf (b ∷ bs) c s h = elim (Bool-cases (text_eq b.id c.id)) [
  | inl same ↦ ground (
    arith,
    h.0,
    same,
    same_text b.id c.id (λ i. text_eq i s.id) same,
    text_eq_comm s.id c.id,
    is_intruder-IsMarkOf bs c s h.1,
  )
  | inr differ ↦ ground (arith, h.0, differ, is_intruder-IsMarkOf bs c s h.1)
]

is_known :
    (id : Text) (cs : List PathClassConfig) (c : PathClassConfig)
    → find_if (λ b. text_eq b.id id) cs ≡ some c
    → any (λ b. text_eq b.id c.id) cs ≡ true
is_known id [] c e = cc
is_known id (x ∷ xs) c e = elim (Bool-cases (text_eq x.id id)) [
  | inl hit ↦
      let same : x ≡ c = found_here (λ b. text_eq b.id id) x xs c hit e in
      ground (arith, text_eq_self x.id, ap (λ b. b.id) same)
  | inr miss ↦ ground (arith, is_known id xs c (rw (miss, if◌then◌else◌) at e))
]

dropped_for_class :
    (cs rest : List PathClassConfig) (c : PathClassConfig) (o : Text)
    → IsMarkOf c cs
    → IsMarkOf c rest
    → any (λ b. text_eq b.id c.id) cs ≡ true
    → All
        (λ s. is_dropped_for cs o c.mark s ≡ (
          s.strict_isolation
          && (if text_eq s.id c.id
              then is_mentioned cs o && not (has_name o s.interfaces)
              else has_name o s.interfaces)))
        rest
unfolding IsMarkOf
dropped_for_class cs [] c o h r k = tt
dropped_for_class cs (s ∷ rest) c o h r k = (
  rw (is_intruder-IsMarkOf cs c s h, k, r.0) (ground arith),
  dropped_for_class cs rest c o h r.1 k,
)

-- Among classes whose ids and marks differ, a packet with the mark of one of them meets a DROP rule
-- exactly on the interfaces that strict isolation forbids that class: if the class is isolated,
-- those that some class has and it has not; and those of every other isolated class.
pub drop_rules-is_forbidden :
    (classes : List PathClassConfig) (id o : Text) (c : PathClassConfig)
    → IsApart (map (λ b. b.id) classes)
    → IsApart (map (λ b. b.mark) classes)
    → find_if (λ b. text_eq b.id id) classes ≡ some c
    → any (is_hit o c.mark) (drop_rules classes) ≡ is_forbidden classes c o
unfolding drop_rules
drop_rules-is_forbidden classes id o c ids marks e =
    let h = apart-IsMarkOf id classes c e ids marks in
    drop_rules_from-hit o c.mark classes classes
    ∙ any-congr _ _ classes (dropped_for_class classes classes c o h h (is_known id classes c e))
