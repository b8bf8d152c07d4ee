-- ===== src/Routing/Cgroups/SetUp.antt =====
-- What setupOneClass (routing/routing_policy_manager.cpp) leaves in a cgroup, given the laws of
-- the file system and of net_cls.
use wifi_offload_rpi.Prelude.{
  ==_sound, Bool, Bool-cases, Option-cases, Text, [], ap, arith, false, if◌then◌else◌, inl, inr,
  not, ok, refl, some, sym, true, ℕ, ◌++◌, ◌<◌, ◌==◌, ◌^◌, ◌∙◌, ◌∷◌, ◌≡◌, ◌⊎◌,
}
use wifi_offload_rpi.Types.{PathClassConfig}
use wifi_offload_rpi.Routing.Cgroups.NetCls.{ClassidLaws}
use wifi_offload_rpi.Routing.Cgroups.{
  Files, cgroup_dir, classid_file, classid_text, existing, inserted, parent_path, set_classid,
  setup_one_class, write_classid,
}
use wifi_offload_rpi.Wpa.Parse.Decimal.{decimal}
use mathlib.Core.Path.{subst}

module _ (files : Files) (laws : ClassidLaws files) where
  open files use {Disk}

  -- What the loop did for one class when it did not fail.
  pub data SetUp (cls : PathClassConfig) (d d' : Disk) : Type 0 where
    unchanged :
        (dir : Text)
        → cgroup_dir files cls.cgroup_path d ≡ some dir
        → d' ≡ (files.create_directories dir d).1
        → existing (files.read_file (classid_file files dir) d') ≡ cls.classid
        → SetUp cls d d'
    changed :
        (dir : Text) (d₁ d₂ d₃ : Disk)
        → cgroup_dir files cls.cgroup_path d ≡ some dir
        → d₁ ≡ (files.create_directories dir d).1
        → files.open_file (classid_file files dir) d₁ ≡ some d₂
        → files.insert_text (classid_file files dir) (classid_text cls.classid) d₂ ≡ (true, d₃)
        → d' ≡ (files.close_file (classid_file files dir) d₃).1
        → SetUp cls d d'

  inserted-ok :
      (file : Text) (r : Bool × Disk) (d : Disk)
      → inserted files file r ≡ (ok tt, d)
      → (r ≡ (true, r.1)) × (d ≡ (files.close_file file r.1).1)
  inserted-ok file (true, x) d e = (refl, sym (ap (λ y. y.1) e))
  inserted-ok file (false, x) d e = cc

  write_classid-SetUp :
      (cls : PathClassConfig) (dir : Text) (d d₁ d' : Disk)
      → cgroup_dir files cls.cgroup_path d ≡ some dir
      → d₁ ≡ (files.create_directories dir d).1
      → write_classid files (classid_file files dir) cls.classid d₁ ≡ (ok tt, d')
      → SetUp cls d d'
  unfolding write_classid
  write_classid-SetUp cls dir d d₁ d' r m e =
      elim (Option-cases (files.open_file (classid_file files dir) d₁)) [
        | inl failed ↦ (let now = rw (write_classid, failed) at e in cc)
        | inr (d₂, taken) ↦
            let (good, closed) = inserted-ok _ _ d' (rw (write_classid, taken) at e) in
            changed dir d₁ d₂ _ r m taken good closed
      ]

  set_classid-SetUp :
      (cls : PathClassConfig) (dir : Text) (d d' : Disk) (made : Bool × Disk)
      → cgroup_dir files cls.cgroup_path d ≡ some dir
      → made ≡ files.create_directories dir d
      → set_classid files cls dir made ≡ (ok tt, d')
      → SetUp cls d d'
  unfolding set_classid
  set_classid-SetUp cls dir d d' (false, d₁) r m e = cc
  set_classid-SetUp cls dir d d' (true, d₁) r m e =
      elim (Bool-cases (existing (files.read_file (classid_file files dir) d₁) == cls.classid)) [
        | inl same ↦
            subst (SetUp cls d) (ap (λ y. y.1) (rw (same, not, if◌then◌else◌) at e))
              (unchanged dir r (ap (λ y. y.1) m) (==_sound _ _ same))
        | inr differs ↦
            write_classid-SetUp cls dir d d₁ d' r (ap (λ y. y.1) m)
              (rw (differs, not, if◌then◌else◌) at e)
      ]

  pub setup_one_class-SetUp :
      (cls : PathClassConfig) (d d' : Disk)
      → setup_one_class files cls d ≡ (ok tt, d')
      → SetUp cls d d'
  unfolding setup_one_class
  setup_one_class-SetUp cls d d' e = elim (Option-cases (cgroup_dir files cls.cgroup_path d)) [
    | inl lost ↦ (let now = rw (setup_one_class, lost) at e in cc)
    | inr (dir, found) ↦
        set_classid-SetUp cls dir d d' _ found refl (rw (setup_one_class, found) at e)
  ]

  -- The kernel has the number for a file, or one whose decimal digits read as it in hexadecimal.
  abbrev pub HasNumber : Text → Disk → ℕ → Type 0
  HasNumber file d classid =
      (n : ℕ) × (laws.classid_of file d ≡ some n)
      × ((n ≡ classid) ⊎ (existing (some (decimal n ++ 10 ∷ [])) ≡ classid))

  -- The class's cgroup resolves, and the kernel has the class's number for it, or one whose decimal
  -- digits read as the class's number in hexadecimal.
  abbrev pub HasClassid : Disk → PathClassConfig → Type 0
  HasClassid d cls =
      (dir : Text) × (cgroup_dir files cls.cgroup_path d ≡ some dir)
      × HasNumber (classid_file files dir) d cls.classid

  pub resolves :
      (path dir : Text) (d d' : Disk)
      → ((q r : Text) → files.canonical q d ≡ some r → files.canonical q d' ≡ some r)
      → cgroup_dir files path d ≡ some dir
      → cgroup_dir files path d' ≡ some dir
  unfolding cgroup_dir
  resolves path dir d d' k e = elim (Option-cases (files.canonical (parent_path path) d)) [
    | inl lost ↦ (let now = rw (cgroup_dir, lost) at e in cc)
    | inr (r, found) ↦ rw (k (parent_path path) r found) (rw (cgroup_dir, found) at e)
  ]

  existing-HasClassid :
      (cls : PathClassConfig) (p : Text) (d : Disk)
      → laws.on_net_cls p
      → 0 < cls.classid
      → existing (files.read_file p d) ≡ cls.classid
      → HasNumber p d cls.classid
  unfolding existing
  existing-HasClassid cls p d at n e = elim (Option-cases (files.read_file p d)) [
    | inl unread ↦
        (let none_there = rw (unread, existing) at e in absurd (omega (arith, n, none_there)))
    | inr (t, read) ↦
        let (n, number, shown) = laws.shown p t d at read in
        (n, number, inr (rw⁻¹ shown (rw (read) at e)))
  ]

  -- The files of two classes differ.
  abbrev pub IsAway : Disk → PathClassConfig → PathClassConfig → Type 0
  IsAway d c c' =
      (dir dir' : Text)
      → cgroup_dir files c.cgroup_path d ≡ some dir
      → cgroup_dir files c'.cgroup_path d ≡ some dir'
      → laws.same_file (classid_file files dir) (classid_file files dir')
      → ⊥

  -- The class's cgroup is one of a net_cls hierarchy.
  abbrev pub IsOnNetCls : Disk → PathClassConfig → Type 0
  IsOnNetCls d c =
      (dir : Text)
      → cgroup_dir files c.cgroup_path d ≡ some dir
      → laws.on_net_cls (classid_file files dir)

  abbrev pub IsClassid : PathClassConfig → Type 0
  IsClassid cls = (0 < cls.classid) × (cls.classid < 2 ^ 32)

  -- What a class's set-up keeps: the paths, and the numbers of other files.
  pub SetUp-resolves :
      (cls : PathClassConfig) (d d' : Disk)
      → SetUp cls d d'
      → (q r : Text) → files.canonical q d ≡ some r
      → files.canonical q d' ≡ some r
  SetUp-resolves cls d d' (unchanged dir r m e) q s k = rw m (laws.made_resolves dir q s d k)
  SetUp-resolves cls d d' (changed dir d₁ d₂ d₃ r m o i x) q s k =
      let first : files.canonical q d₁ ≡ some s = rw m (laws.made_resolves dir q s d k) in
      let second = laws.opened_resolves (classid_file files dir) q s d₁ d₂ o first in
      let third : files.canonical q d₃ ≡ some s = rw⁻¹ (ap (λ y. y.1) i) (
        laws.inserted_resolves (classid_file files dir) (classid_text cls.classid) q s d₂ second) in
      rw x (laws.closed_resolves (classid_file files dir) q s d₃ third)

  SetUp-cgroup_dir :
      (cls : PathClassConfig) (d d' : Disk) (dir : Text)
      → SetUp cls d d'
      → cgroup_dir files cls.cgroup_path d ≡ some dir
      → cgroup_dir files cls.cgroup_path d' ≡ some dir
  SetUp-cgroup_dir cls d d' dir s = resolves cls.cgroup_path dir d d' (SetUp-resolves cls d d' s)

  -- One class afterwards.
  pub SetUp-HasClassid :
      (cls : PathClassConfig) (d d' : Disk)
      → IsClassid cls
      → IsOnNetCls d' cls
      → SetUp cls d d'
      → HasClassid d' cls
  SetUp-HasClassid cls d d' n at (unchanged dir r m e) =
      let r' = SetUp-cgroup_dir cls d d' dir (unchanged dir r m e) r in
      (dir, r', existing-HasClassid cls _ d' (at dir r') n.0 e)
  SetUp-HasClassid cls d d' n at (changed dir d₁ d₂ d₃ r m o i x) =
      let r' = SetUp-cgroup_dir cls d d' dir (changed dir d₁ d₂ d₃ r m o i x) r in
      let file = classid_file files dir in
      let flushed = laws.written file cls.classid d₁ d₂ d₃ (at dir r') n.1 o i in
      let closed : files.close_file file d₃ ≡ (true, d') =
        ap (λ b. (b, (files.close_file file d₃).1)) flushed ∙ ap (λ y. (true, y)) (sym x) in
      (
        dir,
        r',
        (cls.classid, laws.taken file cls.classid d₁ d₂ d₃ d' (at dir r') n.1 o i closed, inl refl),
      )

  -- The numbers of the other files.
  SetUp-elsewhere :
      (cls : PathClassConfig) (d d' : Disk) (q : Text) (k : ℕ)
      → laws.on_net_cls q
      → SetUp cls d d'
      → ((dir : Text)
          → cgroup_dir files cls.cgroup_path d' ≡ some dir
          → laws.same_file q (classid_file files dir)
          → ⊥)
      → laws.classid_of q d ≡ some k
      → laws.classid_of q d' ≡ some k
  SetUp-elsewhere cls d d' q k at (unchanged dir r m e) n has = rw m (laws.made dir q k d at has)
  SetUp-elsewhere cls d d' q k at (changed dir d₁ d₂ d₃ r m o i x) n has =
      let file = classid_file files dir in
      let r' = SetUp-cgroup_dir cls d d' dir (changed dir d₁ d₂ d₃ r m o i x) r in
      let first : laws.classid_of q d₁ ≡ some k = rw m (laws.made dir q k d at has) in
      let second = laws.opened_kept file q k d₁ d₂ at o first in
      let third : laws.classid_of q d₃ ≡ some k =
        rw⁻¹ (ap (λ y. y.1) i) (laws.inserted_kept file q cls.classid k d₂ at second) in
      rw x (laws.elsewhere file q k d₃ at (n dir r') third)

  pub SetUp-kept :
      (c cls : PathClassConfig) (d d' : Disk)
      → SetUp c d d'
      → IsAway d' cls c
      → IsOnNetCls d' cls
      → HasClassid d cls
      → HasClassid d' cls
  SetUp-kept c cls d d' s away at (dir, r, (k, has, v)) =
      let r' = resolves cls.cgroup_path dir d d' (SetUp-resolves c d d' s) r in
      (dir, r', (k, SetUp-elsewhere c d d' _ k (at dir r') s (λ dir' e. away dir dir' r' e) has, v))
