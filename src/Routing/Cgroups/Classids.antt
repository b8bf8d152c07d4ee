-- ===== src/Routing/Cgroups/Classids.antt =====
-- What createCgroupHierarchy (routing/routing_policy_manager.cpp) leaves in the cgroups.
use wifi_offload_rpi.Prelude.{All, List, Text, [], ap, ok, refl, some, unexpected, ◌∷◌, ◌≡◌}
use wifi_offload_rpi.Types.{PathClassConfig}
use wifi_offload_rpi.Routing.Cgroups.NetCls.{ClassidLaws}
use wifi_offload_rpi.Routing.Cgroups.SetUp.{
  HasClassid, IsAway, IsClassid, IsOnNetCls, SetUp, SetUp-HasClassid, SetUp-kept, SetUp-resolves,
  resolves, setup_one_class-SetUp,
}
use wifi_offload_rpi.Routing.Netlink.{Result}
use wifi_offload_rpi.Routing.Cgroups.{Files, create_cgroup_hierarchy, setup_one_class}
use mathlib.Core.Path.{subst}

module _ (files : Files) (laws : ClassidLaws files) where
  open files use {Disk}

  -- The classes have cgroups of net_cls, and their files differ in pairs.
  abbrev pub IsPlaced : Disk → List PathClassConfig → Type 0
  IsPlaced d [] = Unit
  IsPlaced d (c ∷ cs) = IsOnNetCls files laws d c × All (IsAway files laws d c) cs × IsPlaced d cs

  create_cgroup_hierarchy-inverse :
      (c : PathClassConfig) (cs : List PathClassConfig) (d d' : Disk)
      → create_cgroup_hierarchy files (c ∷ cs) d ≡ (ok tt, d')
      → (d₁ : Disk) × SetUp files laws c d d₁ × (create_cgroup_hierarchy files cs d₁ ≡ (ok tt, d'))
  unfolding create_cgroup_hierarchy
  create_cgroup_hierarchy-inverse c cs d d' e = go (setup_one_class files c d) refl e
    where
      go :
          (r : Result (Unit {0}) × Disk)
          → setup_one_class files c d ≡ r
          → (elim r.0 [
            | unexpected x ↦ (unexpected x, r.1)
            | ok u ↦ create_cgroup_hierarchy files cs r.1
          ])
            ≡ (ok tt, d')
          → (d₁ : Disk) × SetUp files laws c d d₁
            × (create_cgroup_hierarchy files cs d₁ ≡ (ok tt, d'))
      go (ok u, d₁) s later = (d₁, setup_one_class-SetUp files laws c d d₁ s, later)
      go (unexpected x, d₁) s later = cc

  create_cgroup_hierarchy-resolves :
      (cs : List PathClassConfig) (d d' : Disk)
      → create_cgroup_hierarchy files cs d ≡ (ok tt, d')
      → (q r : Text) → files.canonical q d ≡ some r
      → files.canonical q d' ≡ some r
  unfolding create_cgroup_hierarchy
  create_cgroup_hierarchy-resolves [] d d' e q r k = rw⁻¹ (ap (λ y. y.1) e) k
  create_cgroup_hierarchy-resolves (c ∷ cs) d d' e q r k =
      let (d₁, first, later) = create_cgroup_hierarchy-inverse c cs d d' e in
      create_cgroup_hierarchy-resolves cs d₁ d' later q r
        (SetUp-resolves files laws c d d₁ first q r k)

  create_cgroup_hierarchy-kept :
      (cls : PathClassConfig) (cs : List PathClassConfig) (d d' : Disk)
      → create_cgroup_hierarchy files cs d ≡ (ok tt, d')
      → All (IsAway files laws d' cls) cs
      → IsOnNetCls files laws d' cls
      → HasClassid files laws d cls
      → HasClassid files laws d' cls
  unfolding create_cgroup_hierarchy
  create_cgroup_hierarchy-kept cls [] d d' e away at h =
      subst (λ x. HasClassid files laws x cls) (ap (λ y. y.1) e) h
  create_cgroup_hierarchy-kept cls (c ∷ cs) d d' e away at h =
      let (d₁, first, later) = create_cgroup_hierarchy-inverse c cs d d' e in
      let kept = create_cgroup_hierarchy-resolves cs d₁ d' later in
      let apart : IsAway files laws d₁ cls c = λ dir dir' r r'.
        away.0 dir dir' (resolves files laws cls.cgroup_path dir d₁ d' kept r)
          (resolves files laws c.cgroup_path dir' d₁ d' kept r') in
      let placed : IsOnNetCls files laws d₁ cls =
        λ dir r. at dir (resolves files laws cls.cgroup_path dir d₁ d' kept r) in
      create_cgroup_hierarchy-kept cls cs d₁ d' later away.1 at
        (SetUp-kept files laws c cls d d₁ first apart placed h)

  -- With a kernel that takes the numbers written to its classid files (the laws): if
  -- createCgroupHierarchy succeeds, for classes whose numbers are uint32_t other than 0 and whose
  -- cgroups are different cgroups of net_cls, then every class's cgroup resolves and has the class's
  -- number at the end, or a number that the kernel shows in decimal digits that read as the class's
  -- number in hexadecimal.
  pub create_cgroup_hierarchy-All :
      (classes : List PathClassConfig) (d d' : Disk)
      → create_cgroup_hierarchy files classes d ≡ (ok tt, d')
      → All (IsClassid files laws) classes
      → IsPlaced d' classes
      → All (HasClassid files laws d') classes
  unfolding create_cgroup_hierarchy
  create_cgroup_hierarchy-All [] d d' e n placed = tt
  create_cgroup_hierarchy-All (c ∷ cs) d d' e n placed =
      let (d₁, first, later) = create_cgroup_hierarchy-inverse c cs d d' e in
      let kept = create_cgroup_hierarchy-resolves cs d₁ d' later in
      let here : IsOnNetCls files laws d₁ c =
        λ dir r. placed.0 dir (resolves files laws c.cgroup_path dir d₁ d' kept r) in
      (
        create_cgroup_hierarchy-kept c cs d₁ d' later placed.1 placed.0
            (SetUp-HasClassid files laws c d d₁ n.0 here first),
        create_cgroup_hierarchy-All cs d₁ d' later n.1 placed.2,
      )
