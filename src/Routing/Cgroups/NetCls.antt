-- ===== src/Routing/Cgroups/NetCls.antt =====
-- The laws of what setupOneClass (routing/routing_policy_manager.cpp) calls: the file system, and the
-- kernel's net_cls.classid files.
use wifi_offload_rpi.Prelude.{Option, Text, [], some, true, ℕ, ◌++◌, ◌<◌, ◌^◌, ◌∷◌, ◌≡◌}
use wifi_offload_rpi.Routing.Cgroups.{Files, classid_text}
use wifi_offload_rpi.Wpa.Parse.Decimal.{decimal}

-- net_cls: the kernel keeps a number for every cgroup. `on_net_cls` says which paths name classid
-- files of a mounted net_cls hierarchy, and `same_file` which of these name one file: no call of the
-- daemon mounts or links, so neither changes. `classid_of` is the number of a classid file that is
-- there; such a file shows its number in decimal and takes one in hexadecimal.
pub record ClassidLaws (files : Files) : Type 1 where
  pub on_net_cls : Text → Type 0
  pub same_file : Text → Text → Type 0
  pub classid_of : Text → files.Disk → Option ℕ
  pub shown :
      (p t : Text) (d : files.Disk)
      → on_net_cls p
      → files.read_file p d ≡ some t
      → (n : ℕ) × (classid_of p d ≡ some n) × (t ≡ decimal n ++ 10 ∷ [])
  -- Until a stream's buffer is written, no call changes the number of a file that is there.
  pub made :
      (dir q : Text) (n : ℕ) (d : files.Disk)
      → on_net_cls q
      → classid_of q d ≡ some n
      → classid_of q (files.create_directories dir d).1 ≡ some n
  pub opened_kept :
      (p q : Text) (n : ℕ) (d d' : files.Disk)
      → on_net_cls q
      → files.open_file p d ≡ some d'
      → classid_of q d ≡ some n
      → classid_of q d' ≡ some n
  pub inserted_kept :
      (p q : Text) (m n : ℕ) (d : files.Disk)
      → on_net_cls q
      → classid_of q d ≡ some n
      → classid_of q (files.insert_text p (classid_text m) d).1 ≡ some n
  -- The kernel refuses no number of 32 bits that is written to a classid file, and takes it.
  pub written :
      (p : Text) (n : ℕ) (d d₁ d₂ : files.Disk)
      → on_net_cls p
      → n < 2 ^ 32
      → files.open_file p d ≡ some d₁
      → files.insert_text p (classid_text n) d₁ ≡ (true, d₂)
      → (files.close_file p d₂).0 ≡ true
  pub taken :
      (p : Text) (n : ℕ) (d d₁ d₂ d' : files.Disk)
      → on_net_cls p
      → n < 2 ^ 32
      → files.open_file p d ≡ some d₁
      → files.insert_text p (classid_text n) d₁ ≡ (true, d₂)
      → files.close_file p d₂ ≡ (true, d')
      → classid_of p d' ≡ some n
  pub elsewhere :
      (p q : Text) (n : ℕ) (d : files.Disk)
      → on_net_cls q
      → (same_file q p → ⊥)
      → classid_of q d ≡ some n
      → classid_of q (files.close_file p d).1 ≡ some n
  -- A path that is resolved resolves to the same afterwards.
  pub made_resolves :
      (dir q r : Text) (d : files.Disk)
      → files.canonical q d ≡ some r
      → files.canonical q (files.create_directories dir d).1 ≡ some r
  pub opened_resolves :
      (p q r : Text) (d d' : files.Disk)
      → files.open_file p d ≡ some d'
      → files.canonical q d ≡ some r
      → files.canonical q d' ≡ some r
  pub inserted_resolves :
      (p t q r : Text) (d : files.Disk)
      → files.canonical q d ≡ some r
      → files.canonical q (files.insert_text p t d).1 ≡ some r
  pub closed_resolves :
      (p q r : Text) (d : files.Disk)
      → files.canonical q d ≡ some r
      → files.canonical q (files.close_file p d).1 ≡ some r
