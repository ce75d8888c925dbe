-- ===== src/Config/DeepCopy/Regions.antt =====
-- What an allocation and a write leave of a region, and how two memories that are the same in a range of
-- cells compose.
use gardener_extension_shoot.Base.{◌≡◌, refl, ◌∙◌, ℕ, ◌+◌, ◌≤◌, ◌<◌, some, arith}
use gardener_extension_shoot.Config.Memory.{Region, Memory, Sizes, allocate, write}
use gardener_extension_shoot.Config.Layout.{SameIn, Within}

abbrev pub nowhere : Sizes
nowhere = record { selectors = 0; patches = 0; packs = 0 }

module _ {A : Type 0} (v : A) (r : Region A) where
  pub allocate-kept : (n a : ℕ) → a < r.next → (allocate n v r).cell a ≡ r.cell a
  unfolding allocate
  allocate-kept n a h = ground arith

  pub allocate-new : (n a : ℕ) → r.next ≤ a → a < r.next + n → (allocate n v r).cell a ≡ some v
  unfolding allocate
  allocate-new n a h k = ground arith

  pub allocate-next : (n : ℕ) → (allocate n v r).next ≡ r.next + n
  unfolding allocate
  allocate-next n = refl

  pub write_self : (a : ℕ) → (write a v r).cell a ≡ some v
  unfolding write
  write_self a = ground arith

  pub write-other : (a b : ℕ) → b < a → (write a v r).cell b ≡ r.cell b
  unfolding write
  write-other a b h = ground arith

  pub write-next : (a : ℕ) → (write a v r).next ≡ r.next
  unfolding write
  write-next a = refl

module _ {S : Type 0} where
  pub SameIn-refl : (lo hi : Sizes) (h : Memory S) → SameIn lo hi h h
  SameIn-refl lo hi h = record {
    selectors = λ a from to. refl;
    patches = λ a from to. refl;
    packs = λ a from to. refl;
  }

  pub SameIn-trans :
      (lo hi : Sizes) (h t u : Memory S) → SameIn lo hi h t → SameIn lo hi t u → SameIn lo hi h u
  SameIn-trans lo hi h t u s s' = record {
    selectors = λ a from to. s'.selectors a from to ∙ s.selectors a from to;
    patches = λ a from to. s'.patches a from to ∙ s.patches a from to;
    packs = λ a from to. s'.packs a from to ∙ s.packs a from to;
  }

  -- What is the same in a range is the same in a narrower one.
  pub SameIn-narrow :
      (lo hi lo' hi' : Sizes) (h t : Memory S)
      → Within lo' hi' lo hi
      → SameIn lo hi h t
      → SameIn lo' hi' h t
  SameIn-narrow lo hi lo' hi' h t w s = record {
    selectors = λ a from to. s.selectors a (omega arith) (omega arith);
    patches = λ a from to. s.patches a (omega arith) (omega arith);
    packs = λ a from to. s.packs a (omega arith) (omega arith);
  }
