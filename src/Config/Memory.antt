-- ===== src/Config/Memory.antt =====
-- The memory in which the structs of pkg/apis/config lie, as far as the generated code reads and writes
-- it: selectors behind pointers, and the elements of slices at addresses that follow one another.
use gardener_extension_shoot.Base.{
  ◌≡◌, ℕ, ◌+◌, ◌≤◌, ◌<◌, suc, ◌&&◌, Option, none, some, Str, leb, eqb, if◌then◌else◌,
}

-- A slice that is not nil: where its elements start, and how many there are.
abbrev pub Slice : Type 0
Slice = Option (ℕ × ℕ)

-- The words of a `PatchSpec`, of either version, in the order of its fields: `ResourceRef`, `Target`.
pub record PatchCell : Type 0 where
  pub word0 : Str
  pub word1 : Option ℕ

-- The words of a `Pack`, of either version: `Name`, `Version`, `Patches`.
pub record PackCell : Type 0 where
  pub word0 : Str
  pub word1 : Str
  pub word2 : Slice

-- The addresses up to `next` are allocated.
pub record Region (A : Type 0) : Type 0 where
  pub next : ℕ
  pub cell : ℕ → Option A

pub record Memory (S : Type 0) : Type 0 where
  pub selectors : Region S
  pub patches : Region PatchCell
  pub packs : Region PackCell

-- How far each region is allocated.
pub record Sizes : Type 0 where
  pub selectors : ℕ
  pub patches : ℕ
  pub packs : ℕ

abbrev pub sizes : {S : Type 0} → Memory S → Sizes
sizes h = record { selectors = h.selectors.next; patches = h.patches.next; packs = h.packs.next }

-- The words of a `PackConfig`: its metadata, which nothing here reads, and the slice of its `Spec`.
pub record ConfigCell (Meta : Type 0) : Type 0 where
  pub word0 : Meta
  pub word1 : Slice

module _ {A : Type 0} where
  -- `make` of `n` elements, or `new` of one, each of which has the given value.
  unfoldable pub allocate : ℕ → A → Region A → Region A
  allocate n v r = record {
    next = r.next + n;
    cell = λ a. if leb r.next a && leb (suc a) (r.next + n) then some v else r.cell a;
  }

  unfoldable pub write : ℕ → A → Region A → Region A
  write a v r = record r { cell = λ b. if eqb b a then some v else r.cell b }

  -- Everything below the address is the same in the other region, which has as much allocated or more.
  pub record Keeps (n : ℕ) (r t : Region A) : Type 0 where
    pub grows : r.next ≤ t.next
    pub kept : (a : ℕ) → a < n → t.cell a ≡ r.cell a

-- A computation over the memory; `none` is a fault, such as a read through a dangling pointer.
abbrev pub M : Type 0 → Type 0 → Type 0
M S A = Memory S → Option (A × Memory S)

infixl 5 ◌>>=◌
abbrev pub ◌>>=◌ : {S A B : Type 0} → M S A → (A → M S B) → M S B
◌>>=◌ m f h = elim (m h) [ none ↦ none | some (a, h') ↦ f a h' ]

abbrev pub ret : {S A : Type 0} → A → M S A
ret a h = some (a, h)

infixl 5 ◌>>◌
abbrev pub ◌>>◌ : {S B : Type 0} → M S (Unit {0}) → M S B → M S B
m >> k = m >>= λ _. k
