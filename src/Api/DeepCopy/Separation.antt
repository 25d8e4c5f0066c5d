-- ===== src/Api/DeepCopy/Separation.antt =====
-- A deep copy has the value of its original and shares no cell with it.
use knative_serving_wasm.Prelude.{
  ℕ, zero, suc, ◌≤◌, ◌<◌, ◌≡◌, ◌∙◌, refl, sym, ap, subst, Option, none, some, [], ◌∷◌, length,
  arith,
}
use knative_serving_wasm.Api.Types.{Addressable, DuckStatus, ObjectMeta, WasmModule}
use knative_serving_wasm.Cells.{
  Memory, load, write, alloc, load-alloc, load-alloc_old, length-alloc, load-write_other,
}
use knative_serving_wasm.Api.DeepCopy.{
  ModuleStruct, Copiers, copy_cell, copy_address, with_address, copy_status_into, with_status,
  copy_module_into, copy_spec_into,
}

-- The value that a pointer refers to; nil is `none`.
abbrev pub address_value : Memory Addressable → Option ℕ → Option Addressable
address_value mem none = none
address_value mem (some p) = load mem p

abbrev pub module_value : Memory Addressable → ModuleStruct → WasmModule
module_value mem m = record {
  type_meta = m.type_meta;
  object_meta = m.object_meta;
  spec = m.spec;
  status = record { status = m.status.status; address = address_value mem m.status.address };
}

-- A pointer into the memory, and one past a point of it.
abbrev pub IsInside : Memory Addressable → Option ℕ → Type 0
IsInside mem none = Unit
IsInside mem (some p) = p < length mem

abbrev pub IsFresh : Memory Addressable → Option ℕ → Type 0
IsFresh mem none = Unit
IsFresh mem (some p) = length mem ≤ p

-- The copies that the libraries make are equal to what they copy.
pub record AreCopies (c : Copiers) : Type 0 where
  pub object_meta : (m : ObjectMeta) → c.copy_object_meta m ≡ m
  pub status : (s : DuckStatus) → c.copy_status s ≡ s
  pub addressable : (a : Addressable) → c.copy_addressable a ≡ a

-- The cells of one memory stand unchanged in another.
pub record Extends (mem mem' : Memory Addressable) : Type 0 where
  pub longer : length mem ≤ length mem'
  pub unchanged : (p : ℕ) → p < length mem → load mem' p ≡ load mem p

-- A copy of a struct, made in a memory `mem` and left in `mem'`.
pub record IsCopy (mem mem' : Memory Addressable) (m m' : ModuleStruct) : Type 0 where
  pub equal : module_value mem' m' ≡ module_value mem m
  pub extends : Extends mem mem'
  pub inside : IsInside mem' m'.status.address
  pub fresh : IsFresh mem m'.status.address

load-inside :
    (mem : Memory Addressable) (p : ℕ) → p < length mem → (a : Addressable) × (load mem p ≡ some a)
unfolding load
load-inside [] p h = absurd (omega arith)
load-inside (a ∷ mem) zero h = (a, refl)
load-inside (a ∷ mem) (suc p) h = load-inside mem p (omega arith)

module _ (c : Copiers) (copies : AreCopies c) where
  copy_address_lem :
      (q : Option ℕ) (mem : Memory Addressable)
      → IsInside mem q
      → (q' : Option ℕ) × (mem' : Memory Addressable) × (copy_address c q mem ≡ some (q', mem'))
        × (address_value mem' q' ≡ address_value mem q)
        × Extends mem mem'
        × IsInside mem' q'
        × IsFresh mem q'
  unfolding copy_address copy_cell
  copy_address_lem none mem h =
      (none, mem, refl, refl, record { longer = omega arith; unchanged = λ p _. refl }, tt, tt)
  copy_address_lem (some p) mem h =
      let (a, held) = load-inside mem p h in
      let b = c.copy_addressable a in
      let grown = length-alloc mem b in
      (
        some (length mem),
        (alloc b mem).1,
        ap (copy_cell c mem) held,
        load-alloc mem b ∙ (ap some (copies.addressable a) ∙ sym held),
        record { longer = omega arith; unchanged = load-alloc_old mem b },
        omega arith,
        omega arith,
      )

  -- Where the libraries' copies are equal to their originals, a copy of a WasmModule whose address
  -- lies in the memory succeeds. It has the value of the original, its address is new, and no cell
  -- of the memory is changed.
  pub copy_module_into-IsCopy :
      (m : ModuleStruct) (mem : Memory Addressable)
      → IsInside mem m.status.address
      → (m' : ModuleStruct) × (mem' : Memory Addressable) × (copy_module_into c m mem
          ≡ some (m', mem'))
        × IsCopy mem mem' m m'
  unfolding copy_module_into copy_status_into with_address with_status copy_spec_into
  copy_module_into-IsCopy m mem h =
      let (q, mem', made, same, extends, inside, fresh) = copy_address_lem m.status.address mem h in
      (
        record {
          type_meta = m.type_meta;
          object_meta = c.copy_object_meta m.object_meta;
          spec = m.spec;
          status = record { status = c.copy_status m.status.status; address = q };
        },
        mem',
        ap (λ r. with_status c m (with_address c m.status r)) made,
        record {
          equal = rw (same, copies.object_meta, copies.status) refl;
          extends = extends;
          inside = inside;
          fresh = fresh;
        },
      )

address_value-write :
    (mem mem' : Memory Addressable) (q : Option ℕ) (p : ℕ) (v : Addressable)
    → Extends mem mem'
    → IsInside mem q
    → length mem ≤ p
    → address_value (write mem' p v) q ≡ address_value mem q
address_value-write mem mem' none p v extends inside fresh = refl
address_value-write mem mem' (some q) p v extends inside fresh =
    load-write_other mem' q p v (omega arith) ∙ extends.unchanged q inside

-- A write to the address of a copy leaves the value of every WasmModule of the memory that the copy
-- was made in.
pub module_value-write :
    (mem mem' : Memory Addressable) (m m' other : ModuleStruct) (p : ℕ) (v : Addressable)
    → IsCopy mem mem' m m'
    → IsInside mem other.status.address
    → m'.status.address ≡ some p
    → module_value (write mem' p v) other ≡ module_value mem other
module_value-write mem mem' m m' other p v copy inside here =
    rw
      (address_value-write mem mem' other.status.address p v copy.extends inside
        (subst (IsFresh mem) here copy.fresh))
      refl

-- Where the libraries' copies are equal to their originals: whatever is written through the address
-- of a copy, the original, and every other WasmModule of the memory that the copy was made in, keeps
-- its value.
pub copy_module_into-write :
    (c : Copiers)
    → AreCopies c
    → (m m' other : ModuleStruct) (mem mem' : Memory Addressable) (p : ℕ) (v : Addressable)
    → IsInside mem m.status.address
    → IsInside mem other.status.address
    → copy_module_into c m mem ≡ some (m', mem')
    → m'.status.address ≡ some p
    → module_value (write mem' p v) other ≡ module_value mem other
copy_module_into-write c copies m m' other mem mem' p v inside other_inside made here =
    let (n, mem₁, made₁, copy) = copy_module_into-IsCopy c copies m mem inside in
    let same : (n, mem₁) ≡ (m', mem') = some-injective (sym made₁ ∙ made) in
    module_value-write mem mem' m m' other p v (subst (λ r. IsCopy mem r.1 m r.0) same copy)
      other_inside here
  where
    some-injective : {A : Type 0} {a b : A} → some a ≡ some b → a ≡ b
    some-injective h = cc
