-- ===== src/Api/DeepCopy/Items.antt =====
-- The deep copy of a list: every item is copied, and no cell of the memory is changed.
use knative_serving_wasm.Prelude.{
  ℕ, ◌≡◌, ◌∙◌, refl, ap, Option, none, some, List, [], ◌∷◌, map, arith,
}
use knative_serving_wasm.Api.Types.{Addressable}
use knative_serving_wasm.Cells.{Memory}
use knative_serving_wasm.Api.DeepCopy.{
  ModuleStruct, ListStruct, Copiers, prepend, copy_module_into, copy_items, with_items,
  copy_items_of, copy_list_into,
}
use knative_serving_wasm.Api.DeepCopy.Separation.{
  address_value, module_value, IsInside, IsFresh, AreCopies, Extends, copy_module_into-IsCopy,
}

abbrev pub AllInside : Memory Addressable → List ModuleStruct → Type 0
AllInside mem [] = Unit
AllInside mem (m ∷ ms) = IsInside mem m.status.address × AllInside mem ms

abbrev pub AllFresh : Memory Addressable → List ModuleStruct → Type 0
AllFresh mem [] = Unit
AllFresh mem (m ∷ ms) = IsFresh mem m.status.address × AllFresh mem ms

-- Copies of the items of a list, made in a memory `mem` and left in `mem'`: they have the values of
-- the items, in their order, and addresses that are new; the cells of `mem` are unchanged.
pub record AreItemCopies (mem mem' : Memory Addressable) (ms ms' : List ModuleStruct) : Type 0 where
  pub equal : map (module_value mem') ms' ≡ map (module_value mem) ms
  pub extends : Extends mem mem'
  pub inside : AllInside mem' ms'
  pub fresh : AllFresh mem ms'

-- The items of a copied list, which are nil or copies.
abbrev pub Copied :
    Memory Addressable
    → Memory Addressable
    → Option (List ModuleStruct)
    → Option (List ModuleStruct)
    → Type 0
Copied mem mem' none items' = (items' ≡ none) × (mem' ≡ mem)
Copied mem mem' (some ms) items' =
    (ms' : List ModuleStruct) × (items' ≡ some ms') × AreItemCopies mem mem' ms ms'

abbrev pub ItemsInside : Memory Addressable → Option (List ModuleStruct) → Type 0
ItemsInside mem none = Unit
ItemsInside mem (some ms) = AllInside mem ms

module _ {mem mem' : Memory Addressable} (extends : Extends mem mem') where
  address_value-Extends :
      (q : Option ℕ) → IsInside mem q → address_value mem' q ≡ address_value mem q
  address_value-Extends none inside = refl
  address_value-Extends (some q) inside = extends.unchanged q inside

  module_value-Extends :
      (m : ModuleStruct) → IsInside mem m.status.address → module_value mem' m ≡ module_value mem m
  module_value-Extends m inside = rw (address_value-Extends m.status.address inside) refl

  map-Extends :
      (ms : List ModuleStruct)
      → AllInside mem ms
      → map (module_value mem') ms ≡ map (module_value mem) ms
  map-Extends [] inside = refl
  map-Extends (m ∷ ms) (first, rest) =
      rw (module_value-Extends m first) (ap (λ r. module_value mem m ∷ r) (map-Extends ms rest))

  IsInside-Extends : (q : Option ℕ) → IsInside mem q → IsInside mem' q
  IsInside-Extends none inside = tt
  IsInside-Extends (some q) inside = omega (arith, extends.longer)

  AllInside-Extends : (ms : List ModuleStruct) → AllInside mem ms → AllInside mem' ms
  AllInside-Extends [] inside = tt
  AllInside-Extends (m ∷ ms) (first, rest) =
      (IsInside-Extends m.status.address first, AllInside-Extends ms rest)

  IsFresh-Extends : (q : Option ℕ) → IsFresh mem' q → IsFresh mem q
  IsFresh-Extends none fresh = tt
  IsFresh-Extends (some q) fresh = omega (arith, extends.longer)

  AllFresh-Extends : (ms : List ModuleStruct) → AllFresh mem' ms → AllFresh mem ms
  AllFresh-Extends [] fresh = tt
  AllFresh-Extends (m ∷ ms) (first, rest) =
      (IsFresh-Extends m.status.address first, AllFresh-Extends ms rest)

  Extends-Extends : {mem'' : Memory Addressable} → Extends mem' mem'' → Extends mem mem''
  Extends-Extends later = record {
    longer = omega (arith, extends.longer, later.longer);
    unchanged =
        λ p inside. later.unchanged p (omega (arith, extends.longer)) ∙ extends.unchanged p inside;
  }

module _ (c : Copiers) (copies : AreCopies c) where
  copy_items_cons :
      (m m' : ModuleStruct) (ms ms' : List ModuleStruct) (mem mem₁ mem₂ : Memory Addressable)
      → copy_module_into c m mem ≡ some (m', mem₁)
      → copy_items c ms mem₁ ≡ some (ms', mem₂)
      → copy_items c (m ∷ ms) mem ≡ some (m' ∷ ms', mem₂)
  unfolding copy_items prepend
  copy_items_cons m m' ms ms' mem mem₁ mem₂ made others = ground arith

  pub copy_items-AreItemCopies :
      (ms : List ModuleStruct) (mem : Memory Addressable)
      → AllInside mem ms
      → (ms' : List ModuleStruct) × (mem' : Memory Addressable) × (copy_items c ms mem
          ≡ some (ms', mem'))
        × AreItemCopies mem mem' ms ms'
  unfolding copy_items
  copy_items-AreItemCopies [] mem inside = (
    [],
    mem,
    refl,
    record {
      equal = refl;
      extends = record { longer = omega arith; unchanged = λ p _. refl };
      inside = tt;
      fresh = tt;
    },
  )
  copy_items-AreItemCopies (m ∷ ms) mem (first, rest) =
      let (m', mem₁, made, copy) = copy_module_into-IsCopy c copies m mem first in
      let (ms', mem₂, others, items) =
        copy_items-AreItemCopies ms mem₁ (AllInside-Extends copy.extends ms rest) in
      (
        m' ∷ ms',
        mem₂,
        copy_items_cons m m' ms ms' mem mem₁ mem₂ made others,
        record {
          equal =
              ap (λ v. v ∷ map (module_value mem₂) ms')
                (module_value-Extends items.extends m' copy.inside ∙ copy.equal)
              ∙ ap (λ r. module_value mem m ∷ r) (items.equal ∙ map-Extends copy.extends ms rest);
          extends = Extends-Extends copy.extends items.extends;
          inside = (IsInside-Extends items.extends m'.status.address copy.inside, items.inside);
          fresh = (copy.fresh, AllFresh-Extends copy.extends ms' items.fresh);
        },
      )

  copy_items_of-Copied :
      (l : ListStruct) (items : Option (List ModuleStruct)) (mem : Memory Addressable)
      → l.items ≡ items
      → ItemsInside mem items
      → (l' : ListStruct) × (mem' : Memory Addressable) × (copy_items_of c l items mem
          ≡ some (l', mem'))
        × (l'.type_meta ≡ l.type_meta)
        × Copied mem mem' items l'.items
  unfolding copy_items_of with_items
  copy_items_of-Copied l none mem here inside = (_, mem, refl, refl, (here, refl))
  copy_items_of-Copied l (some ms) mem here inside =
      let (ms', mem', made, items) = copy_items-AreItemCopies ms mem inside in
      (
        record l { list_meta = c.copy_list_meta l.list_meta; items = some ms' },
        mem',
        ap (with_items c l) made,
        refl,
        (ms', refl, items),
      )

  -- Where the libraries' copies are equal to their originals, the copy of a WasmModuleList whose
  -- addresses lie in the memory succeeds. Nil items stay nil; else the items of the copy have the
  -- values of the items, in their order, their addresses are new, and no cell of the memory is
  -- changed. The type metadata is the same.
  pub copy_list_into-Copied :
      (l : ListStruct) (mem : Memory Addressable)
      → ItemsInside mem l.items
      → (l' : ListStruct) × (mem' : Memory Addressable) × (copy_list_into c l mem ≡ some (l', mem'))
        × (l'.type_meta ≡ l.type_meta)
        × Copied mem mem' l.items l'.items
  unfolding copy_list_into
  copy_list_into-Copied l mem inside = copy_items_of-Copied l l.items mem refl inside
