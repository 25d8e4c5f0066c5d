-- ===== src/Api/DeepCopy.antt =====
-- The generated deep copies (zz_generated.deepcopy.go), over a memory that holds what the pointer
-- `Address` of a status refers to. The deep copies of metadata, of `duckv1.Status` and of the
-- pointed-to `duckv1.Addressable` are knative.dev's and Kubernetes': parameters on their values.
pub mod Separation
pub mod Items
pub mod Pointers
use knative_serving_wasm.Prelude.{
  ℕ, suc, ◌+◌, ◌<◌, ◌≡◌, Option, none, some, List, [], ◌∷◌, ◌++◌, length,
}
use knative_serving_wasm.Api.Types.{
  Addressable, DuckStatus, ObjectMeta, TypeMeta, ListMeta, WasmModuleSpec,
}
use knative_serving_wasm.Cells.{Memory, alloc, load}

-- The structs, with the pointer as such.
pub record StatusStruct : Type 0 where
  pub status : DuckStatus
  pub address : Option ℕ

pub record ModuleStruct : Type 0 where
  pub type_meta : TypeMeta
  pub object_meta : ObjectMeta
  pub spec : WasmModuleSpec
  pub status : StatusStruct

-- A nil slice is `none`.
pub record ListStruct : Type 0 where
  pub type_meta : TypeMeta
  pub list_meta : ListMeta
  pub items : Option (List ModuleStruct)

pub record Copiers : Type 0 where
  pub copy_object_meta : ObjectMeta → ObjectMeta
  pub copy_list_meta : ListMeta → ListMeta
  pub copy_status : DuckStatus → DuckStatus
  pub copy_addressable : Addressable → Addressable

-- `DeepCopyInto` of a spec.
unfoldable pub copy_spec_into : WasmModuleSpec → WasmModuleSpec
copy_spec_into s = s

-- `DeepCopy` of a pointer: nil is copied to nil.
unfoldable pub copy_spec : Option WasmModuleSpec → Option WasmModuleSpec
unfolding copy_spec_into
copy_spec none = none
copy_spec (some s) = some (copy_spec_into s)

module _ (c : Copiers) where
  -- The new cell of a copied address; a read of an address outside the memory is `none`.
  unfoldable pub copy_cell :
      Memory Addressable → Option Addressable → Option (Option ℕ × Memory Addressable)
  copy_cell mem none = none
  copy_cell mem (some a) = some (some (length mem), (alloc (c.copy_addressable a) mem).1)

  -- The address of a copied status: nil stays nil, and else it is a new cell with a copy of the old
  -- one.
  unfoldable pub copy_address :
      Option ℕ → Memory Addressable → Option (Option ℕ × Memory Addressable)
  copy_address none mem = some (none, mem)
  copy_address (some p) mem = copy_cell mem (load mem p)

  unfoldable pub with_address :
      StatusStruct
      → Option (Option ℕ × Memory Addressable)
      → Option (StatusStruct × Memory Addressable)
  with_address s none = none
  with_address s (some (address, mem')) =
      some (record { status = c.copy_status s.status; address = address }, mem')

  -- `DeepCopyInto` of a status.
  unfoldable pub copy_status_into :
      StatusStruct → Memory Addressable → Option (StatusStruct × Memory Addressable)
  copy_status_into s mem = with_address s (copy_address s.address mem)

  unfoldable pub with_status :
      ModuleStruct
      → Option (StatusStruct × Memory Addressable)
      → Option (ModuleStruct × Memory Addressable)
  with_status m none = none
  with_status m (some (status, mem')) = some (
    record {
      type_meta = m.type_meta;
      object_meta = c.copy_object_meta m.object_meta;
      spec = copy_spec_into m.spec;
      status = status;
    },
    mem',
  )

  -- `DeepCopyInto` of a WasmModule.
  unfoldable pub copy_module_into :
      ModuleStruct → Memory Addressable → Option (ModuleStruct × Memory Addressable)
  copy_module_into m mem = with_status m (copy_status_into m.status mem)

  unfoldable pub prepend :
      ModuleStruct
      → Option (List ModuleStruct × Memory Addressable)
      → Option (List ModuleStruct × Memory Addressable)
  prepend m none = none
  prepend m (some (ms, mem)) = some (m ∷ ms, mem)

  -- The loop over the items of a list.
  unfoldable pub copy_items :
      List ModuleStruct → Memory Addressable → Option (List ModuleStruct × Memory Addressable)
  unfolding prepend
  copy_items [] mem = some ([], mem)
  copy_items (m ∷ ms) mem = elim (copy_module_into m mem) [
    | none ↦ none
    | some (m', mem') ↦ prepend m' (copy_items ms mem')
  ]

  unfoldable pub with_items :
      ListStruct
      → Option (List ModuleStruct × Memory Addressable)
      → Option (ListStruct × Memory Addressable)
  with_items l none = none
  with_items l (some (items, mem)) =
      some (record l { list_meta = c.copy_list_meta l.list_meta; items = some items }, mem)

  unfoldable pub copy_items_of :
      ListStruct
      → Option (List ModuleStruct)
      → Memory Addressable
      → Option (ListStruct × Memory Addressable)
  copy_items_of l none mem = some (record l { list_meta = c.copy_list_meta l.list_meta }, mem)
  copy_items_of l (some items) mem = with_items l (copy_items items mem)

  -- `DeepCopyInto` of a WasmModuleList; nil items stay nil.
  unfoldable pub copy_list_into :
      ListStruct → Memory Addressable → Option (ListStruct × Memory Addressable)
  copy_list_into l mem = copy_items_of l l.items mem

-- `DeepCopy` by a pointer, for the types above: nil is copied to nil, and any other pointer to a new
-- struct that `DeepCopyInto` fills.
unfoldable pub deep_copy :
    {A : Type 0}
    → (A → Memory Addressable → Option (A × Memory Addressable))
    → Option A
    → Memory Addressable
    → Option (Option A × Memory Addressable)
deep_copy copy_into none mem = some (none, mem)
deep_copy copy_into (some m) mem = elim (copy_into m mem) [
  | none ↦ none
  | some (m', mem') ↦ some (some m', mem')
]
