-- ===== src/Api/DeepCopy/Pointers.antt =====
-- The deep copies by a pointer of each type, and as a `runtime.Object`.
use knative_serving_wasm.Prelude.{◌≡◌, refl, ap, Option, none, some}
use knative_serving_wasm.Api.Types.{Addressable}
use knative_serving_wasm.Cells.{Memory}
use knative_serving_wasm.Api.DeepCopy.{
  StatusStruct, ModuleStruct, ListStruct, Copiers, copy_status_into, copy_module_into,
  copy_list_into, deep_copy,
}
use knative_serving_wasm.Api.DeepCopy.Separation.{
  IsInside, AreCopies, IsCopy, copy_module_into-IsCopy,
}

-- `runtime.Object`, by the types of this package that implement it; a nil interface is `none`.
pub data Object : Type 0 where
  module_object : ModuleStruct → Object
  list_object : ListStruct → Object

-- `if c := …; c != nil { return c }; return nil`.
abbrev pub as_object :
    {A : Type 0}
    → (A → Object)
    → Option (Option A × Memory Addressable)
    → Option (Option Object × Memory Addressable)
as_object make none = none
as_object make (some (none, mem)) = some (none, mem)
as_object make (some (some c, mem)) = some (some (make c), mem)

module _ (c : Copiers) where
  -- `DeepCopy` and `DeepCopyObject` of a WasmModule.
  unfoldable pub deep_copy_module :
      Option ModuleStruct → Memory Addressable → Option (Option ModuleStruct × Memory Addressable)
  deep_copy_module = deep_copy (copy_module_into c)

  unfoldable pub deep_copy_module_object :
      Option ModuleStruct → Memory Addressable → Option (Option Object × Memory Addressable)
  unfolding deep_copy_module
  deep_copy_module_object m mem = as_object module_object (deep_copy_module m mem)

  -- Those of a WasmModuleList.
  unfoldable pub deep_copy_list :
      Option ListStruct → Memory Addressable → Option (Option ListStruct × Memory Addressable)
  deep_copy_list = deep_copy (copy_list_into c)

  unfoldable pub deep_copy_list_object :
      Option ListStruct → Memory Addressable → Option (Option Object × Memory Addressable)
  unfolding deep_copy_list
  deep_copy_list_object l mem = as_object list_object (deep_copy_list l mem)

  -- `DeepCopy` of a status.
  unfoldable pub deep_copy_status :
      Option StatusStruct → Memory Addressable → Option (Option StatusStruct × Memory Addressable)
  deep_copy_status = deep_copy (copy_status_into c)

  -- Where the libraries' copies are equal to their originals, `DeepCopyObject` of a WasmModule whose
  -- address lies in the memory gives a WasmModule that is a copy of it; nil gives nil.
  pub deep_copy_module_object-IsCopy :
      AreCopies c
      → (m : ModuleStruct) (mem : Memory Addressable) → IsInside mem m.status.address
      → (m' : ModuleStruct) × (mem' : Memory Addressable) × (deep_copy_module_object (some m) mem
          ≡ some (some (module_object m'), mem'))
        × IsCopy mem mem' m m'
        × (deep_copy_module_object none mem ≡ some (none, mem))
  unfolding deep_copy_module_object deep_copy_module deep_copy
  deep_copy_module_object-IsCopy copies m mem inside =
      let (m', mem', made, copy) = copy_module_into-IsCopy c copies m mem inside in
      (
        m',
        mem',
        ap
            (λ r.
              as_object module_object
                (elim r [ none ↦ none | some (n, mem₁) ↦ some (some n, mem₁) ]))
            made,
        copy,
        refl,
      )
