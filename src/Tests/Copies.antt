-- ===== src/Tests/Copies.antt =====
-- The theorems on deep copies, at concrete data.
use knative_serving_wasm.Prelude.{◌++◌, ◌≡◌, refl, none, some, [], ◌∷◌, arith}
use knative_serving_wasm.Api.DeepCopy.{
  Copiers, ModuleStruct, copy_cell, copy_address, with_address, copy_status_into, with_status,
  copy_spec_into, copy_module_into,
}
use knative_serving_wasm.Cells.{load, write, Memory}
use knative_serving_wasm.Api.Types.{Addressable, WasmModule}
use knative_serving_wasm.Api.DeepCopy.Separation.{
  AreCopies, module_value, copy_module_into-write, IsCopy, copy_module_into-IsCopy,
}
use knative_serving_wasm.Service.{address_of}
use knative_serving_wasm.Tests.Cluster.{services, module_with}

abbrev greeter : WasmModule
greeter = module_with 3 3 [] none

abbrev copiers : Copiers
copiers = record {
  copy_object_meta = λ m. m;
  copy_list_meta = λ m. m;
  copy_status = λ s. s;
  copy_addressable = λ a. a;
}

abbrev struct : ModuleStruct
struct = record {
  type_meta = greeter.type_meta;
  object_meta = greeter.object_meta;
  spec = greeter.spec;
  status = record { status = greeter.status.status; address = some 0 };
}

abbrev memory : Memory Addressable
memory = address_of services greeter ∷ []

copy_module_into-IsCopy_example :
    (m' : ModuleStruct) × (mem' : Memory Addressable) × (copy_module_into copiers struct memory
      ≡ some (m', mem'))
    × IsCopy memory mem' struct m'
copy_module_into-IsCopy_example =
    copy_module_into-IsCopy copiers
      (record { object_meta = λ m. refl; status = λ s. refl; addressable = λ a. refl }) struct
      memory (omega arith)

abbrev copies : AreCopies copiers
copies = record { object_meta = λ m. refl; status = λ s. refl; addressable = λ a. refl }

-- The copy of the struct, with its address in the next cell.
abbrev copied : ModuleStruct
copied = record struct { status = record { status = greeter.status.status; address = some 1 } }

-- What is written through the copy's address.
abbrev blank : Addressable
blank = record { address_name = none; url = none; ca_certs = none; audience = none }

copy_made : copy_module_into copiers struct memory ≡ some (copied, memory ++ memory)
unfolding copy_module_into copy_status_into copy_address copy_cell with_address with_status
    copy_spec_into load
copy_made = refl

copy_module_into-write_example :
    module_value (write (memory ++ memory) 1 blank) struct ≡ module_value memory struct
copy_module_into-write_example =
    copy_module_into-write copiers copies struct copied struct memory (memory ++ memory) 1 blank
      (omega arith) (omega arith) copy_made refl
