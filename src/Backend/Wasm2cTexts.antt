-- ===== src/Backend/Wasm2cTexts.antt =====
-- The texts that `apply_backend` of backends/rlbox_wasm2c/apply_backend.py replaces, file by file.
use interspec_typed_allocato.Prelude.{◌∷◌, [], List, Text, codes, concat}
use interspec_typed_allocato.Backend.{Patch}

abbrev pub cmake_patches : Text → Text → List Patch
cmake_patches rlbox_commit wabt_commit =
    record {
      path = codes "CMakeLists.txt";
      old = concat (
          codes "FetchContent_Declare(\n"
          ∷ codes "  rlbox\n"
          ∷ codes "  GIT_REPOSITORY https://github.com/PLSysSec/rlbox.git\n"
          ∷ codes "  GIT_TAG main)"
          ∷ []);
      new = concat (
          codes "FetchContent_Declare(\n"
          ∷ codes "  rlbox\n"
          ∷ codes "  GIT_REPOSITORY https://github.com/PLSysSec/rlbox.git\n"
          ∷ codes "  GIT_TAG "
          ∷ rlbox_commit
          ∷ codes ")"
          ∷ []);
    }
    ∷ record {
      path = codes "CMakeLists.txt";
      old = concat (
          codes "FetchContent_Declare(\n"
          ∷ codes "  wasm2c_compiler\n"
          ∷ codes "  GIT_REPOSITORY https://github.com/WebAssembly/wabt/\n"
          ∷ codes "  GIT_TAG main)"
          ∷ []);
      new = concat (
          codes "FetchContent_Declare(\n"
          ∷ codes "  wasm2c_compiler\n"
          ∷ codes "  GIT_REPOSITORY https://github.com/WebAssembly/wabt/\n"
          ∷ codes "  GIT_TAG "
          ∷ wabt_commit
          ∷ codes ")"
          ∷ []);
    }
    ∷ []

abbrev pub mem_header_patches : List Patch
mem_header_patches =
    record {
      path = codes "include/wasm2c_rt_mem.h";
      old = concat (
          codes "  typedef struct w2c_env\n"
          ∷ codes "  {\n"
          ∷ codes "    wasm_rt_memory_t* sandbox_memory_info;\n"
          ∷ codes "    wasm_rt_funcref_table_t* sandbox_callback_table;\n"
          ∷ codes "  } w2c_env;"
          ∷ []);
      new = concat (
          codes "  typedef uint32_t (*interspec_wasm_alloc_fn)(void*, uint32_t, uint32_t);\n"
          ∷ codes "  typedef uint32_t (*interspec_wasm_release_fn)(void*, uint32_t);\n"
          ∷ codes "  typedef uint32_t (*interspec_wasm_size_fn)(void*, uint32_t);\n"
          ∷ codes "  typedef uint32_t (*interspec_wasm_reallocate_fn)(void*, uint32_t, uint32_t);\n"
          ∷ codes "\n"
          ∷ codes "  typedef struct w2c_env\n"
          ∷ codes "  {\n"
          ∷ codes "    wasm_rt_memory_t* sandbox_memory_info;\n"
          ∷ codes "    wasm_rt_funcref_table_t* sandbox_callback_table;\n"
          ∷ codes "    void* interspec_context;\n"
          ∷ codes "    interspec_wasm_alloc_fn interspec_allocate;\n"
          ∷ codes "    interspec_wasm_release_fn interspec_release;\n"
          ∷ codes "    interspec_wasm_size_fn interspec_size;\n"
          ∷ codes "    interspec_wasm_reallocate_fn interspec_reallocate;\n"
          ∷ codes "  } w2c_env;"
          ∷ []);
    }
    ∷ []

abbrev pub sandbox_patches : List Patch
sandbox_patches =
    record {
      path = codes "include/rlbox_wasm2c_sandbox.hpp";
      old = concat (
          codes "  using T_PointerType = uint32_t;\n"
          ∷ codes "  using T_ShortType = int16_t;\n"
          ∷ codes "\n"
          ∷ codes "private:"
          ∷ []);
      new = concat (
          codes "  using T_PointerType = uint32_t;\n"
          ∷ codes "  using T_ShortType = int16_t;\n"
          ∷ codes "\n"
          ∷ codes "  T_PointerType reserve_typed_arena(size_t size)\n"
          ∷ codes "  {\n"
          ∷ codes "    return impl_malloc_in_sandbox(size);\n"
          ∷ codes "  }\n"
          ∷ codes "\n"
          ∷ codes "  T_PointerType sandbox_address(const void* ptr) const\n"
          ∷ codes "  {\n"
          ∷ codes "    return impl_get_sandboxed_pointer<void*>(ptr);\n"
          ∷ codes "  }\n"
          ∷ codes "\n"
          ∷ codes "  void set_interspec_runtime(void* context,\n"
          ∷ codes "                             ::interspec_wasm_alloc_fn allocate,\n"
          ∷ codes "                             ::interspec_wasm_release_fn release,\n"
          ∷ codes "                             ::interspec_wasm_size_fn size,\n"
          ∷ codes "                             ::interspec_wasm_reallocate_fn reallocate)\n"
          ∷ codes "  {\n"
          ∷ codes "    sandbox_memory_env.interspec_context = context;\n"
          ∷ codes "    sandbox_memory_env.interspec_allocate = allocate;\n"
          ∷ codes "    sandbox_memory_env.interspec_release = release;\n"
          ∷ codes "    sandbox_memory_env.interspec_size = size;\n"
          ∷ codes "    sandbox_memory_env.interspec_reallocate = reallocate;\n"
          ∷ codes "  }\n"
          ∷ codes "\n"
          ∷ codes "private:"
          ∷ []);
    }
    ∷ []
