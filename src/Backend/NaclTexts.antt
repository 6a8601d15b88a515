-- ===== src/Backend/NaclTexts.antt =====
-- The texts that `apply_backend` of backends/rlbox_nacl/apply_backend.py replaces, in the headers.
use interspec_typed_allocato.Prelude.{◌∷◌, [], List, codes, concat}
use interspec_typed_allocato.Backend.{Patch}

abbrev pub backend_patches : List Patch
backend_patches =
    record {
      path = codes "include/rlbox_nacl_sandbox.hpp";
      old = concat (codes "#include <cstdint>\n" ∷ codes "#include <iostream>" ∷ []);
      new = concat (
          codes "#include <cstdint>\n"
          ∷ codes "#include <cstring>\n"
          ∷ codes "#include <iostream>"
          ∷ []);
    }
    ∷ record {
      path = codes "include/rlbox_nacl_sandbox.hpp";
      old = concat (codes "namespace rlbox {\n" ∷ codes "\n" ∷ codes "namespace detail {" ∷ []);
      new = concat (
          codes "namespace rlbox {\n"
          ∷ codes "\n"
          ∷ codes "using std::memcpy;\n"
          ∷ codes "\n"
          ∷ codes "namespace detail {"
          ∷ []);
    }
    ∷ record {
      path = codes "include/rlbox_nacl_sandbox.hpp";
      old = concat (
          codes "  using T_PointerType = uint32_t;\n"
          ∷ codes "  using T_ShortType = short;\n"
          ∷ codes "\n"
          ∷ codes "private:"
          ∷ []);
      new = concat (
          codes "  using T_PointerType = uint32_t;\n"
          ∷ codes "  using T_ShortType = short;\n"
          ∷ codes "\n"
          ∷ codes "  T_PointerType reserve_typed_arena(size_t size)\n"
          ∷ codes "  {\n"
          ∷ codes "    return static_cast<T_PointerType>(reserveTypedArena(sandbox, size));\n"
          ∷ codes "  }\n"
          ∷ codes "\n"
          ∷ codes "  T_PointerType sandbox_address(const void* ptr) const\n"
          ∷ codes "  {\n"
          ∷ codes "    return static_cast<T_PointerType>(\n"
          ∷ codes "      getSandboxedAddress(sandbox, reinterpret_cast<uintptr_t>(ptr)));\n"
          ∷ codes "  }\n"
          ∷ codes "\n"
          ∷ codes "  uintptr_t callback_program_counter() const\n"
          ∷ codes "  {\n"
          ∷ codes "    /* P7a authorizes the instruction that returns from this syscall. */\n"
          ∷ codes "    return getCallbackNewProgramCounter(sandbox);\n"
          ∷ codes "  }\n"
          ∷ codes "\n"
          ∷ codes "  uintptr_t callback_new_program_counter() const\n"
          ∷ codes "  {\n"
          ∷ codes "    return getCallbackNewProgramCounter(sandbox);\n"
          ∷ codes "  }\n"
          ∷ codes "\n"
          ∷ codes "  uint32_t callback_slot_for_key(const void* key) const\n"
          ∷ codes "  {\n"
          ∷ codes "    RLBOX_ACQUIRE_SHARED_GUARD(lock, callback_mutex);\n"
          ∷ codes "    for (uint32_t i = 0; i < MAX_CALLBACKS; ++i) {\n"
          ∷ codes "      if (callback_unique_keys[i] == key) return i;\n"
          ∷ codes "    }\n"
          ∷ codes "    return std::numeric_limits<uint32_t>::max();\n"
          ∷ codes "  }\n"
          ∷ codes "\n"
          ∷ codes "  uintptr_t lookup_symbol_address(const char* name)\n"
          ∷ codes "  {\n"
          ∷ codes "    return reinterpret_cast<uintptr_t>(impl_lookup_symbol(name));\n"
          ∷ codes "  }\n"
          ∷ codes "\n"
          ∷ codes "private:"
          ∷ []);
    }
    ∷ []

abbrev pub sel_ldr_patches : List Patch
sel_ldr_patches =
    record {
      path = codes "nacl_rlbox/native_client/src/trusted/service_runtime/sel_ldr.h";
      old = concat (
          codes "  uintptr_t                 break_addr;   /* user addr */\n"
          ∷ codes "  /* data_end <= break_addr is an invariant */"
          ∷ []);
      new = concat (
          codes "  uintptr_t                 break_addr;   /* user addr */\n"
          ∷ codes "  /* data_end <= break_addr is an invariant */\n"
          ∷ codes "\n"
          ∷ codes "  /* T-managed arena that remains readable/writable by U. */\n"
          ∷ codes "  uintptr_t                 typed_arena_start;\n"
          ∷ codes "  size_t                    typed_arena_size;"
          ∷ []);
    }
    ∷ []

abbrev pub dyn_header_patches : List Patch
dyn_header_patches =
    record {
      path = codes "nacl_rlbox/native_client/src/trusted/dyn_ldr/dyn_ldr_lib.h";
      old = codes "\tsize_t callbackParamsAlreadyRead;\n";
      new = concat (
          codes "\tsize_t callbackParamsAlreadyRead;\n"
          ∷ codes "\t/* Trusted NaCl execution state captured at callback syscall entry. */\n"
          ∷ codes "\tuintptr_t callbackProgramCounter;\n"
          ∷ codes "\tuintptr_t callbackNewProgramCounter;\n"
          ∷ []);
    }
    ∷ record {
      path = codes "nacl_rlbox/native_client/src/trusted/dyn_ldr/dyn_ldr_lib.h";
      old = concat (
          codes "unsigned long getSandboxMemoryBase(NaClSandbox* sandbox);\n"
          ∷ codes "\n"
          ∷ codes "void* mallocInSandbox"
          ∷ []);
      new = concat (
          codes "unsigned long getSandboxMemoryBase(NaClSandbox* sandbox);\n"
          ∷ codes "uintptr_t reserveTypedArena(NaClSandbox* sandbox, size_t size);\n"
          ∷ codes "uintptr_t getCallbackProgramCounter(NaClSandbox* sandbox);\n"
          ∷ codes "uintptr_t getCallbackNewProgramCounter(NaClSandbox* sandbox);\n"
          ∷ codes "\n"
          ∷ codes "void* mallocInSandbox"
          ∷ []);
    }
    ∷ []
