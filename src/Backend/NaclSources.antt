-- ===== src/Backend/NaclSources.antt =====
-- The texts that `apply_backend` of backends/rlbox_nacl/apply_backend.py replaces, in the C sources.
use interspec_typed_allocato.Prelude.{◌∷◌, [], List, codes, concat}
use interspec_typed_allocato.Backend.{Patch}

abbrev pub dyn_source_patches : List Patch
dyn_source_patches =
    record {
      path = codes "nacl_rlbox/native_client/src/trusted/dyn_ldr/dyn_ldr_lib.c";
      old = codes "  threadData->callbackParamsAlreadyRead = 0;\n";
      new = concat (
          codes "  threadData->callbackParamsAlreadyRead = 0;\n"
          ∷ codes "  threadData->callbackProgramCounter = 0;\n"
          ∷ codes "  threadData->callbackNewProgramCounter = 0;\n"
          ∷ []);
    }
    ∷ record {
      path = codes "nacl_rlbox/native_client/src/trusted/dyn_ldr/dyn_ldr_lib.c";
      old = concat (
          codes "unsigned long getSandboxMemoryBase(NaClSandbox* sandbox)\n"
          ∷ codes "{\n"
          ∷ codes "  return sandbox->nap->mem_start;\n"
          ∷ codes "}\n"
          ∷ codes "\n"
          ∷ codes
              "/********************** \"Function call stub\" helpers *****************************/"
          ∷ []);
      new = concat (
          codes "unsigned long getSandboxMemoryBase(NaClSandbox* sandbox)\n"
          ∷ codes "{\n"
          ∷ codes "  return sandbox->nap->mem_start;\n"
          ∷ codes "}\n"
          ∷ codes "\n"
          ∷ codes "uintptr_t reserveTypedArena(NaClSandbox* sandbox, size_t size)\n"
          ∷ codes "{\n"
          ∷ codes "  if (size == 0 || sandbox->nap->typed_arena_size != 0) return 0;\n"
          ∷ codes "\n"
          ∷ codes "  size = NaClRoundAllocPage(size);\n"
          ∷ codes "  uintptr_t addr = (uintptr_t) NaClSysMmapIntern(\n"
          ∷ codes "    sandbox->nap,\n"
          ∷ codes "    (void *) sandbox->nap->data_start,\n"
          ∷ codes "    size,\n"
          ∷ codes "    NACL_ABI_PROT_READ | NACL_ABI_PROT_WRITE,\n"
          ∷ codes "    NACL_ABI_MAP_ANONYMOUS | NACL_ABI_MAP_PRIVATE,\n"
          ∷ codes "    -1,\n"
          ∷ codes "    0);\n"
          ∷ codes "\n"
          ∷ codes
              "  if ((void *) addr == NACL_ABI_MAP_FAILED || NaClPtrIsNegErrno(&addr)) return 0;\n"
          ∷ codes "\n"
          ∷ codes "  sandbox->nap->typed_arena_start = addr;\n"
          ∷ codes "  sandbox->nap->typed_arena_size = size;\n"
          ∷ codes "  return addr;\n"
          ∷ codes "}\n"
          ∷ codes "\n"
          ∷ codes
              "/********************** \"Function call stub\" helpers *****************************/"
          ∷ []);
    }
    ∷ record {
      path = codes "nacl_rlbox/native_client/src/trusted/dyn_ldr/dyn_ldr_lib.c";
      old = codes "NaClSandbox_Thread* callbackParamsBegin(NaClSandbox* sandbox)\n";
      new = concat (
          codes "uintptr_t getCallbackProgramCounter(NaClSandbox* sandbox)\n"
          ∷ codes "{\n"
          ∷ codes "  NaClSandbox_Thread* threadData = getThreadData(sandbox);\n"
          ∷ codes "  return threadData ? threadData->callbackProgramCounter : 0;\n"
          ∷ codes "}\n"
          ∷ codes "\n"
          ∷ codes "uintptr_t getCallbackNewProgramCounter(NaClSandbox* sandbox)\n"
          ∷ codes "{\n"
          ∷ codes "  NaClSandbox_Thread* threadData = getThreadData(sandbox);\n"
          ∷ codes "  return threadData ? threadData->callbackNewProgramCounter : 0;\n"
          ∷ codes "}\n"
          ∷ codes "\n"
          ∷ codes "NaClSandbox_Thread* callbackParamsBegin(NaClSandbox* sandbox)\n"
          ∷ []);
    }
    ∷ []

abbrev pub syscall_common_patches : List Patch
syscall_common_patches =
    record {
      path = codes "nacl_rlbox/native_client/src/trusted/service_runtime/nacl_syscall_common.c";
      old = codes "#include \"native_client/src/trusted/dyn_ldr/datastructures/ds_stack.h\"\n";
      new = concat (
          codes "#include \"native_client/src/trusted/dyn_ldr/datastructures/ds_stack.h\"\n"
          ∷ codes "#include \"native_client/src/trusted/dyn_ldr/dyn_ldr_lib.h\"\n"
          ∷ []);
    }
    ∷ record {
      path = codes "nacl_rlbox/native_client/src/trusted/service_runtime/nacl_syscall_common.c";
      old = concat (
          codes
            "  if(callbackSlotNumber < CALLBACK_SLOTS_AVAILABLE && natp->nap->callbackSlot[callbackSlotNumber] != 0)\n"
          ∷ codes "  {\n"
          ∷ codes "    typedef void (*RegPtrPtrFunc)(uintptr_t, void*, uint64_t*);"
          ∷ []);
      new = concat (
          codes
            "  if(callbackSlotNumber < CALLBACK_SLOTS_AVAILABLE && natp->nap->callbackSlot[callbackSlotNumber] != 0)\n"
          ∷ codes "  {\n"
          ∷ codes "    typedef void (*RegPtrPtrFunc)(uintptr_t, void*, uint64_t*);\n"
          ∷ codes "    NaClSandbox_Thread* interspecThreadData =\n"
          ∷ codes "      (NaClSandbox_Thread*) natp->custom_app_state;\n"
          ∷ codes "    if (interspecThreadData != NULL) {\n"
          ∷ codes "      interspecThreadData->callbackProgramCounter = natp->user.prog_ctr;\n"
          ∷ codes
              "      interspecThreadData->callbackNewProgramCounter = natp->user.new_prog_ctr;\n"
          ∷ codes "    }"
          ∷ []);
    }
    ∷ []

abbrev pub sys_memory_patches : List Patch
sys_memory_patches =
    record {
      path = codes "nacl_rlbox/native_client/src/trusted/service_runtime/sys_memory.c";
      old = concat (
          codes "static INLINE size_t  size_min(size_t a, size_t b) {\n"
          ∷ codes "  return (a < b) ? a : b;\n"
          ∷ codes "}\n"
          ∷ []);
      new = concat (
          codes "static INLINE size_t  size_min(size_t a, size_t b) {\n"
          ∷ codes "  return (a < b) ? a : b;\n"
          ∷ codes "}\n"
          ∷ codes "\n"
          ∷ codes "static int TypedArenaOverlaps(struct NaClApp *nap,\n"
          ∷ codes "                              uintptr_t start, size_t length) {\n"
          ∷ codes "  if (nap->typed_arena_size == 0 || length == 0) return 0;\n"
          ∷ codes "\n"
          ∷ codes "  uintptr_t end = start + length;\n"
          ∷ codes "  if (end < start) return 1;\n"
          ∷ codes "  end = NaClRoundAllocPage(end);\n"
          ∷ codes "  if (end < start) return 1;\n"
          ∷ codes "\n"
          ∷ codes "  const uintptr_t arena_end =\n"
          ∷ codes "      nap->typed_arena_start + nap->typed_arena_size;\n"
          ∷ codes "  return start < arena_end && nap->typed_arena_start < end;\n"
          ∷ codes "}\n"
          ∷ []);
    }
    ∷ record {
      path = codes "nacl_rlbox/native_client/src/trusted/service_runtime/sys_memory.c";
      old = concat (
          codes "                    uint32_t              offp) {\n"
          ∷ codes "  struct NaClApp  *nap = natp->nap;\n"
          ∷ codes "  nacl_abi_off_t  offset;"
          ∷ []);
      new = concat (
          codes "                    uint32_t              offp) {\n"
          ∷ codes "  struct NaClApp  *nap = natp->nap;\n"
          ∷ codes "  nacl_abi_off_t  offset;\n"
          ∷ codes "\n"
          ∷ codes "  if ((flags & NACL_ABI_MAP_FIXED) &&\n"
          ∷ codes "      TypedArenaOverlaps(nap, start, length)) {\n"
          ∷ codes "    return -NACL_ABI_EINVAL;\n"
          ∷ codes "  }"
          ∷ []);
    }
    ∷ record {
      path = codes "nacl_rlbox/native_client/src/trusted/service_runtime/sys_memory.c";
      old = concat (
          codes "int32_t NaClSysMunmap(struct NaClAppThread  *natp,\n"
          ∷ codes "                      uint32_t              start,\n"
          ∷ codes "                      uint32_t              length) {\n"
          ∷ codes "  struct NaClApp *nap = natp->nap;"
          ∷ []);
      new = concat (
          codes "int32_t NaClSysMunmap(struct NaClAppThread  *natp,\n"
          ∷ codes "                      uint32_t              start,\n"
          ∷ codes "                      uint32_t              length) {\n"
          ∷ codes "  struct NaClApp *nap = natp->nap;\n"
          ∷ codes "\n"
          ∷ codes "  if (TypedArenaOverlaps(nap, start, length)) return -NACL_ABI_EINVAL;"
          ∷ []);
    }
    ∷ record {
      path = codes "nacl_rlbox/native_client/src/trusted/service_runtime/sys_memory.c";
      old = concat (
          codes "int32_t NaClSysMprotect(struct NaClAppThread  *natp,\n"
          ∷ codes "                        uint32_t              start,\n"
          ∷ codes "                        size_t                length,\n"
          ∷ codes "                        int                   prot) {\n"
          ∷ codes "  struct NaClApp  *nap = natp->nap;"
          ∷ []);
      new = concat (
          codes "int32_t NaClSysMprotect(struct NaClAppThread  *natp,\n"
          ∷ codes "                        uint32_t              start,\n"
          ∷ codes "                        size_t                length,\n"
          ∷ codes "                        int                   prot) {\n"
          ∷ codes "  struct NaClApp  *nap = natp->nap;\n"
          ∷ codes "\n"
          ∷ codes "  if (TypedArenaOverlaps(nap, start, length)) return -NACL_ABI_EINVAL;"
          ∷ []);
    }
    ∷ []
