-- ===== src/Bridge/NaclOnlyTexts.antt =====
-- The blocks that tools/build_p9a_rlbox_only_bridge.py replaces, and their replacements.
use interspec_typed_allocato.Prelude.{◌∷◌, [], Text, codes, concat}

abbrev pub constructor_block : Text
constructor_block = concat (
    codes "  Engine() {\n"
    ∷ codes "    if (!sandbox_.create_sandbox(GLUE_LIB_NACL_PATH, NACL_LIBC_PATH))\n"
    ∷ codes "      throw std::runtime_error(\"failed to create RLBox NaCl sandbox\");\n"
    ∷ codes "\n"
    ∷ codes "    constexpr uint32_t kArenaSize = 16u * 1024u * 1024u;\n"
    ∷ codes "    const uint32_t arena_base =\n"
    ∷ codes "      sandbox_.get_sandbox_impl()->reserve_typed_arena(kArenaSize);\n"
    ∷ codes "    if (!arena_base) throw std::runtime_error(\"failed to reserve typed arena\");\n"
    ∷ codes "\n"
    ∷ codes "    policy_runtime_ =\n"
    ∷ codes "      std::make_unique<interspec::PolicyRuntime>(arena_base, kArenaSize);\n"
    ∷ codes "    auto* impl = sandbox_.get_sandbox_impl();\n"
    ∷ codes "    if (!policy_runtime_->initialize_from_sandbox(\n"
    ∷ codes "          *impl,\n"
    ∷ codes "          [](interspec::Runtime& runtime) {\n"
    ∷ codes "            return interspec::rsync_popt_generated::register_types(runtime);\n"
    ∷ codes "          },\n"
    ∷ codes "          [](interspec::Runtime& runtime, auto resolve) {\n"
    ∷ codes "            return interspec::rsync_popt_generated::register_allocation_policy(\n"
    ∷ codes "              runtime, resolve);\n"
    ∷ codes "          }))\n"
    ∷ codes
        "      throw std::runtime_error(\"failed to initialize InterSpec allocation policy\");\n"
    ∷ codes "\n"
    ∷ codes "    sandbox_.sandbox_storage = this;\n"
    ∷ codes "    alloc_cb_ = sandbox_.register_callback(p4c_allocate);\n"
    ∷ codes "    release_cb_ = sandbox_.register_callback(p4c_release);\n"
    ∷ codes "    size_cb_ = sandbox_.register_callback(p4c_size);\n"
    ∷ codes "    realloc_cb_ = sandbox_.register_callback(p4c_reallocate);\n"
    ∷ codes "    const uint32_t alloc_slot = sandbox_.get_sandbox_impl()->callback_slot_for_key(\n"
    ∷ codes "      reinterpret_cast<const void*>(p4c_allocate));\n"
    ∷ codes "    if (alloc_slot == std::numeric_limits<uint32_t>::max())\n"
    ∷ codes "      throw std::runtime_error(\"failed to resolve allocator callback slot\");\n"
    ∷ codes "    sandbox_.invoke_sandbox_function(interspec_popt_init_lifetime,\n"
    ∷ codes "                                     alloc_slot,\n"
    ∷ codes "                                     release_cb_,\n"
    ∷ codes "                                     size_cb_,\n"
    ∷ codes "                                     realloc_cb_);\n"
    ∷ codes "  }\n"
    ∷ [])

abbrev pub rlbox_only_constructor : Text
rlbox_only_constructor = concat (
    codes "  Engine() {\n"
    ∷ codes "    if (!sandbox_.create_sandbox(GLUE_LIB_NACL_PATH, NACL_LIBC_PATH))\n"
    ∷ codes "      throw std::runtime_error(\"failed to create RLBox NaCl sandbox\");\n"
    ∷ codes "\n"
    ∷ codes "    /*\n"
    ∷ codes "     * P9a RLBox-only baseline: do not reserve the InterSpec typed arena, create\n"
    ∷ codes "     * PolicyRuntime, register allocation provenance, or install lifetime\n"
    ∷ codes "     * callbacks. The sandbox and host-side API bridge remain unchanged.\n"
    ∷ codes "     */\n"
    ∷ codes "    sandbox_.sandbox_storage = this;\n"
    ∷ codes "  }\n"
    ∷ [])

abbrev pub copy_to_u : Text
copy_to_u = concat (
    codes "  UCharPtr copy_to_u(const char* src) {\n"
    ∷ codes "    if (!src) return UCharPtr(nullptr);\n"
    ∷ codes "\n"
    ∷ codes "    const size_t bytes = std::strlen(src) + 1;\n"
    ∷ codes "    if (bytes > std::numeric_limits<uint32_t>::max())\n"
    ∷ codes "      throw std::runtime_error(\"popt string exceeds sandbox ABI\");\n"
    ∷ codes "\n"
    ∷ codes "    auto temporary = sandbox_.malloc_in_sandbox<char>(static_cast<uint32_t>(bytes));\n"
    ∷ codes "    if (temporary.UNSAFE_unverified() == nullptr)\n"
    ∷ codes "      throw std::bad_alloc();\n"
    ∷ codes "    std::memcpy(temporary.UNSAFE_unverified(), src, bytes);\n"
    ∷ codes "\n"
    ∷ codes "    auto typed =\n"
    ∷ codes "      sandbox_.invoke_sandbox_function(interspec_p4c_typed_copy, temporary);\n"
    ∷ codes "    sandbox_.free_in_sandbox(temporary);\n"
    ∷ codes "    if (typed.UNSAFE_unverified() == nullptr) throw std::bad_alloc();\n"
    ∷ codes "    return typed;\n"
    ∷ codes "  }\n"
    ∷ [])

abbrev pub rlbox_only_copy_to_u : Text
rlbox_only_copy_to_u = concat (
    codes "  UCharPtr copy_to_u(const char* src) {\n"
    ∷ codes "    if (!src) return UCharPtr(nullptr);\n"
    ∷ codes "\n"
    ∷ codes "    const size_t bytes = std::strlen(src) + 1;\n"
    ∷ codes "    if (bytes > std::numeric_limits<uint32_t>::max())\n"
    ∷ codes "      throw std::runtime_error(\"popt string exceeds sandbox ABI\");\n"
    ∷ codes "\n"
    ∷ codes "    /* RLBox-only marshalling uses the sandbox's ordinary allocator. */\n"
    ∷ codes "    auto copy = sandbox_.malloc_in_sandbox<char>(static_cast<uint32_t>(bytes));\n"
    ∷ codes "    if (copy.UNSAFE_unverified() == nullptr) throw std::bad_alloc();\n"
    ∷ codes "    std::memcpy(copy.UNSAFE_unverified(), src, bytes);\n"
    ∷ codes "    return copy;\n"
    ∷ codes "  }\n"
    ∷ [])

abbrev pub p8_no_check : Text
p8_no_check = concat (
    codes "#ifdef INTERSPEC_P8_MEASURE_NO_VALIDATION\n"
    ∷ codes "    /*\n"
    ∷ codes "     * Measurement-only baseline. The sandbox, marshalling, typed allocation,\n"
    ∷ codes "     * provenance, and workload remain identical; only the final Extended-SP3\n"
    ∷ codes "     * acceptance check is bypassed. This build is never used by correctness\n"
    ∷ codes "     * tests and deliberately trusts the known-valid benchmark workload.\n"
    ∷ codes "     */\n"
    ∷ codes "    const size_t bytes = std::strlen(raw) + 1;\n"
    ∷ codes "#else\n"
    ∷ [])

abbrev pub p9a_and_p8_no_check : Text
p9a_and_p8_no_check = concat (
    codes "#ifdef INTERSPEC_P9A_RLBOX_ONLY\n"
    ∷ codes "    /*\n"
    ∷ codes "     * P9a RLBox-only baseline. InterSpec typed allocation/provenance is absent\n"
    ∷ codes "     * from both T and U. The benchmark uses known-valid data and keeps the\n"
    ∷ codes "     * established copy behavior while omitting the Extended-SP3 acceptance\n"
    ∷ codes "     * check.\n"
    ∷ codes "     */\n"
    ∷ codes "    const size_t bytes = std::strlen(raw) + 1;\n"
    ∷ codes "#elif defined(INTERSPEC_P8_MEASURE_NO_VALIDATION)\n"
    ∷ codes "    /*\n"
    ∷ codes "     * Measurement-only baseline. The sandbox, marshalling, typed allocation,\n"
    ∷ codes "     * provenance, and workload remain identical; only the final Extended-SP3\n"
    ∷ codes "     * acceptance check is bypassed. This build is never used by correctness\n"
    ∷ codes "     * tests and deliberately trusts the known-valid benchmark workload.\n"
    ∷ codes "     */\n"
    ∷ codes "    const size_t bytes = std::strlen(raw) + 1;\n"
    ∷ codes "#else\n"
    ∷ [])
