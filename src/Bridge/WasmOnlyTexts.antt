-- ===== src/Bridge/WasmOnlyTexts.antt =====
-- The replacements of tools/build_p11_wasm2c_rlbox_only_bridge.py.
use interspec_typed_allocato.Prelude.{◌∷◌, [], Text, codes, concat}
use interspec_typed_allocato.Bridge.{Edit, regex, exact, gap}

abbrev pub wasm_constructor : Text
wasm_constructor = concat (
    codes "  Engine() {\n"
    ∷ codes "    if (!sandbox_.create_sandbox())\n"
    ∷ codes "      throw std::runtime_error(\"failed to create RLBox wasm2c sandbox\");\n"
    ∷ codes "\n"
    ∷ codes "    /*\n"
    ∷ codes "     * P11 RLBox-only runtime-path baseline. Do not reserve the InterSpec typed\n"
    ∷ codes "     * arena, instantiate PolicyRuntime, register allocation-site provenance,\n"
    ∷ codes "     * or install InterSpec allocation/lifetime callbacks.\n"
    ∷ codes "     */\n"
    ∷ codes "    sandbox_.sandbox_storage = this;\n"
    ∷ codes "  }\n"
    ∷ [])

abbrev pub wasm_copy_to_u : Text
wasm_copy_to_u = concat (
    codes "  UCharPtr copy_to_u(const char* src) {\n"
    ∷ codes "    if (!src) return UCharPtr(nullptr);\n"
    ∷ codes "\n"
    ∷ codes "    const size_t bytes = std::strlen(src) + 1;\n"
    ∷ codes "    if (bytes > std::numeric_limits<uint32_t>::max())\n"
    ∷ codes "      throw std::runtime_error(\"popt string exceeds sandbox ABI\");\n"
    ∷ codes "\n"
    ∷ codes "    /* P11 RLBox-only marshalling uses the ordinary sandbox allocator. */\n"
    ∷ codes "    auto copy = sandbox_.malloc_in_sandbox<char>(static_cast<uint32_t>(bytes));\n"
    ∷ codes "    if (copy.UNSAFE_unverified() == nullptr) throw std::bad_alloc();\n"
    ∷ codes "    std::memcpy(copy.UNSAFE_unverified(), src, bytes);\n"
    ∷ codes "    return copy;\n"
    ∷ codes "  }\n"
    ∷ [])

abbrev pub wasm_engine_constructor_edit : Edit
wasm_engine_constructor_edit =
    regex
      (exact (codes "  Engine() {")
        ∷ gap
        ∷ exact
            (concat (codes "\n" ∷ codes "  }\n" ∷ codes "\n" ∷ codes "  Sandbox& sandbox()" ∷ []))
        ∷ [])
      (concat (wasm_constructor ∷ codes "\n" ∷ codes "  Sandbox& sandbox()" ∷ []))

abbrev pub copy_to_u_edit : Edit
copy_to_u_edit =
    regex
      (exact (codes "  UCharPtr copy_to_u(const char* src) {")
        ∷ gap
        ∷ exact
            (concat (codes "\n" ∷ codes "  }\n" ∷ codes "\n" ∷ codes "  char* copy_checked" ∷ []))
        ∷ [])
      (concat (wasm_copy_to_u ∷ codes "\n" ∷ codes "  char* copy_checked" ∷ []))

abbrev pub typed_copy_call : Text
typed_copy_call = codes "sandbox_.invoke_sandbox_function(interspec_p4c_typed_copy"
