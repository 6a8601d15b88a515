-- ===== src/Bridge/Wasm2cTexts.antt =====
-- The replacements of tools/build_p9b_wasm2c_bridge.py, up to the constructor.
use interspec_typed_allocato.Prelude.{◌∷◌, [], codes, concat}
use interspec_typed_allocato.Bridge.{Edit, once, regex, exact, gap, blanks}

abbrev pub sandbox_headers_edit : Edit
sandbox_headers_edit =
    once
      (concat (codes "#include \"rlbox.hpp\"\n" ∷ codes "#include \"rlbox_nacl_sandbox.hpp\"" ∷ []))
      (concat (
        codes "#define RLBOX_USE_STATIC_CALLS() rlbox_wasm2c_sandbox_lookup_symbol\n"
        ∷ codes "#define RLBOX_WASM2C_MODULE_NAME glue__lib__wasm2c\n"
        ∷ codes "#include \"glue_lib_wasm2c.h\"\n"
        ∷ codes "#include \"rlbox.hpp\"\n"
        ∷ codes "#include \"rlbox_wasm2c_sandbox.hpp\""
        ∷ []))

abbrev pub wasm_policy_header_edit : Edit
wasm_policy_header_edit =
    once (codes "#include \"interspec_popt_t_policy.h\"")
      (codes "#include \"interspec_t_policy.h\"")

abbrev pub sandbox_type_edit : Edit
sandbox_type_edit =
    once (codes "using SandboxType = rlbox::rlbox_nacl_sandbox;")
      (codes "using SandboxType = rlbox::rlbox_wasm2c_sandbox;")

abbrev pub nacl_lifetime_typedefs_edit : Edit
nacl_lifetime_typedefs_edit =
    regex
      (exact (codes "using p4c_release_fn =")
        ∷ gap
        ∷ exact (
            concat (
              codes "using p4c_realloc_fn = uint32_t (*)(uint32_t, uint32_t);\n" ∷ codes "\n" ∷ []))
        ∷ [])
      []

abbrev pub nacl_lifetime_declaration_edit : Edit
nacl_lifetime_declaration_edit =
    regex
      (exact (codes "void interspec_popt_init_lifetime(uint32_t,\n")
        ∷ blanks
        ∷ exact (codes "p4c_release_fn,\n")
        ∷ blanks
        ∷ exact (codes "p4c_size_fn,\n")
        ∷ blanks
        ∷ exact (codes "p4c_realloc_fn);\n")
        ∷ [])
      []

abbrev pub nacl_callback_declarations_edit : Edit
nacl_callback_declarations_edit =
    regex
      (exact (
          concat (
            codes "class Engine;\n"
            ∷ codes "Engine& engine_from(Sandbox& sandbox);\n"
            ∷ codes "\n"
            ∷ codes "static U32 p4c_allocate"
            ∷ []))
        ∷ gap
        ∷ exact (codes "static U32 p4c_reallocate(Sandbox& sandbox, U32 ptr, U32 size);\n")
        ∷ [])
      (concat (
        codes "class Engine;\n"
        ∷ codes "static uint32_t p9b_allocate(void*, uint32_t, uint32_t);\n"
        ∷ codes "static uint32_t p9b_release(void*, uint32_t);\n"
        ∷ codes "static uint32_t p9b_size(void*, uint32_t);\n"
        ∷ codes "static uint32_t p9b_reallocate(void*, uint32_t, uint32_t);\n"
        ∷ []))
