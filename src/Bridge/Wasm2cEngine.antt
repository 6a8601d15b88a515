-- ===== src/Bridge/Wasm2cEngine.antt =====
-- The replacements of tools/build_p9b_wasm2c_bridge.py, from the constructor on.
use interspec_typed_allocato.Prelude.{◌∷◌, [], Text, codes, concat}
use interspec_typed_allocato.Bridge.{Edit, regex, every, exact, gap}

abbrev pub wasm_engine : Text
wasm_engine = concat (
    codes "  Engine() {\n"
    ∷ codes "    if (!sandbox_.create_sandbox())\n"
    ∷ codes "      throw std::runtime_error(\"failed to create RLBox wasm2c sandbox\");\n"
    ∷ codes "\n"
    ∷ codes "    constexpr uint32_t kArenaSize = 16u * 1024u * 1024u;\n"
    ∷ codes "    const uint32_t arena_base =\n"
    ∷ codes "      sandbox_.get_sandbox_impl()->reserve_typed_arena(kArenaSize);\n"
    ∷ codes "    if (!arena_base) throw std::runtime_error(\"failed to reserve typed arena\");\n"
    ∷ codes "\n"
    ∷ codes "    policy_runtime_ =\n"
    ∷ codes "      std::make_unique<interspec::PolicyRuntime>(arena_base, kArenaSize);\n"
    ∷ codes "    auto& runtime = policy_runtime_->runtime();\n"
    ∷ codes "    if (!interspec::rsync_popt_generated::register_types(runtime) ||\n"
    ∷ codes "        !interspec::rsync_popt_generated::register_wasm_allocation_policy(runtime))\n"
    ∷ codes
        "      throw std::runtime_error(\"failed to initialize wasm InterSpec allocation policy\");\n"
    ∷ codes "\n"
    ∷ codes "    sandbox_.sandbox_storage = this;\n"
    ∷ codes "    sandbox_.get_sandbox_impl()->set_interspec_runtime(\n"
    ∷ codes "      this, p9b_allocate, p9b_release, p9b_size, p9b_reallocate);\n"
    ∷ codes "  }\n"
    ∷ [])

abbrev pub engine_constructor_edit : Edit
engine_constructor_edit =
    regex
      (exact (codes "  Engine() {")
        ∷ gap
        ∷ exact
            (concat (codes "\n" ∷ codes "  }\n" ∷ codes "\n" ∷ codes "  Sandbox& sandbox()" ∷ []))
        ∷ [])
      (concat (wasm_engine ∷ codes "\n" ∷ codes "  Sandbox& sandbox()" ∷ []))

abbrev pub allocation_dispatch_method_edit : Edit
allocation_dispatch_method_edit =
    regex
      (exact (codes "  uintptr_t allocate_for_callback_pc(uint32_t size) {")
        ∷ gap
        ∷ exact (concat (codes "\n" ∷ codes "  }\n" ∷ []))
        ∷ [])
      (concat (
        codes "  uintptr_t allocate_for_site(uint32_t site_id, uint32_t size) {\n"
        ∷ codes "    return runtime().allocate_from_site(size, site_id);\n"
        ∷ codes "  }\n"
        ∷ []))

abbrev pub nacl_callback_members_edit : Edit
nacl_callback_members_edit =
    regex
      (exact (concat (codes " private:\n" ∷ codes "  using AllocCallback =" ∷ []))
        ∷ gap
        ∷ exact (codes "  ReallocCallback realloc_cb_;\n")
        ∷ [])
      (concat (
        codes " private:\n"
        ∷ codes "  Sandbox sandbox_;\n"
        ∷ codes "  std::unique_ptr<interspec::PolicyRuntime> policy_runtime_;\n"
        ∷ []))

abbrev pub duplicate_members_edit : Edit
duplicate_members_edit =
    every
      (concat (
        codes "  Sandbox sandbox_;\n"
        ∷ codes "  std::unique_ptr<interspec::PolicyRuntime> policy_runtime_;\n"
        ∷ codes "  Sandbox sandbox_;\n"
        ∷ codes "  std::unique_ptr<interspec::PolicyRuntime> policy_runtime_;\n"
        ∷ []))
      (concat (
        codes "  Sandbox sandbox_;\n"
        ∷ codes "  std::unique_ptr<interspec::PolicyRuntime> policy_runtime_;\n"
        ∷ []))

abbrev pub host_dispatch : Text
host_dispatch = concat (
    codes "static uint32_t p9b_allocate(void* context, uint32_t site_id, uint32_t size) {\n"
    ∷ codes "  auto* value = static_cast<Engine*>(context);\n"
    ∷ codes
        "  return value ? static_cast<uint32_t>(value->allocate_for_site(site_id, size)) : 0u;\n"
    ∷ codes "}\n"
    ∷ codes "\n"
    ∷ codes "static uint32_t p9b_release(void* context, uint32_t ptr) {\n"
    ∷ codes "  auto* value = static_cast<Engine*>(context);\n"
    ∷ codes "  return value && value->runtime().release(ptr) ? 1u : 0u;\n"
    ∷ codes "}\n"
    ∷ codes "\n"
    ∷ codes "static uint32_t p9b_size(void* context, uint32_t ptr) {\n"
    ∷ codes "  auto* value = static_cast<Engine*>(context);\n"
    ∷ codes "  if (!value) return 0u;\n"
    ∷ codes "  size_t size = 0;\n"
    ∷ codes "  if (!value->runtime().allocation_size(ptr, size) ||\n"
    ∷ codes "      size > std::numeric_limits<uint32_t>::max())\n"
    ∷ codes "    return 0u;\n"
    ∷ codes "  return static_cast<uint32_t>(size);\n"
    ∷ codes "}\n"
    ∷ codes "\n"
    ∷ codes "static uint32_t p9b_reallocate(void* context, uint32_t ptr, uint32_t size) {\n"
    ∷ codes "  auto* value = static_cast<Engine*>(context);\n"
    ∷ codes "  return value ? static_cast<uint32_t>(value->runtime().reallocate(ptr, size)) : 0u;\n"
    ∷ codes "}\n"
    ∷ codes "\n"
    ∷ [])

abbrev pub nacl_callback_implementations_edit : Edit
nacl_callback_implementations_edit =
    regex
      (exact (codes "Engine& engine_from(Sandbox& sandbox) {")
        ∷ gap
        ∷ exact
            (concat (codes "\n" ∷ codes "}\n" ∷ codes "\n" ∷ codes "static U32 p4c_allocate" ∷ []))
        ∷ gap
        ∷ exact (concat (codes "\n" ∷ codes "}\n" ∷ codes "\n" ∷ codes "enum class SlotKind" ∷ []))
        ∷ [])
      (concat (host_dispatch ∷ codes "enum class SlotKind" ∷ []))
