-- ===== src/Lib.antt =====
-- A typed allocator for code that is shared between a trusted part T and an untrusted part U. The
-- Python tools under tools/ read a policy (types, allocation sites, accesses) and write two things:
-- the source of U, where every analyzed call of `malloc` is replaced, and headers in C++ for T and U
-- with the numbers of the types and sites. The headers are used with include/interspec/runtime.h.
-- This development models the tools' own logic, the class `Runtime` and the hash function of that
-- header, and the C++ functions that the tools emit to use the one with the other.
--
-- The way of a policy: tools/codeql_policy_to_json.py makes it of the rows of a query; a boundary
-- adds types and helper sites to it; the native or the WebAssembly generator rewrites the source
-- and writes the headers. T registers the types and sites of the headers with a runtime, which then
-- gives out typed allocations and checks each access of U's data.
--
-- Files, with what they are about:
--   Prelude: texts as lists of Unicode scalar values, results with the tools' errors, sorting,
--     integers. Python's `raise` is the value `err` of `Result`, one constructor of `Error` for each
--     message.
--   Hash: `hash_type` of tools/generate_policy.py, and `type_hash` of include/interspec/runtime.h.
--   Names: `macro`, `symbol`, `cpp` of tools/generate_policy.py.
--   Pattern, Brackets, Function: the regular expressions, `function_match`, `function_body` and
--     `mark_precise_function_noinline` of the same file.
--   Location: `source_offset` with Python's `splitlines`.
--   MallocCall: `malloc_call_extent`; the flags of its loop are one data type `Mode`.
--   Instrument: `site_symbols`, `exported_label_asm`, `instrument_site`, `instrument_legacy`.
--   TypeIds, Sites, NativeHeaders, Generate: `generate`, in the order of its parts.
--   Policy: the JSON objects as records.
--   Compose: `prepare_policy` of tools/generate_boundary_policy.py and of
--     tools/generate_wasm_boundary_policy.py.
--   Boundary: the rest of tools/generate_boundary_policy.py.
--   WasmSites, WasmHeaders, WasmBoundary: tools/generate_wasm_boundary_policy.py.
--   Codeql: tools/codeql_policy_to_json.py, on rows that are read already.
--   Patch: `replace` of backends/rlbox_nacl/apply_backend.py and
--     backends/rlbox_wasm2c/apply_backend.py on a text, and `replace_once` of
--     tools/build_p9a_rlbox_only_bridge.py and tools/build_p9b_wasm2c_bridge.py.
--   Backend: `apply_backend` of the same two files. The files below the root are a function from
--     paths to texts; the patches are lists in the order of the calls, in Backend/NaclTexts,
--     Backend/NaclSources and Backend/Wasm2cTexts.
--   Bridge: `regex_once` and `transform` of tools/build_p9a_rlbox_only_bridge.py,
--     tools/build_p9b_wasm2c_bridge.py and tools/build_p11_wasm2c_rlbox_only_bridge.py; the
--     assignments of `transform` are lists of edits.
--   OrderedMap: `std::map` and `std::unordered_map` with numbers for keys, as ordered lists.
--   Runtime, Runtime/Memory: class `Runtime` of include/interspec/runtime.h. A runtime is a record
--     with the fields of the class; a method is a function that returns the new runtime with the
--     result. `Call` and `step` make one method call a step, `run` several.
--   Registration: the emitted `register_types`, `register_wasm_allocation_policy` and
--     `register_allocation_sites`. Their constants are named by `cpp` of the types; a header that
--     defines one twice does not compile, and has no registration; the rest of it is taken to
--     compile.
--   Access: the emitted `checked_access`, and `check` of the WebAssembly header.
--   Report: tools/p7c_report.py, with files and floating point numbers as parameters.
--   Evaluation: `build` of tools/build_p8_report.py, on the rows and the report.
--   Summary: `load` and `summarize` of tools/summarize_p9a_application.py,
--     tools/summarize_p8_application.py and tools/summarize_p8_performance.py, on rows that are read
--     already; Summary/Load has `load_security_csv` of tools/build_p8_report.py too.
--   Page: `render` of tools/render_p9a_results.py and tools/render_p8_results.py, on rows that are
--     read already, and `selected_runtime_rows` of the latter.
--   Tests: runs at small inputs.
--
-- State: the tools pass texts from step to step, so that each operation is a function from texts to a
-- `Result`. A dictionary is an association list in the order of insertion. Python's integers are the
-- natural numbers where the code makes them itself, and `ℤ` where they are read from a policy.
--
-- Loops: all of them are structural recursion on the list that is read. A loop that steps over several
-- characters at once counts the ones that are left to skip. The digits of a number run on fuel, the
-- number and one more, which is enough since each step divides by ten.
--
-- Parameters: `unicode_alnum`, whether a character beyond ASCII is a letter or digit for the
-- regular expressions of Python; `read_int`, Python's `int` on a cell; the files of a report, as
-- functions from paths; `heads`, the commit of a checkout, which git is asked for; floating point
-- numbers with their division and their formatting, and for the summaries the other operations that
-- they use and the functions of Python's `statistics`. The resolver that gives the addresses of
-- labels is one too. Nothing is supposed of them.
--
-- Concurrency: each method of `Runtime` holds its lock from the first line to the last, so that the
-- methods of several threads are calls in one order; a theorem for all lists of calls is one for all
-- interleavings.
--
-- Bounds: words of the runtime have 64 bits, and what it adds up to an address, an extent or a size is
-- written with `% 2 ^ 64`, behind the code's own tests. `macro`, `c_stem` and the like turn ASCII
-- letters only, which are the only ones left where the code turns them. Prelude's `is_space` lists
-- the white space of Python.
--
-- Not modelled: the files that the earlier patches of a backend have written when a later one fails,
-- the command lines and files, the checks of JSON types, the CSV files of the summaries and the
-- result pages themselves, include/interspec/policy_runtime.h, the queries, and everything under
-- integration/, scripts/ and tests/.
pub mod Prelude
pub mod Hash
pub mod Names
pub mod Pattern
pub mod Brackets
pub mod Function
pub mod Location
pub mod MallocCall
pub mod Policy
pub mod Instrument
pub mod TypeIds
pub mod Sites
pub mod NativeHeaders
pub mod Generate
pub mod Compose
pub mod WasmSites
pub mod WasmHeaders
pub mod WasmBoundary
pub mod Boundary
pub mod Codeql
pub mod Patch
pub mod Backend
pub mod Bridge
pub mod OrderedMap
pub mod Runtime
pub mod Registration
pub mod Access
pub mod Summary
pub mod Page
pub mod Report
pub mod Evaluation
pub mod Tests
