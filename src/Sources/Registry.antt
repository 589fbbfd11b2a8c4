-- ===== src/Sources/Registry.antt =====
-- pipeline/src/source_identity_registry.cpp: the names of the running sources, kept on the source
-- root. `none` is a null root; a root without a registry has none inside.
use vms_engine.Common.Map.{Map, find, insert, erase, find-insert, find-erase}
use vms_engine.Common.{ℤ, int_eq, ◌≡◌, Option, none, some, [], Text, ◌==◌, if◌then◌else◌, arith}

abbrev pub Registry : Type 0
Registry = Map ℤ Text

-- The qdata of the source root.
abbrev pub Root : Type 0
Root = Option Registry

unfoldable pub get_or_create_registry : Root → Registry
get_or_create_registry none = []
get_or_create_registry (some r) = r

unfoldable pub register_runtime_source_name : Option Root → ℤ → Text → Option Root
register_runtime_source_name none source_id name = none
register_runtime_source_name (some root) source_id name =
    some (some (insert source_id name (get_or_create_registry root)))

unfoldable pub unregister_runtime_source_name : Option Root → ℤ → Option Root
unregister_runtime_source_name none source_id = none
unregister_runtime_source_name (some none) source_id = some none
unregister_runtime_source_name (some (some r)) source_id = some (some (erase source_id r))

-- it->second, or the empty string.
abbrev pub or_nameless : Option Text → Text
or_nameless none = []
or_nameless (some name) = name

unfoldable pub lookup_runtime_source_name : Option Root → ℤ → Text
lookup_runtime_source_name none source_id = []
lookup_runtime_source_name (some none) source_id = []
lookup_runtime_source_name (some (some r)) source_id = or_nameless (find source_id r)

-- On a root that exists, a name that was registered is looked up under its id, and other ids keep
-- theirs; after it is unregistered the id has no name, and other ids keep theirs.
pub lookup-register :
    (root : Root) (i j : ℤ) (name : Text)
    → (lookup_runtime_source_name (register_runtime_source_name (some root) i name) j
        ≡ (if i == j then name else lookup_runtime_source_name (some root) j))
      × (lookup_runtime_source_name (unregister_runtime_source_name (some root) i) j
          ≡ (if i == j then [] else lookup_runtime_source_name (some root) j))
unfolding find lookup_runtime_source_name register_runtime_source_name
    unregister_runtime_source_name get_or_create_registry
lookup-register none i j name = (ground (arith, find-insert {V = Text} i j name []), ground arith)
lookup-register (some r) i j name =
    (ground (arith, find-insert i j name r), ground (arith, find-erase i j r))
