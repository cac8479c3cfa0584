-- ===== src/Compose.antt =====
-- Documents of docker compose, as app/services/edge.py and app/services/limits.py rewrite them. The
-- YAML library is an argument: `load` reads a text, or raises, and `dump` writes a document. A float
-- is a number of thousandths, and the keys of a mapping are texts.
pub mod Edge
pub mod Caps
pub mod Layers
use tetra_host.Prelude.{ℕ, String, Bool, true, false, ◌==◌, Option, none, some, if◌then◌else◌}

mutual
  pub data Yaml : Type 0 where
    text : String → Yaml
    number thousandths : ℕ → Yaml
    boolean : Bool → Yaml
    null : Yaml
    sequence : Items → Yaml
    mapping : Fields → Yaml

  pub data Items : Type 0 where
    end : Items
    item : Yaml → Items → Items

  pub data Fields : Type 0 where
    bare : Fields
    field : String → Yaml → Fields → Fields

-- the calls of the YAML library, and `str` of Python
pub record YamlLib : Type 0 where
  pub load : String → Option Yaml
  pub dump : Yaml → String
  pub str : Yaml → String

-- d.get(key)
unfoldable pub get : String → Fields → Option Yaml
get key bare = none
get key (field k v fs) = let later = get key fs in if k == key then some v else later

-- key in d
unfoldable pub has : String → Fields → Bool
unfolding get
has key fs = elim (get key fs) [ none ↦ false | some _ ↦ true ]

-- d[key] = value, which keeps the place of a key that is there
unfoldable pub assign : String → Yaml → Fields → Fields
assign key v bare = field key v bare
assign key v (field k w fs) =
    let later = assign key v fs in if k == key then field k v fs else field k w later
