-- ===== src/Compose/Edge.antt =====
-- app/services/edge.py: the labels by which the proxy routes to the public service of a stack.
use tetra_host.Prelude.{
  String, Bool, true, false, not, ◌&&◌, ◌||◌, ◌==◌, Option, none, some, List, [], ◌∷◌,
  if◌then◌else◌,
}
use tetra_host.Prelude.Text.{strip, includes, split_once, commas}
use tetra_host.Compose.{Yaml, Items, Fields, YamlLib, end, item, bare, field, get, assign}
use tetra_host.Compose.Yaml.{text, boolean, null, sequence, mapping}
use Prim.Native.String.{◌++◌}

pub record EdgeSettings : Type 0 where
  pub edge_network : String
  pub apps_base_domain : String

unfoldable pub edge_enabled : EdgeSettings → Bool
edge_enabled cfg = not (cfg.edge_network == "") && not (cfg.apps_base_domain == "")

unfoldable pub app_hostname : EdgeSettings → String → String
app_hostname cfg project = project ++ "." ++ cfg.apps_base_domain

label_text : YamlLib → Yaml → Yaml
label_text yaml null = text ""
label_text yaml v = text (yaml.str v)

mapped_labels : YamlLib → Fields → Fields
unfolding label_text
mapped_labels yaml bare = bare
mapped_labels yaml (field k v fs) = field k (label_text yaml v) (mapped_labels yaml fs)

listed_labels : YamlLib → Items → Fields → Fields
listed_labels yaml end labels = labels
listed_labels yaml (item v rest) labels =
    let (key, value) = split_once 61 (yaml.str v) in
    listed_labels yaml rest (assign (strip key) (text (strip value)) labels)

unfoldable pub labels_to_dict : YamlLib → Option Yaml → Fields
unfolding mapped_labels listed_labels
labels_to_dict yaml (some (mapping fs)) = mapped_labels yaml fs
labels_to_dict yaml (some (sequence vs)) = listed_labels yaml vs bare
labels_to_dict yaml _ = bare

lists : String → Items → Bool
lists name end = false
lists name (item (text s) rest) = s == name || lists name rest
lists name (item _ rest) = lists name rest

appended : Yaml → Items → Items
appended v end = item v end
appended v (item w rest) = item w (appended v rest)

listed_with : String → Items → Items
unfolding lists appended
listed_with name networks = if lists name networks then networks else appended (text name) networks

unfoldable pub networks_with : Option Yaml → String → Yaml
unfolding listed_with
networks_with (some (mapping fs)) name =
    mapping (elim (get name fs) [ none ↦ assign name (mapping bare) fs | some _ ↦ fs ])
networks_with (some (sequence (item v vs))) name = sequence (listed_with name (item v vs))
networks_with _ name = sequence (listed_with name (item (text "default") end))

joined_items : YamlLib → Items → String
joined_items yaml end = ""
joined_items yaml (item v end) = yaml.str v
joined_items yaml (item v (item w rest)) = yaml.str v ++ " " ++ joined_items yaml (item w rest)

joined_fields : YamlLib → Fields → String
joined_fields yaml bare = ""
joined_fields yaml (field k v bare) = k ++ "=" ++ yaml.str v
joined_fields yaml (field k v (field l w rest)) =
    k ++ "=" ++ yaml.str v ++ " " ++ joined_fields yaml (field l w rest)

env_text : YamlLib → Option Yaml → String
unfolding joined_items joined_fields
env_text yaml (some (sequence vs)) = joined_items yaml vs
env_text yaml (some (mapping fs)) = joined_fields yaml fs
env_text yaml _ = ""

or_first : Option (String × Fields) → Option (String × Fields) → Option (String × Fields)
or_first (some chosen) other = some chosen
or_first none other = other

marked_service : YamlLib → Fields → Option (String × Fields)
unfolding env_text
marked_service yaml bare = none
marked_service yaml (field name (mapping svc) rest) =
    let later = marked_service yaml rest in
    if includes "SERVICE_FQDN_" (env_text yaml (get "environment" svc))
    then some (name, svc)
    else later
marked_service yaml (field name _ rest) = marked_service yaml rest

first_service : Fields → Option (String × Fields)
first_service bare = none
first_service (field name (mapping svc) rest) = some (name, svc)
first_service (field name _ rest) = first_service rest

unfoldable pub public_service : YamlLib → Fields → Option (String × Fields)
unfolding marked_service first_service or_first
public_service yaml services = or_first (marked_service yaml services) (first_service services)

extra_addresses : List String → List String
extra_addresses [] = []
extra_addresses (h ∷ hs) =
    let rest = extra_addresses hs in if h == "" then rest else ("http://" ++ h) ∷ rest

unfoldable pub site_addresses : EdgeSettings → String → List String → List String
unfolding extra_addresses
site_addresses cfg project hosts = ("http://" ++ app_hostname cfg project) ∷ extra_addresses hosts

upstream : String → String
upstream port = if port == "" then "{{upstreams}}" else "{{upstreams " ++ port ++ "}}"

route : YamlLib → EdgeSettings → String → String → List String → Fields → Fields
unfolding site_addresses upstream
route yaml cfg project port extra_hosts svc =
    let labels = labels_to_dict yaml (get "labels" svc) in
    let named = assign "tetra" (text (commas (site_addresses cfg project extra_hosts))) labels in
    let routed = assign "tetra.reverse_proxy" (text (upstream port)) named in
    let labelled = assign "labels" (mapping routed) svc in
    assign "networks" (networks_with (get "networks" labelled) cfg.edge_network) labelled

top_networks : Option Yaml → Fields
top_networks (some (mapping fs)) = fs
top_networks _ = bare

services_of : Option Yaml → Fields
services_of (some (mapping fs)) = fs
services_of _ = bare

published : YamlLib → EdgeSettings → String → String → List String → Fields → Option Yaml
unfolding route top_networks services_of
published yaml cfg project port extra_hosts doc =
    let services = services_of (get "services" doc) in
    elim (public_service yaml services) [
      | none ↦ none
      | some (name, svc) ↦
          let routed =
            assign name (mapping (route yaml cfg project port extra_hosts svc)) services in
          let with_services = assign "services" (mapping routed) doc in
          let external = mapping (field "external" (boolean true) bare) in
          some (
            mapping (
              assign "networks"
                (mapping (assign cfg.edge_network external (top_networks (get "networks" doc))))
                with_services))
    ]

published_text : YamlLib → String → Option Yaml → String
published_text yaml unchanged none = unchanged
published_text yaml unchanged (some doc) = yaml.dump doc

loaded : YamlLib → EdgeSettings → String → String → List String → Option Yaml → Option Yaml
unfolding published
loaded yaml cfg project port extra_hosts (some (mapping doc)) =
    published yaml cfg project port extra_hosts doc
loaded yaml cfg project port extra_hosts _ = none

unfoldable pub apply_edge : YamlLib → EdgeSettings → String → String → List String → String → String
unfolding loaded published_text
apply_edge yaml cfg project port extra_hosts compose =
    if not (edge_enabled cfg)
    then compose
    else published_text yaml compose (loaded yaml cfg project port extra_hosts (yaml.load compose))
