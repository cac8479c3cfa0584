-- ===== src/Registry.antt =====
-- app/services/registry.py: pushes of built images to a registry. Whether a command of docker
-- succeeds, and the status that the registry answers to a request, are arguments; the last command of a push,
-- which removes the bare name of the image, changes none of its answers and is left out.
use tetra_host.Prelude.{
  ℕ, String, Bool, false, not, ◌||◌, ◌==◌, Option, none, some, List, [], ◌∷◌, eqb, if◌then◌else◌,
}
use tetra_host.Prelude.Text.{
  strip, rstrip_char, has_char, starts_with, remove_prefix, split_once, split_last, contains,
}
use Prim.Native.String.{◌++◌}

-- whether the image carries a registry prefix
unfoldable pub is_registry_qualified : String → Bool
is_registry_qualified image = has_char 47 image

pub record Registry : Type 0 where
  pub host : String
  pub scheme : String

unfoldable pub is_loopback : String → Bool
is_loopback host =
    let bare_host = (split_once 58 host).0 in
    contains ("localhost" ∷ "[::1]" ∷ []) bare_host || starts_with bare_host "127."

unfoldable pub registry_at : String → Registry
registry_at url =
    let raw = rstrip_char 47 (strip url) in
    let https = starts_with raw "https://" in
    let http = starts_with raw "http://" in
    record {
      host = rstrip_char 47 (
          if https
          then remove_prefix "https://" raw
          else if http
          then remove_prefix "http://" raw
          else raw);
      scheme =
          if https
          then "https"
          else if http
          then "http"
          else if is_loopback raw
          then "http"
          else "https";
    }

unfoldable pub api_base : Registry → String
api_base r = if r.host == "" then "" else r.scheme ++ "://" ++ r.host

unfoldable pub is_enabled : Registry → Bool
is_enabled r = not (r.host == "")

unfoldable pub ref_for : Registry → String → String
ref_for r image = r.host ++ "/" ++ image

-- the world as the registry's client meets it
pub record Docker : Type 0 where
  -- a command of docker, which exits with 0
  pub docker_ok : List String → Bool
  -- DELETE of a URL; nothing where the request raises
  pub delete_url : String → Option ℕ

module _ (docker : Docker) (r : Registry) where
  unfoldable pub push : String → Option String
  push image =
      let ref = ref_for r image in
      if not (is_enabled r)
      then none
      else if not (docker.docker_ok ("tag" ∷ image ∷ ref ∷ []))
      then none
      else if not (docker.docker_ok ("push" ∷ ref ∷ []))
      then none
      else some ref

  unfoldable pub image_exists : String → Bool
  image_exists image = docker.docker_ok ("image" ∷ "inspect" ∷ image ∷ [])

  unfoldable pub pull : String → Bool
  pull ref = docker.docker_ok ("pull" ∷ ref ∷ [])

  is_deleted : Option ℕ → Bool
  is_deleted none = false
  is_deleted (some code) = eqb code 200 || eqb code 202

  unfoldable pub delete_tag : String → String → Bool
  unfolding is_deleted
  delete_tag repo tag =
      is_deleted (docker.delete_url (api_base r ++ "/v2/" ++ repo ++ "/manifests/" ++ tag))

  delete_parts : Option (String × String) → Bool
  delete_parts none = false
  delete_parts (some (repo, tag)) = if repo == "" || tag == "" then false else delete_tag repo tag

  unfoldable pub delete_remote : String → Bool
  unfolding delete_parts
  delete_remote ref =
      let prefix = r.host ++ "/" in
      if not (is_enabled r) || not (starts_with ref prefix)
      then false
      else delete_parts (split_last 58 (remove_prefix prefix ref))
