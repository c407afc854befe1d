-- ===== src/Sources/Uploads/Downloads.antt =====
-- internal/service/source.go: the token that an image is given, and the version of its agent, with
-- pkg/version/version.go.
use migration_planner.Prelude.{
  String, Bool, false, not, ◌&&◌, Option, none, some, str_eq, if◌then◌else◌,
}
use migration_planner.Access.Model.{Source, ImageInfra, Key, token_error}
use migration_planner.Access.Store.{M, ◌>>=◌, ◌>>◌, pure, throw}
use migration_planner.Sources.Store.{LoadedSource, update_agent_token, get_key, create_key}
use migration_planner.Sources.Agents.{find_source, optional}

abbrev pub write_signed : Source → Option String → M (Unit {0})
write_signed s none = throw token_error
write_signed s (some token) = update_agent_token s.id token

abbrev pub write_key : Key → Source → Option String → M (Unit {0})
write_key key s none = throw token_error
write_key key s (some token) = create_key key >> update_agent_token s.id token

-- A key and a token come from the functions of auth: `new_key` is the key that is made if there is
-- none, `sign` makes a token.
module _ (sign : Key → Source → Option String) where
  abbrev pub with_new_key : Source → Option Key → M (Unit {0})
  with_new_key s none = throw token_error
  with_new_key s (some key) = write_key key s (sign key s)

  abbrev pub with_key : Source → Option Key → Option Key → M (Unit {0})
  with_key s new_key none = with_new_key s new_key
  with_key s new_key (some key) = write_signed s (sign key s)

-- `expires` is the check that a token has less than thirty days left.
--
-- `source.ImageInfra.AgentToken != nil && !isTokenNearExpiry(*source.ImageInfra.AgentToken)`
abbrev pub has_good_token : (String → Bool) → Option ImageInfra → Bool
has_good_token expires none = false
has_good_token expires (some i) = elim (i.agent_token) [
  | none ↦ false
  | some token ↦ not (expires token)
]

module _ (expires : String → Bool) (sign : Key → Source → Option String) where
  unfoldable pub ensure_agent_token : Option Key → LoadedSource → M (Unit {0})
  unfolding get_key
  ensure_agent_token new_key loaded =
      if has_good_token expires loaded.image_infra
      then pure tt
      else optional (get_key loaded.source.org_id) >>= with_key sign loaded.source new_key

  -- GetSourceDownloadURL up to the URL, which is made of the source as it was read.
  unfoldable pub get_source_download : Option Key → String → M Source
  unfolding ensure_agent_token
  get_source_download new_key id = do
    loaded ← find_source id
    ensure_agent_token new_key loaded
    pure loaded.source

-- version.IsValidAgentVersion
abbrev pub is_valid_agent_version : String → Bool
is_valid_agent_version version = not (str_eq version "") && not (str_eq version "unknown")

-- What a download says of the version of its agent.
pub data VersionWarning : Type 0 where
  no_version : String → VersionWarning
  version_mismatch : String → String → VersionWarning

abbrev pub stored_version : Option ImageInfra → String
stored_version none = ""
stored_version (some i) = elim (i.agent_version) [ none ↦ "" | some version ↦ version ]

-- `current` is the version that the program was built with.
unfoldable pub check_agent_version_warning : String → Option ImageInfra → Option VersionWarning
check_agent_version_warning current i =
    let stored = stored_version i in
    if not (is_valid_agent_version current)
    then none
    else if str_eq stored ""
    then some (no_version current)
    else if not (is_valid_agent_version stored)
    then none
    else if str_eq stored current
    then none
    else some (version_mismatch stored current)
