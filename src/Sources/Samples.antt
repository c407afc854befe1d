-- ===== src/Sources/Samples.antt =====
-- Small tables for the scenarios: ann's source s1 with an inventory, an image, an agent and a
-- placeholder, and her source s2, which has a subset.
use migration_planner.Prelude.{
  String, Bool, false, ◌≡◌, sym, ap, Option, none, some, [], ◌∷◌, str_eq,
}
use migration_planner.Access.Model.{Source, SourceSubsetInventory, Agent, ImageInfra, Key}
use migration_planner.Access.Store.{Db}
use migration_planner.Sources.Agents.{SubsetForm, subset_row}

abbrev pub source : String → Option String → Source
source id inventory = record {
  id = id;
  name = id;
  vcenter_id = "v1";
  username = "ann";
  org_id = "o1";
  inventory = inventory;
  on_premises = false;
  update_type = "auto";
  email_domain = none;
}

abbrev pub s1 : Source
s1 = source "s1" (some "{}")

abbrev pub agent : String → String → Agent
agent id status = record {
  id = id;
  status = status;
  status_info = "";
  cred_url = "";
  version = "1";
  source_id = "s1";
}

abbrev pub image : Option String → ImageInfra
image token = record {
  source_id = "s1";
  http_proxy_url = "";
  https_proxy_url = "";
  no_proxy_domains = "";
  certificate_chain = "";
  ssh_public_key = "";
  image_token_key = "k";
  ip_address = "";
  subnet_mask = "";
  default_gateway = "";
  dns = "";
  agent_version = none;
  agent_token = token;
}

abbrev pub subset_form : String → String → SubsetForm
subset_form id source_id = record {
  id = id;
  name = "linux";
  source_id = source_id;
  vcenter_id = "v1";
  vms_count = 3;
  inventory = "{}";
}

abbrev pub subset : SourceSubsetInventory
subset = subset_row "auto" (subset_form "i2" "s2")

abbrev pub db : Db
db = record {
  requests = [];
  groups = [];
  members = [];
  assessments = [];
  sources = s1 ∷ source "s2" none ∷ [];
  source_subsets = subset ∷ [];
  agents = agent "a1" "waiting" ∷ agent "a2" "" ∷ [];
  image_infras = image none ∷ [];
  labels = [];
  keys = [];
  relationships = [];
}

abbrev pub key : Key
key = record { id = "k1"; org_id = "o1"; private_key = "p" }

abbrev pub near_end : String → Bool
near_end token = str_eq token "old"

abbrev pub sign : Key → Source → Option String
sign k s = some "new"

abbrev pub near_end_of : Option String → Bool
near_end_of none = false
near_end_of (some token) = near_end token

-- The tokens that are made are not near their end.
pub sign-fresh : (k : Key) (s : Source) (t : String) → sign k s ≡ some t → near_end t ≡ false
sign-fresh k s t made = ap near_end_of (sym made)
