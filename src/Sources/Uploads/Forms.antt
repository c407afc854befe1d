-- ===== src/Sources/Uploads/Forms.antt =====
-- internal/service/mappers/inbound.go: the forms of sources, and the rows that they become.
use migration_planner.Prelude.{
  String, Bool, true, false, not, Option, none, some, List, map, str_eq, if◌then◌else◌, Dict,
}
use migration_planner.Access.Model.{Source, ImageInfra, Label}
use migration_planner.Sources.Agents.{SubsetForm}

pub record SourceCreateForm : Type 0 where
  pub certificate_chain : String
  pub name : String
  pub http_url : String
  pub https_url : String
  pub no_proxy : String
  pub ssh_public_key : String
  pub username : String
  pub org_id : String
  pub email_domain : String
  pub labels : Dict String
  pub ip_address : String
  pub subnet_mask : String
  pub default_gateway : String
  pub dns : String
  pub enable_proxy : Option Bool
  pub network_config_type : Option String

-- `enable != nil && !*enable`
abbrev pub is_off : Option Bool → Bool
is_off none = false
is_off (some on) = not on

-- `type != nil && *type == "dhcp"`
abbrev pub is_dhcp : Option String → Bool
is_dhcp none = false
is_dhcp (some kind) = str_eq kind "dhcp"

abbrev pub without_proxy : Bool → ImageInfra → ImageInfra
without_proxy false i = i
without_proxy true i = record i { http_proxy_url = ""; https_proxy_url = ""; no_proxy_domains = "" }

abbrev pub without_address : Bool → ImageInfra → ImageInfra
without_address false i = i
without_address true i = record i {
  ip_address = "";
  subnet_mask = "";
  default_gateway = "";
  dns = "";
}

unfoldable pub to_image_infra : SourceCreateForm → String → String → ImageInfra
to_image_infra form source_id image_token_key = without_address (is_dhcp form.network_config_type) (
    without_proxy (is_off form.enable_proxy) (record {
      source_id = source_id;
      http_proxy_url = form.http_url;
      https_proxy_url = form.https_url;
      no_proxy_domains = form.no_proxy;
      certificate_chain = form.certificate_chain;
      ssh_public_key = form.ssh_public_key;
      image_token_key = image_token_key;
      ip_address = form.ip_address;
      subnet_mask = form.subnet_mask;
      default_gateway = form.default_gateway;
      dns = form.dns;
      agent_version = none;
      agent_token = none;
    }))

abbrev pub to_source : String → SourceCreateForm → Source
to_source new_id form = record {
  id = new_id;
  name = form.name;
  vcenter_id = "";
  username = form.username;
  org_id = form.org_id;
  inventory = none;
  on_premises = false;
  update_type = "auto";
  email_domain = if str_eq form.email_domain "" then none else some form.email_domain;
}

abbrev pub new_labels : String → Dict String → List Label
new_labels source_id labels =
    map
      (λ (entry : String × String). record {
        key = entry.0;
        value = entry.1;
        source_id = source_id;
      })
      labels

pub record SourceUpdateForm : Type 0 where
  pub name : Option String
  pub labels : Option (Dict String)
  pub ssh_public_key : Option String
  pub certificate_chain : Option String
  pub http_url : Option String
  pub https_url : Option String
  pub no_proxy : Option String
  pub ip_address : Option String
  pub subnet_mask : Option String
  pub default_gateway : Option String
  pub dns : Option String
  pub enable_proxy : Option Bool
  pub network_config_type : Option String

abbrev pub given : Option String → String → String
given none old = old
given (some new) old = new

abbrev pub write_image_fields : SourceUpdateForm → ImageInfra → ImageInfra
write_image_fields form i = record i {
  http_proxy_url = given form.http_url i.http_proxy_url;
  https_proxy_url = given form.https_url i.https_proxy_url;
  no_proxy_domains = given form.no_proxy i.no_proxy_domains;
  certificate_chain = given form.certificate_chain i.certificate_chain;
  ssh_public_key = given form.ssh_public_key i.ssh_public_key;
  ip_address = given form.ip_address i.ip_address;
  subnet_mask = given form.subnet_mask i.subnet_mask;
  default_gateway = given form.default_gateway i.default_gateway;
  dns = given form.dns i.dns;
}

unfoldable pub update_image_fields : SourceUpdateForm → ImageInfra → ImageInfra
update_image_fields form i = write_image_fields form (
    without_address (is_dhcp form.network_config_type) (without_proxy (is_off form.enable_proxy) i))

abbrev pub updated_image : SourceUpdateForm → Option ImageInfra → Option ImageInfra
updated_image form none = none
updated_image form (some i) = some (update_image_fields form i)

pub record UploadForm : Type 0 where
  pub source_id : String
  pub agent_id : String
  pub vcenter_id : String
  pub inventory : String
  pub subsets : List SubsetForm
