-- ===== src/Sources/Store/Tests.antt =====
-- Which rows the queries of internal/store ask for: by id, and by the source that they belong to.
use migration_planner.Prelude.{String, Bool, str_eq, any}
use migration_planner.Access.Model.{Source, SourceSubsetInventory, Agent, ImageInfra, Label}
use migration_planner.Access.Store.{Db}

abbrev pub has_source_id : String → Source → Bool
has_source_id id s = str_eq s.id id

abbrev pub has_agent_id : String → Agent → Bool
has_agent_id id a = str_eq a.id id

abbrev pub has_subset_id : String → SourceSubsetInventory → Bool
has_subset_id id s = str_eq s.id id

abbrev pub agent_of : String → Agent → Bool
agent_of source_id a = str_eq a.source_id source_id

abbrev pub subset_of : String → SourceSubsetInventory → Bool
subset_of source_id s = str_eq s.source_id source_id

abbrev pub image_of : String → ImageInfra → Bool
image_of source_id i = str_eq i.source_id source_id

abbrev pub label_of : String → Label → Bool
label_of source_id l = str_eq l.source_id source_id

abbrev pub source_exists : String → Db → Bool
source_exists id db = any (has_source_id id) db.sources
