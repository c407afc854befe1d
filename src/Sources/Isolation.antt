-- ===== src/Sources/Isolation.antt =====
-- Which calls leave a source, its subsets, agents, labels and images exactly as they were: those for
-- another source.
pub mod Rules
pub mod Uploads
pub mod Downloads
pub mod Requests
pub mod AgentRequests
mod Scenarios
use migration_planner.Prelude.{
  String, true, false, ◌≡◌, refl, ◌∙◌, some, [], ◌∷◌, ◌++◌, filter, str_eq, eq_iff, arith,
}
use migration_planner.Access.Model.{Source, Agent, ImageInfra, Label, Key}
use migration_planner.Access.Store.{ok, Db}
use migration_planner.Sources.Store.{
  has_source_id, subset_of, agent_of, label_of, image_of, insert_source, write_source,
  written_source, insert_agent, insert_label, save_image, written_image, write_token, set_token,
  insert_key,
}
use migration_planner.Sources.Keeping.{source_at}
use migration_planner.Sources.Rows.{
  find-append, find-map_other, filter-append_other, filter-map_other,
}

pub record SameRows (id : String) (x y : Db) : Type 0 where
  pub subsets : filter (subset_of id) y.source_subsets ≡ filter (subset_of id) x.source_subsets
  pub agents : filter (agent_of id) y.agents ≡ filter (agent_of id) x.agents
  pub labels : filter (label_of id) y.labels ≡ filter (label_of id) x.labels
  pub images : filter (image_of id) y.image_infras ≡ filter (image_of id) x.image_infras

-- A source that is there stays as it is, and so do the rows that belong to it.
abbrev pub Intact : String → Db → Db → Type 0
Intact id x y = (s : Source) → source_at id x ≡ some s → (source_at id y ≡ some s) × SameRows id x y

pub Intact-refl : (id : String) (x : Db) → Intact id x x
Intact-refl id x s h = (h, record { subsets = refl; agents = refl; labels = refl; images = refl })

pub SameRows-trans :
    (id : String) (x y z : Db) → SameRows id x y → SameRows id y z → SameRows id x z
SameRows-trans id x y z a b = record {
  subsets = b.subsets ∙ a.subsets;
  agents = b.agents ∙ a.agents;
  labels = b.labels ∙ a.labels;
  images = b.images ∙ a.images;
}

pub Intact-trans : (id : String) (x y z : Db) → Intact id x y → Intact id y z → Intact id x z
Intact-trans id x y z h k s e =
    let (e', a) = h s e in let (e'', b) = k s e' in (e'', SameRows-trans id x y z a b)

-- What belongs to a source does not belong to another.
pub other_id : (t id a : String) → str_eq t id ≡ false → str_eq a id ≡ true → str_eq a t ≡ false
other_id t id a apart this = ground (arith, apart, this, eq_iff a id, eq_iff a t, eq_iff t id)

module _ (id t : String) (apart : str_eq t id ≡ false) (x y : Db) where
  insert_source-Intact : (s : Source) (a : Unit {0}) → insert_source s x ≡ ok (a, y) → Intact id x y
  insert_source-Intact s a h r found = (
    ground (arith, h, find-append (has_source_id id) x.sources (s ∷ []) r found),
    record {
      subsets = ground (arith, h);
      agents = ground (arith, h);
      labels = ground (arith, h);
      images = ground (arith, h);
    },
  )

  insert_label-Intact :
      (l : Label) (a : Unit {0}) → l.source_id ≡ t → insert_label l x ≡ ok (a, y) → Intact id x y
  insert_label-Intact l a of_t h r found = (
    ground (arith, h, found),
    record {
      subsets = ground (arith, h);
      agents = ground (arith, h);
      labels = ground (arith, h, filter-append_other (label_of id) x.labels (l ∷ []), of_t, apart);
      images = ground (arith, h);
    },
  )

  insert_agent-Intact :
      (b a : Agent) → b.source_id ≡ t → insert_agent b x ≡ ok (a, y) → Intact id x y
  insert_agent-Intact b a of_t h r found = (
    ground (arith, h, found),
    record {
      subsets = ground (arith, h);
      agents = ground (arith, h, filter-append_other (agent_of id) x.agents (b ∷ []), of_t, apart);
      labels = ground (arith, h);
      images = ground (arith, h);
    },
  )

  write_source-Intact : (u row : Source) → u.id ≡ t → write_source u x ≡ ok (row, y) → Intact id x y
  write_source-Intact u row of_t h r found =
      let kept =
        find-map_other (has_source_id id) (written_source u) x.sources
          (λ a k. ground (arith, k, of_t, other_id t id a.id apart)) (λ a k. ground (arith, k)) in
      (
        ground (arith, h, found, kept),
        record {
          subsets = ground (arith, h);
          agents = ground (arith, h);
          labels = ground (arith, h);
          images = ground (arith, h);
        },
      )

  save_image-Intact :
      (i : ImageInfra) (a : Unit {0})
      → i.source_id ≡ t
      → save_image (some i) x ≡ ok (a, y)
      → Intact id x y
  save_image-Intact i a of_t h r found =
      let kept =
        filter-map_other (image_of id) (written_image i) x.image_infras
          (λ b k. ground (arith, k, of_t, other_id t id b.source_id apart))
          (λ b k. ground (arith, k, of_t, apart)) in
      (
        ground (arith, h, found),
        record {
          subsets = ground (arith, h);
          agents = ground (arith, h);
          labels = ground (arith, h);
          images = ground (arith, h, kept);
        },
      )

  write_token-Intact :
      (token : String) (a : Unit {0}) → write_token t token x ≡ ok (a, y) → Intact id x y
  write_token-Intact token a h r found =
      let kept =
        filter-map_other (image_of id) (set_token t token) x.image_infras
          (λ b k. ground (arith, k, other_id t id b.source_id apart)) (λ b k. ground (arith, k)) in
      (
        ground (arith, h, found),
        record {
          subsets = ground (arith, h);
          agents = ground (arith, h);
          labels = ground (arith, h);
          images = ground (arith, h, kept);
        },
      )

  insert_key-Intact : (key : Key) (a : Unit {0}) → insert_key key x ≡ ok (a, y) → Intact id x y
  insert_key-Intact key a h r found = (
    ground (arith, h, found),
    record {
      subsets = ground (arith, h);
      agents = ground (arith, h);
      labels = ground (arith, h);
      images = ground (arith, h);
    },
  )

  insert_image-Intact :
      (i : ImageInfra)
      → i.source_id ≡ t
      → y ≡ record x { image_infras = x.image_infras ++ i ∷ [] }
      → Intact id x y
  insert_image-Intact i of_t h r found = (
    ground (arith, h, found),
    record {
      subsets = ground (arith, h);
      agents = ground (arith, h);
      labels = ground (arith, h);
      images =
          ground (arith, h, filter-append_other (image_of id) x.image_infras (i ∷ []), of_t, apart);
    },
  )
