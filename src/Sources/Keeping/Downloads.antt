-- ===== src/Sources/Keeping/Downloads.antt =====
-- A download keeps sources.
use migration_planner.Prelude.{String, Bool, Option, none, some, arith}
use migration_planner.Access.Model.{Source, Key}
use migration_planner.Access.Store.{pure}
use migration_planner.Access.Store.Effects.{Effects, Same-query}
use migration_planner.Sources.Store.{
  update_agent_token, write_token, get_key, create_key, insert_key,
}
use migration_planner.Sources.Agents.{find_source, optional}
use migration_planner.Sources.Uploads.{
  write_key, write_signed, with_key, has_good_token, ensure_agent_token, get_source_download,
}
use migration_planner.Sources.Keeping.{Keeps, Keeps-refl}
use migration_planner.Sources.Keeping.Rules.{
  bind-Keeps, if-Keeps, Same-Keeps, other_table-Keeps, Same-find_source, Same-optional,
}

update_agent_token-Keeps :
    (id source_id token : String) → Effects (Keeps id) (update_agent_token source_id token)
unfolding update_agent_token
update_agent_token-Keeps id source_id token =
    other_table-Keeps id (write_token source_id token) (λ db db' a e. ground arith)

write_key-Keeps :
    (id : String) (key : Key) (s : Source) (token : Option String)
    → Effects (Keeps id) (write_key key s token)
unfolding create_key
write_key-Keeps id key s none = λ w. Keeps-refl id w.db
write_key-Keeps id key s (some token) =
    bind-Keeps id (create_key key) (λ _. update_agent_token s.id token)
      (other_table-Keeps id (insert_key key) (λ db db' a e. ground arith))
      (λ _. update_agent_token-Keeps id s.id token)

write_signed-Keeps :
    (id : String) (s : Source) (token : Option String) → Effects (Keeps id) (write_signed s token)
write_signed-Keeps id s none = λ w. Keeps-refl id w.db
write_signed-Keeps id s (some token) = update_agent_token-Keeps id s.id token

module _ (sign : Key → Source → Option String) where
  with_key-Keeps :
      (id : String) (s : Source) (new_key key : Option Key)
      → Effects (Keeps id) (with_key sign s new_key key)
  with_key-Keeps id s none none = λ w. Keeps-refl id w.db
  with_key-Keeps id s (some key) none = write_key-Keeps id key s (sign key s)
  with_key-Keeps id s new_key (some key) = write_signed-Keeps id s (sign key s)

pub get_source_download-Keeps :
    (expires : String → Bool) (sign : Key → Source → Option String) (new_key : Option Key)
    (id source_id : String)
    → Effects (Keeps id) (get_source_download expires sign new_key source_id)
unfolding get_source_download ensure_agent_token get_key
get_source_download-Keeps expires sign new_key id source_id =
    bind-Keeps id (find_source source_id) _
      (Same-Keeps id (find_source source_id) (Same-find_source source_id))
      (λ l.
        bind-Keeps id (ensure_agent_token expires sign new_key l) _
          (if-Keeps id (has_good_token expires l.image_infra) (pure tt) _ (λ w. Keeps-refl id w.db)
            (bind-Keeps id (optional (get_key l.source.org_id)) _
              (Same-Keeps id (optional (get_key l.source.org_id))
                (Same-optional (get_key l.source.org_id) (Same-query _)))
              (with_key-Keeps sign id l.source new_key)))
          (λ _ w. Keeps-refl id w.db))
