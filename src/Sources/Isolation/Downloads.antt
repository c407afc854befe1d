-- ===== src/Sources/Isolation/Downloads.antt =====
-- A download leaves every source intact but the one that it is for.
use migration_planner.Prelude.{String, Bool, false, ◌≡◌, sym, ap, ◌∙◌, Option, none, some, str_eq}
use migration_planner.Access.Model.{Source, Key}
use migration_planner.Access.Store.{pure}
use migration_planner.Access.Store.Effects.{Effects, Effects-read, Effects-statement, Same-query}
use migration_planner.Sources.Store.{
  update_agent_token, write_token, get_key, create_key, insert_key,
}
use migration_planner.Sources.Agents.{find_source, optional}
use migration_planner.Sources.Uploads.{
  write_key, write_signed, with_key, has_good_token, ensure_agent_token, get_source_download,
}
use migration_planner.Sources.Keeping.Rules.{Same-optional}
use migration_planner.Sources.Tokens.{Gives, find_source-Gives}
use migration_planner.Sources.Isolation.{Intact, Intact-refl, write_token-Intact, insert_key-Intact}
use migration_planner.Sources.Isolation.Rules.{bind-Intact, if-Intact, Same-Intact}
use migration_planner.Sources.Isolation.Uploads.{read_id}

module _ (id t : String) (apart : str_eq t id ≡ false) where
  update_agent_token-Intact :
      (s : Source) (token : String) → s.id ≡ t → Effects (Intact id) (update_agent_token s.id token)
  unfolding update_agent_token
  update_agent_token-Intact s token of_t =
      Effects-statement (Intact id) (Intact-refl id) (write_token s.id token) (λ x y a e.
        write_token-Intact id t apart x y token a (ap (λ i. write_token i token x) (sym of_t) ∙ e))

  write_signed-Intact :
      (s : Source) (token : Option String) → s.id ≡ t → Effects (Intact id) (write_signed s token)
  write_signed-Intact s none of_t = λ w. Intact-refl id w.db
  write_signed-Intact s (some token) of_t = update_agent_token-Intact s token of_t

  write_key-Intact :
      (key : Key) (s : Source) (token : Option String)
      → s.id ≡ t
      → Effects (Intact id) (write_key key s token)
  unfolding create_key
  write_key-Intact key s none of_t = λ w. Intact-refl id w.db
  write_key-Intact key s (some token) of_t =
      bind-Intact id (create_key key) (λ u. update_agent_token s.id token)
        (Effects-statement (Intact id) (Intact-refl id) (insert_key key)
          (λ x y a e. insert_key-Intact id t apart x y key a e))
        (λ u. update_agent_token-Intact s token of_t)

  module _ (sign : Key → Source → Option String) where
    with_key-Intact :
        (s : Source) (new_key key : Option Key)
        → s.id ≡ t
        → Effects (Intact id) (with_key sign s new_key key)
    with_key-Intact s none none of_t = λ w. Intact-refl id w.db
    with_key-Intact s (some key) none of_t = write_key-Intact key s (sign key s) of_t
    with_key-Intact s new_key (some key) of_t = write_signed-Intact s (sign key s) of_t

    pub get_source_download-Intact :
        (expires : String → Bool) (new_key : Option Key)
        → Effects (Intact id) (get_source_download expires sign new_key t)
    unfolding get_source_download ensure_agent_token get_key
    get_source_download-Intact expires new_key =
        Effects-read (Intact id) (Intact-refl id) (Gives t) (find_source t) _ (find_source-Gives t)
          (λ l w h.
            bind-Intact id (ensure_agent_token expires sign new_key l) (λ u. pure l.source)
              (if-Intact id (has_good_token expires l.image_infra) (pure tt) _
                (λ w. Intact-refl id w.db)
                (bind-Intact id (optional (get_key l.source.org_id))
                  (with_key sign l.source new_key)
                  (Same-Intact id (optional (get_key l.source.org_id))
                    (Same-optional (get_key l.source.org_id) (Same-query _)))
                  (λ key. with_key-Intact l.source new_key key (read_id id t apart w.db l h))))
              (λ u w'. Intact-refl id w'.db) w)
