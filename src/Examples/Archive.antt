-- ===== src/Examples/Archive.antt =====
-- The archive pages of internal/agent/broker/archive.go, one archive to a page.
use agent_whiteboard.Base.{
  [], ◌∷◌, ◌≡◌, refl, some, bytes, Str, str_eq, length, contains, map, arith,
}
use agent_whiteboard.Broker.Archive.{
  Session, Mapping, archive_page, newest_first, place, after_session, page_of, item_of,
}
use agent_whiteboard.Broker.Archive.Order.{session_ids, Descending}
use agent_whiteboard.Broker.Archive.Pages.{gather}
use agent_whiteboard.Broker.Archive.Paging.{gather-all}
use agent_whiteboard.Examples.Data.{turn_a, turn_b}

abbrev older : Session
older = record {
  conversation_id = turn_a;
  created_at = 1;
  updated_at = 5;
  model_label = bytes "small";
}

abbrev newer : Session
newer = record {
  conversation_id = turn_b;
  created_at = 2;
  updated_at = 9;
  model_label = bytes "large";
}

abbrev two_archives : Mapping
two_archives = record { provider = bytes "codex"; archives = older ∷ newer ∷ [] }

newest_is_first :
    gather 3 two_archives [] 1
    ≡ some (item_of (bytes "codex") newer ∷ item_of (bytes "codex") older ∷ [])
unfolding gather archive_page newest_first place after_session page_of str_eq
newest_is_first = refl

gather-all_example :
    (gather 3 two_archives [] 1
      ≡ some (map (item_of (bytes "codex")) (newest_first (older ∷ newer ∷ []))))
    × Descending (newest_first (older ∷ newer ∷ []))
    × (length (newest_first (older ∷ newer ∷ [])) ≡ 2)
    × ((id : Str)
        → contains id (session_ids (newest_first (older ∷ newer ∷ [])))
          ≡ contains id (session_ids (older ∷ newer ∷ [])))
gather-all_example =
    gather-all two_archives 1 (unfold str_eq in refl) (omega arith)
      (unfold str_eq in (refl, (refl, tt))) refl
