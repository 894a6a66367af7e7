-- ===== src/Processors/Watched.antt =====
-- The informers of pkg/informers against the kinds that the registry has a processor for, and against
-- the API types that those processors expect.
use astrolabe_server.Common.{
  String, string_key, false, not, Option, none, some, List, ◌≡◌, map, ◌==◌, if◌then◌else◌,
}
use astrolabe_server.Common.Dict.{Dict, get}
use astrolabe_server.Processors.Interface.{GraphInterface}
use astrolabe_server.Processors.Objects.{Object, EventType, event_add, event_update, event_delete}
use astrolabe_server.Processors.Registry.{Processor}
use astrolabe_server.Processors.Informers.{Api, registers, added, updated, deleted, handler}
use astrolabe_server.Processors.Deletions.{api_of, meta_of, expected_apis, is_api}
use astrolabe_server.Api.Related.{times}

abbrev kinds : List String
kinds = map (λ entry. entry.0) registers

-- An informer's objects are of the type that the processor of its kind expects, but for the
-- autoscalers.
abbrev Fits : String → Api → Type 0
Fits kind a =
    elim (get kind expected_apis) [ none ↦ false | some b ↦ is_api b (some a) ]
    ≡ not (kind == "HorizontalPodAutoscaler")

module _ {S : Type 0} (g : GraphInterface S) (kind : String) where
  abbrev IsRegistered : Type 0
  IsRegistered = (a : Api) × (get kind registers ≡ some a)

  -- One informer for the kind, whose deletions remove nodes, unless the kind is that of the
  -- autoscalers.
  abbrev HasInformer : Api → Type 0
  HasInformer a =
      (get kind registers ≡ some a)
      × (times kind kinds ≡ 1)
      × ((obj : Object) (s : S)
          → api_of obj ≡ some a
          → handler g kind (deleted obj) s
            ≡ (if kind == "HorizontalPodAutoscaler" then s else g.remove_node (meta_of obj).uid s))

  -- What an informer of the autoscalers delivers is ignored.
  abbrev IsIgnored : Api → Processor S → Type 0
  IsIgnored a p =
      (obj : Object) (event : EventType) (s : S)
      → api_of obj ≡ some a
      → kind ≡ "HorizontalPodAutoscaler"
      → (p obj event s).0 ≡ s

  -- The notifications of a kind go to its processor.
  abbrev IsHandled : Processor S → Type 0
  IsHandled p =
      (old obj : Object) (s : S)
      → (handler g kind (added obj) s ≡ (p obj event_add s).0)
        × (handler g kind (updated old obj) s ≡ (p obj event_update s).0)
        × (handler g kind (deleted obj) s ≡ (p obj event_delete s).0)

  abbrev pub IsWatched : Option (Processor S) → Type 0
  IsWatched none = times kind kinds ≡ 0
  IsWatched (some p) = ((a : Api) × HasInformer a × IsIgnored a p) × IsHandled p
