-- ===== src/Tests/Storage.antt =====
-- The Redis store of pkg/storage/redis.go over a map that stands for the server, and its theorems
-- there.
use text.Mathlib.Text.{starts_with}
use text.Mathlib.TextEquality.{starts_with_iff}
use text.Mathlib.TextLemmas.{append-nil}
use astrolabe_server.Common.{
  ℕ, String, str_dec, string_key, Bool, true, false, ◌||◌, none, some, List, [], ◌∷◌, ◌≡◌, ◌≢◌, inl,
  inr, ◌==◌, if◌then◌else◌, refl, arith, ap, sym, ◌∙◌, subst, Bool-cases,
}
use astrolabe_server.Common.Format.{◌<>◌}
use astrolabe_server.Common.Dict.{Dict, get, put, delete, get-put, get-delete}
use astrolabe_server.Graph.Types.{Node, NodeData, Uid, Edge, Graph}
use astrolabe_server.Graph.Views.{fields_of, out_edge, if_live}
use astrolabe_server.Api.Related.{In}
use astrolabe_server.Storage.Client.{
  Client, Codec, SerializedNode, found, missing, IsRedis, IsCodec, IsDeleting, value, is_literal,
  member, listed, sweep,
}
use astrolabe_server.Graph.Steps.{Reach}
use astrolabe_server.Graph.Once.{new_graph-IsOnce}
use astrolabe_server.Graph.Types.{edge_config_map_ref}
use astrolabe_server.Graph.Pending.{new_edge}
use astrolabe_server.Graph.Store.{new_graph}
use astrolabe_server.Persistence.Backend.{Backend}
use astrolabe_server.Persistence.Writer
use astrolabe_server.Persistence.Writer.{new_persistent_graph, close, receive, flush}
use astrolabe_server.Persistence.Refines.{
  Action, call_action, receive_action, tick_action, add_node_call, remove_node_call, add_edge_call,
  act_all,
}
use astrolabe_server.Storage.Saving.{node_at, edge_of}
use astrolabe_server.Storage.Removing.{delete_node_exact}
use astrolabe_server.Storage.Shutdown.{shut_down, start_up, start_up-shut_down}
use astrolabe_server.Storage.Redis.{redis_store}
use astrolabe_server.Storage.Redis
use astrolabe_server.Storage.Keys.{has_colon}
use astrolabe_server.Storage.Snapshot.{IsPlain}
use astrolabe_server.Storage.Stored.{
  IsStored, empty-IsStored, save_node-IsStored, save_graph-IsStored,
}
use astrolabe_server.Storage.Loaded.{IsLoaded, load_graph_exact}
use astrolabe_server.Storage.Restart.{
  IsSame, left_over, load_graph-save_graph, load_graph-save_graph_stale,
}
use astrolabe_server.Graph.Lookup.{All}
use astrolabe_server.Tests.Globs.{glob, glob_sound, glob_complete}
use astrolabe_server.Tests.{
  IsFresh-pod, IsFresh-settings, web_node, settings_node, linked_graph, linked_graph-Reach,
  linked_graph-IsConsistent, program,
}

-- A document, as the encoding keeps it.
data Document : Type 0 where
  node_document : SerializedNode → Document
  edge_document : Edge → Document

abbrev Map : Type 0
Map = Dict String Document

unfoldable keys_where : (String → Bool) → Map → List String
keys_where test [] = []
keys_where test ((k, _) ∷ m) = let rest = keys_where test m in if test k then k ∷ rest else rest

abbrev delete_all : List String → Map → Map
delete_all [] m = m
delete_all (k ∷ ks) m = delete_all ks (delete k m)

-- One page lists all.
abbrev one : Map → ℕ
one m = 1

abbrev server : Client Map Document
server = record {
  get = λ k m. elim (get k m) [ none ↦ missing | some d ↦ found d ];
  set = λ k d m. (put k d m, none);
  del = λ ks m. (delete_all ks m, none);
  s_add = λ k v m. (m, none);
  s_rem = λ k v m. (m, none);
  scan = λ cursor pattern m. inr (keys_where (glob pattern) m, 0);
}

abbrev json : Codec Document
json = record {
  marshal_node = λ n. inr (node_document n);
  unmarshal_node = λ d. elim d [ node_document n ↦ inr n | edge_document _ ↦ inl "an edge" ];
  marshal_edge = λ e. inr (edge_document e);
  unmarshal_edge = λ d. elim d [ node_document _ ↦ inl "a node" | edge_document e ↦ inr e ];
}

json-IsCodec : IsCodec json
json-IsCodec = record {
  node_text = node_document;
  marshal_node-node_text = λ n. refl;
  unmarshal_node-node_text = λ n. refl;
  edge_text = edge_document;
  marshal_edge-edge_text = λ e. refl;
  unmarshal_edge-edge_text = λ e. refl;
}

keys_where_complete :
    (test : String → Bool) (m : Map) (k : String)
    → test k ≡ true
    → value server k m ≢ none
    → In k (keys_where test m)
unfolding keys_where get
keys_where_complete test [] k h v = absurd (v refl)
keys_where_complete test ((j, d) ∷ m) k h v = elim (str_dec j k) [
  | yes same ↦ ground (arith, ap test same)
  | no other ↦
      let later = keys_where_complete test m k h (λ e. v (ground arith)) in
      elim (Bool-cases (test j)) [
        | inl q ↦ rw (q, keys_where) (inr later)
        | inr q ↦ rw (q, keys_where) later
      ]
]

keys_where_sound :
    (test : String → Bool) (m : Map) (k : String) → In k (keys_where test m) → test k ≡ true
unfolding keys_where
keys_where_sound test [] k i = elim i [ ]
keys_where_sound test ((j, d) ∷ m) k i = elim (Bool-cases (test j)) [
  | inl q ↦ ground (arith, ap test {x = j} {y = k}, keys_where_sound test m k)
  | inr q ↦ ground (arith, keys_where_sound test m k)
]

keys_where_same :
    (f g : String → Bool) (m : Map) → ((k : String) → f k ≡ g k) → keys_where f m ≡ keys_where g m
unfolding keys_where
keys_where_same f g [] h = refl
keys_where_same f g ((k, _) ∷ m) h = ground (arith, h k, keys_where_same f g m h)

glob_prefix : (p k : String) → is_literal p ≡ true → glob (p <> "*") k ≡ starts_with k p
glob_prefix p k h = elim (Bool-cases (starts_with k p)) [
  | inl q ↦
      let (rest, e) = (starts_with_iff k p).0 q in
      subst (λ j. glob (p <> "*") j ≡ true) (ap (λ t. p <> t) (append-nil rest) ∙ e)
        (glob_complete p rest "" h refl)
      ∙ sym q
  | inr q ↦ elim (Bool-cases (glob (p <> "*") k)) [
    | inl g ↦
        let (rest, e) = glob_sound p "" k h refl g in
        absurd (ground (arith, (starts_with_iff k p).1 (rest <> "", sym e)))
    | inr g ↦ g ∙ sym q
  ]
]

member-In : (k : String) (ks : List String) → In k ks → member k ks ≡ true
member-In k [] i = elim i [ ]
member-In k (j ∷ ks) i = ground (arith, member-In k ks)

In-member : (k : String) (ks : List String) → member k ks ≡ true → In k ks
In-member k [] h = absurd (ground (arith))
In-member k (j ∷ ks) h = elim (str_dec j k) [
  | yes p ↦ inl p
  | no p ↦ inr (In-member k ks (ground (arith)))
]

server-IsRedis : IsRedis one server
server-IsRedis = record {
  set_ok = λ k v m. refl;
  value-set = λ k v m j. ground (arith, get-put j k v m);
  value-s_add = λ k v m j. refl;
  scan_keys = λ p m. keys_where (λ k. starts_with k p) m;
  scan_pages-scan_keys = λ p m h.
      ap some (keys_where_same (glob (p <> "*")) (λ k. starts_with k p) m (λ k. glob_prefix p k h));
  scan_keys_complete = λ p. keys_where_complete (λ k. starts_with k p);
  scan_keys_sound = λ p. keys_where_sound (λ k. starts_with k p);
}

value-delete_all :
    (ks : List String) (m : Map) (j : String)
    → value server j (delete_all ks m) ≡ (if member j ks then none else value server j m)
value-delete_all [] m j = refl
value-delete_all (k ∷ ks) m j = ground (arith, value-delete_all ks (delete k m) j, get-delete j k m)

one_page :
    (pattern : String) (m : Map) (pages : List (Map × List String))
    → sweep server 1 0 pattern m ≡ some pages
    → pages ≡ ((m, keys_where (glob pattern) m) ∷ [])
one_page pattern m pages h = ground (arith)

server-IsDeleting : IsDeleting one server
server-IsDeleting = record {
  del_ok = λ ks m. refl;
  value-del = value-delete_all;
  value-s_rem = λ k v m j. refl;
  matches = glob;
  matches_around = λ p s k h q. (
    glob_sound p s k h q,
    λ found.
        subst (λ j. glob (p <> "*" <> s) j ≡ true) (sym found.1) (glob_complete p found.0 s h q),
  );
  sweep_ends = λ pattern m. ((m, keys_where (glob pattern) m) ∷ [], refl);
  sweep_sound = λ pattern m pages k h l. keys_where_sound (glob pattern) m k (
      In-member k (keys_where (glob pattern) m)
        (ground (arith, sym l ∙ ap (listed k) (one_page pattern m pages h))));
  sweep_complete = λ pattern m pages k h g all.
      let same = one_page pattern m pages h in
      let there = (subst (All (λ page. value server k page.0 ≢ none)) same all).0 in
      ap (listed k) same
      ∙ ground (
        arith,
        member-In k (keys_where (glob pattern) m) (keys_where_complete (glob pattern) m k g there),
      );
}

abbrev linked : Map
linked = (Redis.save_graph server json one linked_graph []).0

linked_uids : (u : Uid) (n : Node) → get u linked_graph.nodes ≡ some n → has_colon u ≡ false
unfolding program has_colon
linked_uids u n h = elim (str_dec "c" u) [
  | yes p ↦ subst (λ v. has_colon v ≡ false) p refl
  | no p ↦ elim (str_dec "p" u) [
    | yes q ↦ subst (λ v. has_colon v ≡ false) q refl
    | no q ↦ ground arith
  ]
]

linked-IsPlain : IsPlain linked_graph.nodes
linked-IsPlain =
    let once = new_graph-IsOnce linked_graph-Reach in
    record { distinct = once.nodes; distinct_edges = once.edges; uids = linked_uids }

nothing-is-stored : (k : String) → value server k [] ≡ none
unfolding get
nothing-is-stored k = refl

load_graph-save_graph_example :
    (h : Graph) × (Redis.load_graph server json one linked ≡ inr h)
    × IsSame h linked_graph
    × Reach new_graph h
load_graph-save_graph_example =
    load_graph-save_graph server json one server-IsRedis json-IsCodec linked_graph
      linked_graph-Reach linked_uids [] nothing-is-stored

linked-IsStored : IsStored server json one linked
linked-IsStored =
    save_graph-IsStored server json one server-IsRedis json-IsCodec linked_graph []
      linked_graph-IsConsistent.linked linked-IsPlain
      (empty-IsStored server json one server-IsRedis json-IsCodec [] nothing-is-stored)

load_graph_exact_example :
    (h : Graph) × (Redis.load_graph server json one linked ≡ inr h)
    × IsLoaded server json one linked h
load_graph_exact_example = load_graph_exact server json one server-IsRedis linked linked-IsStored

-- A node that the graph no longer has.
abbrev gone : NodeData
gone = record settings_node.fields { uid = "z"; name = "gone" }

abbrev with_gone : Map
with_gone = (Redis.save_node server json one gone linked).0

with_gone-IsStored : IsStored server json one with_gone
with_gone-IsStored =
    save_node-IsStored server json one server-IsRedis json-IsCodec gone linked linked-IsStored

-- Two nodes with an edge, saved over them and a third one.
load_graph-save_graph_stale_example :
    (h : Graph) × (Redis.load_graph server json one
        (Redis.save_graph server json one linked_graph with_gone).0
      ≡ inr h)
    × ((u : Uid)
        → fields_of u h.nodes
          ≡ left_over (fields_of u linked_graph.nodes) (node_at server json one u with_gone))
    × ((a b : Uid)
        → out_edge a b h.nodes
          ≡ if_live a h.nodes
              (if_live b h.nodes
                (left_over
                  (out_edge a b linked_graph.nodes)
                  (edge_of server json one a b with_gone))
                none)
              none)
load_graph-save_graph_stale_example =
    load_graph-save_graph_stale server json one server-IsRedis json-IsCodec linked_graph
      linked_graph-Reach linked_uids with_gone with_gone-IsStored

abbrev pod_uid : Uid
pod_uid = "p"

abbrev config_uid : Uid
config_uid = "c"

delete_node_exact_example :
    (node_at server json one pod_uid (Redis.delete_node server json one config_uid linked).0
      ≡ (if config_uid == pod_uid then none else node_at server json one pod_uid linked))
    × (edge_of server json one pod_uid config_uid
          (Redis.delete_node server json one config_uid linked).0
        ≡ elim (node_at server json one config_uid linked) [
          | none ↦ edge_of server json one pod_uid config_uid linked
          | some _ ↦
              if config_uid == pod_uid || config_uid == config_uid
              then none
              else edge_of server json one pod_uid config_uid linked
        ])
unfolding program has_colon
delete_node_exact_example =
    delete_node_exact server json one server-IsDeleting config_uid refl linked pod_uid pod_uid
      config_uid refl refl

abbrev store : Backend Map
store = redis_store server json one

abbrev actions : List Action
actions =
    call_action (add_node_call web_node)
    ∷ receive_action
    ∷ call_action (add_node_call settings_node)
    ∷ call_action (add_edge_call (new_edge edge_config_map_ref "p" "c"))
    ∷ tick_action
    ∷ call_action (remove_node_call "c")
    ∷ []

ended_uids :
    (u : Uid) (n : Node)
    → get u (act_all store actions (new_persistent_graph true true [])).graph.nodes ≡ some n
    → has_colon u ≡ false
unfolding program has_colon Writer.add_node Writer.add_edge Writer.remove_node receive flush
ended_uids u n h = elim (str_dec "p" u) [
  | yes q ↦ subst (λ v. has_colon v ≡ false) q refl
  | no q ↦ ground arith
]

start_up-shut_down_example :
    (((start_up store
          (shut_down store (act_all store actions (new_persistent_graph true true []))).stored).1
        ≡ none)
      × ((u : Uid)
          → fields_of u
              (start_up store
                (shut_down store
                  (act_all store actions (new_persistent_graph true true []))).stored).0.graph.nodes
            ≡ fields_of u (act_all store actions (new_persistent_graph true true [])).graph.nodes))
unfolding program has_colon Writer.add_node Writer.add_edge Writer.remove_node receive flush
start_up-shut_down_example =
    start_up-shut_down server json one server-IsRedis server-IsDeleting json-IsCodec []
      nothing-is-stored actions (IsFresh-pod, (IsFresh-settings, ((refl, refl), (refl, tt)))) refl
      ended_uids
