-- ===== src/Storage/Layout.antt =====
-- The keys of pkg/storage/redis.go, what it stores under them, and the sets in which it lists a node.
use Prim.Native.String.{slice, len}
use astrolabe_server.Common.{String, str_dec, string_key, List, [], ◌∷◌, ◌++◌, ite}
use astrolabe_server.Common.Format.{◌<>◌}
use astrolabe_server.Graph.Types.{Uid, Node, NodeData}
use astrolabe_server.Graph.Indexes.{ns_key}
use astrolabe_server.Storage.Client.{SerializedNode}

abbrev pub node_key_prefix : String
node_key_prefix = "astrolabe:node:"

abbrev pub edge_key_prefix : String
edge_key_prefix = "astrolabe:edge:"

abbrev pub namespace_kind_index : String
namespace_kind_index = "astrolabe:index:ns-kind:"

abbrev pub helm_release_index : String
helm_release_index = "astrolabe:index:helm-release:"

abbrev pub label_index : String
label_index = "astrolabe:index:label:"

abbrev pub node_key : Uid → String
node_key uid = node_key_prefix <> uid

-- `key[len(nodeKeyPrefix):]`
abbrev pub uid_of_key : String → Uid
uid_of_key key = slice key (len node_key_prefix) (len key)

abbrev pub edge_key : Uid → Uid → String
edge_key from to = edge_key_prefix <> from <> ":" <> to

-- The struct that `SaveNode` fills in, and the node that `GetNode` makes of it.
abbrev pub serialize : NodeData → SerializedNode
serialize n = record {
  uid = n.uid;
  name = n.name;
  namespace = n.namespace;
  kind = n.kind;
  api_version = n.api_version;
  resource_version = n.resource_version;
  labels = n.labels;
  annotations = n.annotations;
  creation_timestamp = n.creation_timestamp;
  status = n.status;
  status_message = n.status_message;
  helm_chart = n.helm_chart;
  helm_release = n.helm_release;
  metadata = n.metadata;
}

abbrev pub deserialize : SerializedNode → Node
deserialize s = record {
  fields = record {
    uid = s.uid;
    name = s.name;
    namespace = s.namespace;
    kind = s.kind;
    api_version = s.api_version;
    resource_version = s.resource_version;
    labels = s.labels;
    annotations = s.annotations;
    creation_timestamp = s.creation_timestamp;
    status = s.status;
    status_message = s.status_message;
    helm_chart = s.helm_chart;
    helm_release = s.helm_release;
    metadata = s.metadata;
  };
  outgoing_edges = [];
  incoming_edges = [];
}

-- The sets in which `updateIndexes` and `removeFromIndexes` list a node, in their order.
unfoldable pub label_keys : List (String × String) → List String
label_keys [] = []
label_keys ((k, v) ∷ labels) = (label_index <> k <> ":" <> v) ∷ label_keys labels

unfoldable pub index_keys : NodeData → List String
unfolding ns_key label_keys
index_keys n =
    (namespace_kind_index <> ns_key n.namespace <> ":" <> n.kind)
    ∷ (ite (str_dec n.helm_release "") [] ((helm_release_index <> n.helm_release) ∷ [])
        ++ label_keys n.labels)
