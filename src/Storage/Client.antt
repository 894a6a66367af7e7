-- ===== src/Storage/Client.antt =====
-- What pkg/storage/redis.go calls: the commands of a Redis client (github.com/redis/go-redis) and
-- encoding/json, as parameters, with what the storage relies on.
use astrolabe_server.Common.{
  ℕ, String, string_key, Bool, true, false, ◌||◌, Option, none, some, List, [], ◌∷◌, ◌++◌, ◌≡◌, ◌≢◌,
  ◌↔◌, ◌⊎◌, inl, inr, ℕ_discrete, ite, ◌==◌, if◌then◌else◌, zero, suc,
}
use Prim.Native.Char.{code}
use text.Mathlib.Text.{starts_with}
use astrolabe_server.Common.Format.{◌<>◌}
use astrolabe_server.Graph.Types.{Uid, Edge, ResourceMetadata, ResourceStatus}
use astrolabe_server.Common.Dict.{Dict}
use astrolabe_server.Graph.Lookup.{All}
use astrolabe_server.Api.Related.{In}

-- The answer to `GET`: what the key holds, `redis.Nil`, or an error. `D` is the type of the byte
-- strings that `json.Marshal` makes.
pub data Reply (D : Type 0) : Type 0 where
  found : D → Reply D
  missing : Reply D
  failed : String → Reply D

-- The commands over a state, of the server and the connection to it. An error is its text. `SCAN`
-- takes a cursor and a pattern, and returns some keys and the next cursor, which is 0 at the end.
pub record Client (R D : Type 0) : Type 0 where
  pub get : String → R → Reply D
  pub set : String → D → R → R × Option String
  pub del : List String → R → R × Option String
  pub s_add : String → String → R → R × Option String
  pub s_rem : String → String → R → R × Option String
  pub scan : ℕ → String → R → String ⊎ (List String × ℕ)

-- `SerializedNode`
pub record SerializedNode : Type 0 where
  pub uid : Uid
  pub name : String
  pub namespace : String
  pub kind : String
  pub api_version : String
  pub resource_version : String
  pub labels : Dict String String
  pub annotations : Dict String String
  pub creation_timestamp : ℕ
  pub status : ResourceStatus
  pub status_message : String
  pub helm_chart : String
  pub helm_release : String
  pub metadata : Option ResourceMetadata

-- `json.Marshal` and `json.Unmarshal` at the two types that are stored.
pub record Codec (D : Type 0) : Type 0 where
  pub marshal_node : SerializedNode → String ⊎ D
  pub unmarshal_node : D → String ⊎ SerializedNode
  pub marshal_edge : Edge → String ⊎ D
  pub unmarshal_edge : D → String ⊎ Edge

-- What is marshalled can be unmarshalled, to the same value.
pub record IsCodec {D : Type 0} (codec : Codec D) : Type 0 where
  pub node_text : SerializedNode → D
  pub marshal_node-node_text : (n : SerializedNode) → codec.marshal_node n ≡ inr (node_text n)
  pub unmarshal_node-node_text : (n : SerializedNode) → codec.unmarshal_node (node_text n) ≡ inr n
  pub edge_text : Edge → D
  pub marshal_edge-edge_text : (e : Edge) → codec.marshal_edge e ≡ inr (edge_text e)
  pub unmarshal_edge-edge_text : (e : Edge) → codec.unmarshal_edge (edge_text e) ≡ inr e

module _ {R D : Type 0} (client : Client R D) where
  -- What is at a key, if `GET` finds it.
  abbrev pub value : String → R → Option D
  value k r = elim (client.get k r) [ found v ↦ some v | missing ↦ none | failed _ ↦ none ]

  -- The keys that the pages of a `SCAN` list from a cursor on, if it ends within the rounds.
  abbrev pub scan_pages : ℕ → ℕ → String → R → Option (List String)
  scan_pages zero cursor pattern r = none
  scan_pages (suc rounds) cursor pattern r = elim (client.scan cursor pattern r) [
    | inl _ ↦ none
    | inr (keys, next) ↦ elim next [
      | zero ↦ some keys
      | suc n ↦ elim (scan_pages rounds (suc n) pattern r) [
        | none ↦ none
        | some more ↦ some (keys ++ more)
      ]
    ]
  ]

-- A text whose characters a pattern takes as they are: none of `*`, `?`, `[` and `\`.
abbrev pub is_literal : String → Bool
is_literal String.[] = true
is_literal (String.◌∷◌ c s) =
    let n = code c in
    let rest = is_literal s in
    ite (ℕ_discrete n 42) false
      (ite (ℕ_discrete n 63) false (ite (ℕ_discrete n 91) false (ite (ℕ_discrete n 92) false rest)))

-- A server that answers every command, as the Redis commands are documented: `SET` changes the key
-- that it names, and `SADD` changes no text; a full iteration of `SCAN` over the keys with a literal
-- prefix ends within the pages that `rounds` says of the state, and lists each key that has a text, and
-- no key without the prefix.
pub record IsRedis {R D : Type 0} (rounds : R → ℕ) (client : Client R D) : Type 0 where
  pub set_ok : (k : String) (v : D) (r : R) → (client.set k v r).1 ≡ none
  pub value-set :
      (k : String) (v : D) (r : R) (j : String)
      → value client j (client.set k v r).0 ≡ (if k == j then some v else value client j r)
  pub value-s_add :
      (k v : String) (r : R) (j : String) → value client j (client.s_add k v r).0 ≡ value client j r
  pub scan_keys : String → R → List String
  pub scan_pages-scan_keys :
      (prefix : String) (r : R)
      → is_literal prefix ≡ true
      → scan_pages client (rounds r) 0 (prefix <> "*") r ≡ some (scan_keys prefix r)
  pub scan_keys_complete :
      (prefix : String) (r : R) (k : String)
      → starts_with k prefix ≡ true
      → value client k r ≢ none
      → In k (scan_keys prefix r)
  pub scan_keys_sound :
      (prefix : String) (r : R) (k : String)
      → In k (scan_keys prefix r)
      → starts_with k prefix ≡ true

abbrev pub member : String → List String → Bool
member k [] = false
member k (j ∷ ks) = j == k || member k ks

-- The pages of a `SCAN` after each of which its keys are deleted, each with the state that it is
-- listed in, and the state at the end.
module _ {R D : Type 0} (client : Client R D) where
  abbrev pub deleting : List String → R → R
  deleting [] r = r
  deleting (k ∷ ks) r = (client.del (k ∷ ks) r).0

  abbrev pub sweep : ℕ → ℕ → String → R → Option (List (R × List String))
  sweep zero cursor pattern r = none
  sweep (suc rounds) cursor pattern r = elim (client.scan cursor pattern r) [
    | inl _ ↦ none
    | inr (keys, next) ↦ elim next [
      | zero ↦ some ((r, keys) ∷ [])
      | suc n ↦ elim (sweep rounds (suc n) pattern (deleting keys r)) [
        | none ↦ none
        | some more ↦ some ((r, keys) ∷ more)
      ]
    ]
  ]

abbrev pub listed : {R : Type 0} → String → List (R × List String) → Bool
listed k [] = false
listed k ((_, keys) ∷ pages) = member k keys || listed k pages

-- A server that also deletes, as the commands are documented: `DEL` removes the keys that it names
-- and `SREM` no text; a pattern with one `*` matches the keys with the two ends; a full iteration of
-- `SCAN` ends within the pages that `rounds` says of its first state while keys are deleted, lists only keys that match, and lists each
-- key that matches and has a text all the while.
pub record IsDeleting {R D : Type 0} (rounds : R → ℕ) (client : Client R D) : Type 0 where
  pub del_ok : (ks : List String) (r : R) → (client.del ks r).1 ≡ none
  pub value-del :
      (ks : List String) (r : R) (j : String)
      → value client j (client.del ks r).0 ≡ (if member j ks then none else value client j r)
  pub value-s_rem :
      (k v : String) (r : R) (j : String) → value client j (client.s_rem k v r).0 ≡ value client j r
  pub matches : String → String → Bool
  pub matches_around :
      (prefix suffix k : String)
      → is_literal prefix ≡ true
      → is_literal suffix ≡ true
      → (matches (prefix <> "*" <> suffix) k ≡ true)
        ↔ ((middle : String) × (k ≡ prefix <> middle <> suffix))
  pub sweep_ends :
      (pattern : String) (r : R)
      → (pages : List (R × List String)) × (sweep client (rounds r) 0 pattern r ≡ some pages)
  pub sweep_sound :
      (pattern : String) (r : R) (pages : List (R × List String)) (k : String)
      → sweep client (rounds r) 0 pattern r ≡ some pages
      → listed k pages ≡ true
      → matches pattern k ≡ true
  pub sweep_complete :
      (pattern : String) (r : R) (pages : List (R × List String)) (k : String)
      → sweep client (rounds r) 0 pattern r ≡ some pages
      → matches pattern k ≡ true
      → All (λ page. value client k page.0 ≢ none) pages
      → listed k pages ≡ true
