-- ===== src/Storage/Keys.antt =====
-- The keys of pkg/storage/redis.go: no two nodes share one, nor two edges between UIDs without
-- colons, nor a node and an edge.
use Prim.Native.Char.{char, code}
use Prim.Native.String.{len, slice}
use text.Mathlib.Text.{starts_with}
use text.Mathlib.TextEquality.{eq_iff}
use text.Mathlib.TextLemmas.{
  append_cancel_left, append_inj, nil-append, cons-append, head-eq_of_cons-eq, tail-eq_of_cons-eq,
}
use text.Mathlib.TextPositions.{len-append, slice-append_right, starts_with-append}
use astrolabe_server.Common.{
  String, string_key, ℕ_discrete, Bool, true, false, ◌≡◌, refl, ◌≢◌, arith, sym, ap, ◌∙◌, ite,
}
use astrolabe_server.Common.Format.{◌<>◌}
use astrolabe_server.Graph.Types.{Uid}
use astrolabe_server.Storage.Layout.{
  node_key, edge_key, node_key_prefix, edge_key_prefix, uid_of_key,
}

-- A UID as Kubernetes gives it: no colon.
unfoldable pub has_colon : String → Bool
has_colon String.[] = false
has_colon (String.◌∷◌ c s) = let rest = has_colon s in ite (ℕ_discrete (code c) 58) true rest

pub node-ne-edge_prefix : node_key_prefix ≢ edge_key_prefix
node-ne-edge_prefix = ground (arith, eq_iff node_key_prefix edge_key_prefix)

pub node_key-ne-edge_key : (u a b : Uid) → node_key u ≢ edge_key a b
node_key-ne-edge_key u a b e = node-ne-edge_prefix (append_inj e refl).0

pub node_key_inj : (u v : Uid) → node_key u ≡ node_key v → u ≡ v
node_key_inj u v = append_cancel_left node_key_prefix u v

pub uid_of_key-node_key : (u : Uid) → uid_of_key (node_key u) ≡ u
uid_of_key-node_key u =
    ap (slice (node_key u) (len node_key_prefix)) (len-append node_key_prefix u)
    ∙ slice-append_right node_key_prefix u

pub starts_with-node_key : (u : Uid) → starts_with (node_key u) node_key_prefix ≡ true
starts_with-node_key u = starts_with-append node_key_prefix u

pub starts_with-edge_key : (a b : Uid) → starts_with (edge_key a b) edge_key_prefix ≡ true
starts_with-edge_key a b = starts_with-append edge_key_prefix (a <> ":" <> b)

has_colon-middle : (a b : String) → has_colon (a <> ":" <> b) ≡ true
unfolding has_colon ℕ_discrete
has_colon-middle String.[] b = rw (nil-append, cons-append) refl
has_colon-middle (String.◌∷◌ c a) b =
    rw (cons-append, has_colon) (ground (arith, has_colon-middle a b))

-- A text with one colon in it has one way to be parted at it.
pub parted :
    (a b x y : String)
    → has_colon x ≡ false
    → has_colon y ≡ false
    → a <> ":" <> b ≡ x <> ":" <> y
    → (a ≡ x) × (b ≡ y)
unfolding has_colon ℕ_discrete
parted String.[] b String.[] y p q e =
    (refl, append_cancel_left ":" b y (sym (nil-append (":" <> b)) ∙ e ∙ nil-append (":" <> y)))
parted String.[] b (String.◌∷◌ d x) y p q e =
    let colon : char 58 tt ≡ d = head-eq_of_cons-eq (
      sym (cons-append (char 58 tt) "" b)
      ∙ sym (nil-append (":" <> b))
      ∙ e
      ∙ cons-append d x (":" <> y)) in
    absurd (ground (arith, ap code colon))
parted (String.◌∷◌ c a) b String.[] y p q e =
    let rest : a <> ":" <> b ≡ y =
      tail-eq_of_cons-eq (
        sym (cons-append c a (":" <> b))
        ∙ e
        ∙ nil-append (":" <> y)
        ∙ cons-append (char 58 tt) "" y)
      ∙ nil-append y in
    absurd (ground (arith, has_colon-middle a b))
parted (String.◌∷◌ c a) b (String.◌∷◌ d x) y p q e =
    let whole : String.◌∷◌ c (a <> ":" <> b) ≡ String.◌∷◌ d (x <> ":" <> y) =
      sym (cons-append c a (":" <> b)) ∙ e ∙ cons-append d x (":" <> y) in
    let (first, rest) = parted a b x y (ground arith) q (tail-eq_of_cons-eq whole) in
    (cc (head-eq_of_cons-eq whole, first), rest)

pub edge_key_inj :
    (a b x y : Uid)
    → has_colon x ≡ false
    → has_colon y ≡ false
    → edge_key a b ≡ edge_key x y
    → (a ≡ x) × (b ≡ y)
edge_key_inj a b x y p q e =
    parted a b x y p q (append_cancel_left edge_key_prefix (a <> ":" <> b) (x <> ":" <> y) e)
