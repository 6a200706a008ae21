-- ===== src/Relay/Eth2Near/Header/Nodes.antt =====
-- The nodes and the proofs that `submitBlock` takes out of ethashproof's lists.
use rainbow_bridge.Prelude.{ℕ, String, Option, none, some, List, [], ◌∷◌, ◌++◌, map}
use rainbow_bridge.Prelude.Js.{Result}
use rainbow_bridge.Borsh.Value.{Value, str, arr, obj, nil, cons, end, field}
use rainbow_bridge.Relay.Eth2Near.Header.{items_of, join}

module _ {A : Type 0} where
  abbrev pub flatten : List (A × A) → List A
  flatten [] = []
  flatten ((a, b) ∷ ps) = a ∷ b ∷ flatten ps

  abbrev pub concat_lists : List (List A) → List A
  concat_lists [] = []
  concat_lists (xs ∷ xss) = xs ++ concat_lists xss

  abbrev second : Option (A × A) → Option A
  second none = none
  second (some p) = some p.1

module _ (pad_left : String → ℕ → String) (hex_to_bytes : Value → Result (List ℕ)) where
  abbrev join2 : String × String → String
  join2 p = join pad_left hex_to_bytes p.0 p.1

  -- The node of four elements and a proof.
  abbrev pub node_of : (String × String) × (String × String) → List String → Value
  node_of (p, q) proof = obj (
      field "dag_nodes" (arr (cons (str (join2 p)) (cons (str (join2 q)) nil)))
        (field "proof" (arr (items_of (map (λ leaf. str (pad_left leaf 32)) proof))) end))

  abbrev pub nodes_of :
      List ((String × String) × (String × String)) → List (List String) → List Value
  nodes_of [] proofs = []
  nodes_of (g ∷ groups) [] = []
  nodes_of (g ∷ groups) (proof ∷ proofs) = node_of g proof ∷ nodes_of groups proofs
