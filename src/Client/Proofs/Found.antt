-- ===== src/Client/Proofs/Found.antt =====
-- What the printed proof consists of.
use rainbow_bridge.Prelude.{
  ℕ, suc, ◌+◌, ◌≡◌, ◌≢◌, refl, sym, ap, ◌∙◌, arith, String, Bool-cases, inl, inr, ◌⊎◌, Option, none,
  some, List, [], ◌∷◌, map, ◌==◌, ==_iff,
}
use rainbow_bridge.Prelude.Js.{Result, ok, err, ok_inj}
use rainbow_bridge.Prelude.Async.{bind-elim, lift-elim}
use rainbow_bridge.Robust.Calls.{Node, robust_get_block, robust_get_transaction_receipt}
use rainbow_bridge.Relay.Near2Eth.Rules.{Said}
use rainbow_bridge.Client.Proofs.{
  LockedEvent, Web3Data, Libraries, ExtractedProof, ProofLocker, Printed, found, event_or_empty,
  extract_receipt, extract_block, receipts_of, put_receipt, put_receipts, or_type_error, build_trie,
  extract_proof, find_log, locker_of, print_log, try_find_proof, eth_to_near_find_proof,
}

module _ {W Block Receipt Log Tree PathNode D : Type 0} (web3 : Web3Data Block Receipt Log)
    (libraries : Libraries W Block Receipt Log Tree PathNode) (node : Node W Block Receipt)
    (times : D → D → D) (sleep : D → W → W) (delay wait : D) where
  -- The log at this position is the first of the logs with this index.
  pub data FirstAt (wanted : ℕ) : List Log → ℕ → Log → Type 0 where
    here :
        {log : Log} {logs : List Log}
        → web3.log_index log ≡ wanted
        → FirstAt wanted (log ∷ logs) 0 log
    there :
        {log other : Log} {logs : List Log} {i : ℕ}
        → web3.log_index other ≢ wanted
        → FirstAt wanted logs i log
        → FirstAt wanted (other ∷ logs) (suc i) log

  find_log-FirstAt :
      (logs : List Log) (index start i : ℕ) (log : Log)
      → find_log web3 libraries node times sleep delay wait logs (some index) start ≡ some (i, log)
      → (k : ℕ) × (i ≡ start + k) × FirstAt index logs k log
  unfolding find_log
  find_log-FirstAt [] index start i log h = cc
  find_log-FirstAt (l ∷ logs) index start i log h = elim (Bool-cases (web3.log_index l == index)) [
    | inl same ↦
        let e : Path (ℕ × Log) (start, l) (i, log) = cc (rw same at h) in
        (0, omega (arith, ap (λ p. p.0) e), rw (← ap (λ p. p.1) e) (here ((==_iff _ _).0 same)))
    | inr other ↦
        let (k, later, first) = find_log-FirstAt logs index (start + 1) i log (rw other at h) in
        (suc k, omega (arith, later), there (λ e. ground (arith, other, e)) first)
  ]

  find_log-none :
      (logs : List Log) (start : ℕ)
      → find_log web3 libraries node times sleep delay wait logs none start ≡ none
  unfolding find_log
  find_log-none [] start = refl
  find_log-none (log ∷ logs) start = find_log-none logs (start + 1)

  -- The answers to the questions for these transactions' receipts, in order, `none` for `null`.
  pub data ReceiptsOf : List String → List (Option Receipt) → Type 0 where
    no_more : ReceiptsOf [] []
    next :
        {t : String} {ts : List String} {r : Option Receipt} {rs : List (Option Receipt)}
        → Said (robust_get_transaction_receipt node times sleep delay wait t) r
        → ReceiptsOf ts rs
        → ReceiptsOf (t ∷ ts) (r ∷ rs)

  -- The first tree becomes the second when each of the receipts is put in at its number.
  pub data Filled : List (Option Receipt) → Tree → Tree → Type 0 where
    full : {tree : Tree} → Filled [] tree tree
    put_in :
        {r : Receipt} {rs : List (Option Receipt)} {bytes : List ℕ} {tree tree' tree'' : Tree}
        → libraries.serialize_receipt r ≡ ok bytes
        → Said (libraries.put_entry (libraries.encode (web3.transaction_index r)) bytes tree) tree'
        → Filled rs tree' tree''
        → Filled (some r ∷ rs) tree tree''

  -- The tree of all receipts of the block.
  abbrev pub IsTreeOf : Block → Tree → Type 0
  IsTreeOf block tree =
      (receipts : List (Option Receipt)) × ReceiptsOf (web3.transactions block) receipts
      × Filled receipts libraries.new_tree tree

  -- The receipt is the answer to the question for this hash, or for `undefined`.
  abbrev pub IsReceiptOf : Option String → Receipt → Type 0
  IsReceiptOf hash receipt =
      (asked : String) × ((hash ≡ some asked) ⊎ ((hash ≡ none) × (asked ≡ libraries.no_hash)))
      × Said (robust_get_transaction_receipt node times sleep delay wait asked) (some receipt)

  answered :
      (answer : Option Receipt) (receipt : Receipt)
      → or_type_error web3 libraries node times sleep delay wait answer ≡ ok receipt
      → answer ≡ some receipt
  answered none receipt h = cc
  answered (some other) receipt h = ap some (ok_inj other receipt h)

  receipts_of-ReceiptsOf :
      (ts : List String) (rs : List (Option Receipt)) (w : W)
      → (receipts_of web3 libraries node times sleep delay wait ts w).0 ≡ ok rs
      → ReceiptsOf ts rs
  unfolding receipts_of
  receipts_of-ReceiptsOf [] rs w h = let same : [] ≡ rs = ok_inj [] rs h in rw (← same) no_more
  receipts_of-ReceiptsOf (t ∷ ts) rs w h =
      bind-elim (robust_get_transaction_receipt node times sleep delay wait t) _ w rs h λ r w1 e h1.
        bind-elim (receipts_of web3 libraries node times sleep delay wait ts) _ w1 rs h1
          λ later w2 e2 h2.
            let same : r ∷ later ≡ rs = ok_inj _ rs h2 in
            rw (← same) (next (w, e) (receipts_of-ReceiptsOf ts later w1 e2))

  put_receipts-Filled :
      (rs : List (Option Receipt)) (tree tree' : Tree) (w : W)
      → (put_receipts web3 libraries node times sleep delay wait rs tree w).0 ≡ ok tree'
      → Filled rs tree tree'
  unfolding put_receipts put_receipt
  put_receipts-Filled [] tree tree' w h = let same : tree ≡ tree' = ok_inj _ _ h in rw (← same) full
  put_receipts-Filled (none ∷ rs) tree tree' w h = cc
  put_receipts-Filled (some r ∷ rs) tree tree' w h =
      bind-elim (put_receipt web3 libraries node times sleep delay wait (some r) tree) _ w tree' h
        λ tree1 w1 e h1.
          lift-elim (libraries.serialize_receipt r) _ w tree1 e
            λ bytes e2 h2. put_in e2 (w, h2) (put_receipts-Filled rs tree1 tree' w1 h1)

  pub build_trie-IsTreeOf :
      (block : Block) (tree : Tree) (w : W)
      → (build_trie web3 libraries node times sleep delay wait block w).0 ≡ ok tree
      → IsTreeOf block tree
  unfolding build_trie
  build_trie-IsTreeOf block tree w h =
      bind-elim (receipts_of web3 libraries node times sleep delay wait (web3.transactions block)) _
        w tree h
        λ receipts w1 e h1. (
          receipts,
          receipts_of-ReceiptsOf (web3.transactions block) receipts w e,
          put_receipts-Filled receipts libraries.new_tree tree w1 h1,
        )

  pub extract_receipt-IsReceiptOf :
      (hash : Option String) (receipt : Receipt) (w : W)
      → (extract_receipt web3 libraries node times sleep delay wait hash w).0 ≡ ok receipt
      → IsReceiptOf hash receipt
  unfolding extract_receipt
  extract_receipt-IsReceiptOf none receipt w h =
      bind-elim (robust_get_transaction_receipt node times sleep delay wait libraries.no_hash) _ w
        receipt h
        λ answer w1 e h1.
          (libraries.no_hash, inr (refl, refl), (w, e ∙ ap ok (answered answer receipt h1)))
  extract_receipt-IsReceiptOf (some asked) receipt w h =
      bind-elim (robust_get_transaction_receipt node times sleep delay wait asked) _ w receipt h
        λ answer w1 e h1. (asked, inl refl, (w, e ∙ ap ok (answered answer receipt h1)))

  -- The path of the receipt with this number in the tree, and the block's header.
  pub record IsPathOf (block : Block) (tree : Tree) (number : ℕ) (e : ExtractedProof PathNode)
      : Type 0 where
    pub stack : List PathNode
    pub header : Option Block
    pub said_stack : Said (libraries.find_path tree (libraries.encode number)) stack
    pub said_header : Said (libraries.web3_get_block (web3.number block)) header
    pub path_number : e.tx_index ≡ number
    pub header_data : libraries.serialize_header header ≡ ok e.header_rlp
    pub nodes : e.receipt_proof ≡ libraries.nodes_of_stack stack

  pub extract_proof-IsPathOf :
      (block : Block) (tree : Tree) (number : ℕ) (e : ExtractedProof PathNode) (w : W)
      → (extract_proof web3 libraries node times sleep delay wait block tree number w).0 ≡ ok e
      → IsPathOf block tree number e
  unfolding extract_proof
  extract_proof-IsPathOf block tree number e w h =
      bind-elim (libraries.find_path tree (libraries.encode number)) _ w e h λ stack w1 e1 h1.
        bind-elim (libraries.web3_get_block (web3.number block)) _ w1 e h1 λ header w2 e2 h2.
          lift-elim (libraries.serialize_header header) _ w2 e h2 λ bytes e3 h3.
            let built = ok_inj _ e h3 in
            record {
              stack = stack;
              header = header;
              said_stack = (w, e1);
              said_header = (w1, e2);
              path_number = sym (ap (λ p. p.tx_index) built);
              header_data = e3 ∙ ap ok (ap (λ p. p.header_rlp) built);
              nodes = sym (ap (λ p. p.receipt_proof) built);
            }

  -- Where the parts of the proof come from: the event that was read, its transaction's receipt and
  -- block, the tree of all receipts of the block, and the log with the event's index.
  pub record IsProofOf (raw : String) (n : ℕ) (p : ProofLocker) : Type 0 where
    pub event : LockedEvent
    pub index : ℕ
    pub receipt : Receipt
    pub block : Block
    pub log : Log
    pub tree : Tree
    pub stack : List PathNode
    pub header : Option Block
    pub parsed :
        (answer : Option LockedEvent) × (libraries.parse_json raw ≡ ok answer)
        × (event ≡ event_or_empty answer)
    pub of_event : IsReceiptOf event.transaction_hash receipt
    pub said_block :
        Said (robust_get_block node times sleep delay wait (web3.block_number receipt)) block
    pub of_receipts : IsTreeOf block tree
    pub said_stack :
        Said (libraries.find_path tree (libraries.encode (web3.transaction_index receipt))) stack
    pub said_header : Said (libraries.web3_get_block (web3.number block)) header
    pub of_block : n ≡ web3.number block
    pub wanted : event.log_index ≡ some index
    pub first : FirstAt index (web3.logs receipt) p.log_index log
    pub log_data : libraries.serialize_log log ≡ ok p.log_entry_data
    pub receipt_index : p.receipt_index ≡ web3.transaction_index receipt
    pub receipt_data : libraries.serialize_receipt receipt ≡ ok p.receipt_data
    pub header_data : libraries.serialize_header header ≡ ok p.header_data
    pub nodes : p.proof ≡ map libraries.rlp_encode (libraries.nodes_of_stack stack)

  print_log-found :
      (raw : String) (block : Block) (receipt : Receipt) (extracted : ExtractedProof PathNode)
      (o : Option (ℕ × Log)) (n : ℕ) (p : ProofLocker) (w : W)
      → (print_log web3 libraries node times sleep delay wait raw block receipt extracted o w).0
        ≡ ok (found n p)
      → (i : ℕ) × (log : Log) × (o ≡ some (i, log))
        × (n ≡ web3.number block)
        × (p.log_index ≡ i)
        × (libraries.serialize_log log ≡ ok p.log_entry_data)
        × (p.receipt_index ≡ extracted.tx_index)
        × (libraries.serialize_receipt receipt ≡ ok p.receipt_data)
        × (p.header_data ≡ extracted.header_rlp)
        × (p.proof ≡ map libraries.rlp_encode extracted.receipt_proof)
  unfolding locker_of
  print_log-found raw block receipt extracted none n p w h = cc
  print_log-found raw block receipt extracted (some (i, log)) n p w h =
      bind-elim (locker_of web3 libraries node times sleep delay wait receipt extracted i log) _ w
        (found n p) h
        λ locker w1 e h1. lift-elim (libraries.serialize_log log) _ w locker e λ log_data e1 h2.
          lift-elim (libraries.serialize_receipt receipt) _ w locker h2 λ receipt_data e2 h3.
            let printed : locker ≡ p = cc in
            let built = ok_inj _ locker h3 ∙ printed in
            let same : n ≡ web3.number block = cc in
            rw (← built) (i, log, refl, same, refl, e1, refl, e2, refl, refl)

  tried :
      (raw : String) (n : ℕ) (p : ProofLocker) (w : W)
      → (eth_to_near_find_proof web3 libraries node times sleep delay wait raw w).0 ≡ found n p
      → (try_find_proof web3 libraries node times sleep delay wait raw w).0 ≡ ok (found n p)
  unfolding eth_to_near_find_proof
  tried raw n p w h = go (try_find_proof web3 libraries node times sleep delay wait raw w).0 refl
    where
      go :
          (r : Result Printed)
          → (try_find_proof web3 libraries node times sleep delay wait raw w).0 ≡ r
          → (try_find_proof web3 libraries node times sleep delay wait raw w).0 ≡ ok (found n p)
      go (ok printed) q =
          let same : printed ≡ found n p = rw (q, eth_to_near_find_proof) at h in q ∙ ap ok same
      go (err e) q = cc (rw (q, eth_to_near_find_proof) at h)

  pub searched :
      (receipt : Receipt) (index : Option ℕ) (i : ℕ) (log : Log)
      → find_log web3 libraries node times sleep delay wait (web3.logs receipt) index 0
        ≡ some (i, log)
      → (k : ℕ) × (index ≡ some k) × FirstAt k (web3.logs receipt) i log
  searched receipt none i log h = cc (rw (find_log-none (web3.logs receipt) 0) at h)
  searched receipt (some index) i log h =
      let (k, at_start, first) = find_log-FirstAt (web3.logs receipt) index 0 i log h in
      let same : k ≡ i = omega (arith, at_start) in (index, refl, rw same at first)

  -- A proof that is printed, whether the connection can be closed then or not, is that of the event that
  -- was read: the log is the first of the receipt of
  -- its transaction with its index, at the position that is printed; the path is that of the
  -- receipt's number in the tree of all receipts of its block; and the header is the block's.
  pub find_proof-IsProofOf :
      (raw : String) (n : ℕ) (p : ProofLocker) (w : W)
      → (eth_to_near_find_proof web3 libraries node times sleep delay wait raw w).0 ≡ found n p
      → IsProofOf raw n p
  unfolding try_find_proof extract_block extract_proof
  find_proof-IsProofOf raw n p w h =
      let end : Printed = found n p in
      lift-elim (libraries.parse_json raw) _ w end (tried raw n p w h) λ answer e1 h1.
        let event : LockedEvent = event_or_empty answer in
        bind-elim
          (extract_receipt web3 libraries node times sleep delay wait event.transaction_hash) _ w
          end h1
          λ receipt w2 e2 h2.
            bind-elim
              (extract_block web3 libraries node times sleep delay wait (web3.block_number receipt))
              _ w2 end h2
              λ block w3 e3 h3.
                bind-elim (build_trie web3 libraries node times sleep delay wait block) _ w3 end h3
                  λ tree w4 e4 h4.
                    bind-elim
                      (extract_proof web3 libraries node times sleep delay wait block tree
                        (web3.transaction_index receipt))
                      _ w4 end h4
                      λ extracted w5 e5 h5.
                        let (
                          i, log, hit, of_block, place, log_data, number, receipt_data, header_data,
                          nodes,
                        ) =
                          print_log-found raw block receipt extracted _ n p w5 h5 in
                        let (index, wanted, first) = searched receipt event.log_index i log hit in
                        bind-elim
                          (libraries.find_path tree
                            (libraries.encode (web3.transaction_index receipt)))
                          _ w4 extracted e5
                          λ stack w7 e7 h7.
                            bind-elim (libraries.web3_get_block (web3.number block)) _ w7 extracted
                              h7
                              λ header w8 e8 h8.
                                lift-elim (libraries.serialize_header header) _ w8 extracted h8
                                  λ bytes e9 h9.
                                    let built = ok_inj _ extracted h9 in
                                    record {
                                      event = event;
                                      index = index;
                                      receipt = receipt;
                                      block = block;
                                      log = log;
                                      tree = tree;
                                      stack = stack;
                                      header = header;
                                      parsed = (answer, e1, refl);
                                      of_event =
                                          extract_receipt-IsReceiptOf event.transaction_hash receipt
                                            w e2;
                                      said_block = (w2, e3);
                                      of_receipts = build_trie-IsTreeOf block tree w3 e4;
                                      said_stack = (w4, e7);
                                      said_header = (w7, e8);
                                      of_block = of_block;
                                      wanted = wanted;
                                      first = rw place first;
                                      log_data = log_data;
                                      receipt_index = rw (← built) at number;
                                      receipt_data = receipt_data;
                                      header_data = e9 ∙ ap ok (rw (← built) at (sym header_data));
                                      nodes = rw (← built) at nodes;
                                    }
