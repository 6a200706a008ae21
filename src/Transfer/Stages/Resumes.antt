-- ===== src/Transfer/Stages/Resumes.antt =====
-- What is left to do at each stage, and that the stages do it.
use rainbow_bridge.Prelude.{
  ℕ, ◌≡◌, refl, append-nil, sym, ap, ◌∙◌, Option, Bool, true, false, ◌⊎◌, inl, inr, List, [], ◌∷◌,
  ◌++◌, append_assoc,
}
use rainbow_bridge.Prelude.Js.{JsError, Result, ok, err}
use rainbow_bridge.Relay.Near2Eth.Rules.{Said}
use rainbow_bridge.Robust.Contract.{Tx}
use rainbow_bridge.Transfer.{
  Locked, FoundProof, SafeProof, TransferLog, not_started, approved, locked, proof_found,
  block_safe, TransferAct, approves, locks, sees_safe, deposits, Stage, passed, Transfer, ◌>>=◌,
  ◌>>◌,
}
use rainbow_bridge.Transfer.Passing.{bind-passed, asks-bind}
use rainbow_bridge.Transfer.Stages.{
  Setting, Doing, log_or_empty, load_transfer_log, approve, lock, find_proof, wait_block_safe,
  approve_stage, lock_stage, find_stage, safe_stage, deposit_stage, stages,
}
use rainbow_bridge.Transfer.Stages.Each.{
  Moved, FoundFor, Approval, Locking, approve-passed, lock-passed, find-passed,
}
use rainbow_bridge.Transfer.Stages.Waits.{SafeFor, Deposited, wait-passed, deposit-passed}

module _ {W TxReceipt Block Receipt Log Tree PathNode D : Type 0}
    (g : Setting W TxReceipt Block Receipt Log Tree PathNode D) (fuel : ℕ) where
  abbrev State : Type 0
  State = Transfer W Block Receipt Log PathNode

  -- A reading of the log failed.
  abbrev pub Unreadable : Type 0
  Unreadable = (w : W) × (e : JsError) × ((g.services.read_file w).0 ≡ err e)

  -- The acts that a log leaves to do: approve, lock, see the block of the event's proof safe, deposit
  -- that proof; those that the log has finished are not done again. After a stage (`true`), they end
  -- where the log could not be read again.
  pub data Remaining
      : Bool → TransferLog Block Receipt Log PathNode → List TransferAct → Type 0 where
    unread : {log : TransferLog Block Receipt Log PathNode} → Unreadable → Remaining true log []
    to_deposit :
        {b : Bool} {safe : SafeProof}
        → Deposited g fuel safe
        → Remaining b (block_safe safe) (deposits safe.proof_locker ∷ [])
    to_wait :
        {b : Bool} {f : FoundProof Block Receipt Log PathNode} {safe : SafeProof}
        {acts : List TransferAct}
        → SafeFor g fuel f safe
        → Said (g.services.block_hash_safe (g.web3.number f.block)) true
        → Remaining true (block_safe safe) acts
        → Remaining b (proof_found f) (sees_safe (g.web3.number f.block) ∷ acts)
    to_find :
        {b : Bool} {o : Option Locked} {f : FoundProof Block Receipt Log PathNode}
        {acts : List TransferAct}
        → FoundFor g fuel o f
        → Remaining true (proof_found f) acts
        → Remaining b (locked o) acts
    to_lock :
        {b : Bool} {sent : List Tx} {transaction : TxReceipt} {acts : List TransferAct}
        → Locking g fuel sent transaction
        → Remaining true (locked (g.services.locked_event transaction)) acts
        → Remaining b approved (locks sent ∷ acts)
    to_approve :
        {b : Bool} {sent : List Tx} {transaction : TxReceipt} {acts : List TransferAct}
        → Approval g fuel sent transaction
        → Remaining true approved acts
        → Remaining b not_started (approves sent ∷ acts)

  abbrev pub DoesAfter : Bool → TransferLog Block Receipt Log PathNode → State → State → Type 0
  DoesAfter b log s t = (acts : List TransferAct) × Remaining b log acts × (t.acts ≡ s.acts ++ acts)

  -- What the stages do from a log.
  abbrev pub Does : TransferLog Block Receipt Log PathNode → State → State → Type 0
  Does log s t = DoesAfter false log s t

  -- One act, and what is left after it.
  then-DoesAfter :
      {b : Bool} {log log' : TransferLog Block Receipt Log PathNode} {act : TransferAct}
      (s s' s'' t : State)
      → Moved g fuel s act log' s'
      → s''.acts ≡ s'.acts
      → ((acts : List TransferAct) → Remaining true log' acts → Remaining b log (act ∷ acts))
      → DoesAfter true log' s'' t
      → DoesAfter b log s t
  then-DoesAfter {act = act} s s' s'' t moved kept f (acts, left, done) = (
    act ∷ acts,
    f acts left,
    done
        ∙ ap (λ before. before ++ acts) (kept ∙ moved.new_acts)
        ∙ append_assoc s.acts (act ∷ []) acts,
  )

  -- The log is loaded again after a stage, as it is now, or empty where it cannot be read.
  loaded :
      (m : Doing g fuel Unit) (s t : State) (log : TransferLog Block Receipt Log PathNode)
      → (m >> load_transfer_log g fuel) s ≡ (passed log, t)
      → (s' : State) × (m s ≡ (passed tt, s'))
        × (t.acts ≡ s'.acts)
        × ((log ≡ s'.log) ⊎ ((log ≡ not_started) × Unreadable))
  unfolding load_transfer_log
  loaded m s t log h =
      let (u, s', e, e') = bind-passed m (λ _. load_transfer_log g fuel) s t log h in
      let state = ap (λ p. p.1) e' in
      (
        s',
        e,
        sym (ap (λ u. u.acts) state),
        read_back s'.log (g.services.read_file s'.world).0 refl
            (passed_inj _ log (ap (λ p. p.0) e')),
      )
    where
      passed_inj :
          (a b : TransferLog Block Receipt Log PathNode)
          → Path (Stage (TransferLog Block Receipt Log PathNode)) (passed a) (passed b)
          → a ≡ b
      passed_inj a b k = cc

      read_back :
          {w : W} (now : TransferLog Block Receipt Log PathNode) (r : Result (Unit {0}))
          → (g.services.read_file w).0 ≡ r
          → log_or_empty g fuel (g.services.read_file w).0 now ≡ log
          → (log ≡ now) ⊎ ((log ≡ not_started) × Unreadable)
      read_back now (ok u) q k = inl (sym (rw q at k))
      read_back {w} now (err e) q k = inr (sym (rw q at k), (w, e, q))

  -- The tests after each stage.
  abbrev after_find : TransferLog Block Receipt Log PathNode → Doing g fuel Unit
  after_find log = safe_stage g fuel log >>= deposit_stage g fuel

  abbrev after_lock : TransferLog Block Receipt Log PathNode → Doing g fuel Unit
  after_lock log = find_stage g fuel log >>= after_find

  abbrev after_approve : TransferLog Block Receipt Log PathNode → Doing g fuel Unit
  after_approve log = lock_stage g fuel log >>= after_lock

  -- What follows a stage: what the new log leaves to do, or nothing, where it could not be read.
  follows :
      (rest : TransferLog Block Receipt Log PathNode → Doing g fuel Unit)
      (log now : TransferLog Block Receipt Log PathNode) (s t : State)
      → ((s t : State) → rest now s ≡ (passed tt, t) → DoesAfter true now s t)
      → ((s t : State) → rest not_started s ≡ (passed tt, t) → t.acts ≡ s.acts)
      → (log ≡ now) ⊎ ((log ≡ not_started) × Unreadable)
      → rest log s ≡ (passed tt, t)
      → DoesAfter true now s t
  follows rest log now s t does idle (inl same) h = does s t (rw same at h)
  follows rest log now s t does idle (inr (empty, failed)) h =
      ([], unread failed, idle s t (rw empty at h) ∙ sym (append-nil s.acts))

  idle_deposit :
      (s t : State) → deposit_stage g fuel not_started s ≡ (passed tt, t) → t.acts ≡ s.acts
  unfolding deposit_stage
  idle_deposit s t h = sym (ap (λ p. p.1.acts) h)

  idle_find : (s t : State) → after_find not_started s ≡ (passed tt, t) → t.acts ≡ s.acts
  unfolding safe_stage deposit_stage
  idle_find s t h = sym (ap (λ p. p.1.acts) h)

  idle_lock : (s t : State) → after_lock not_started s ≡ (passed tt, t) → t.acts ≡ s.acts
  unfolding find_stage safe_stage deposit_stage
  idle_lock s t h = sym (ap (λ p. p.1.acts) h)

  idle_approve : (s t : State) → after_approve not_started s ≡ (passed tt, t) → t.acts ≡ s.acts
  unfolding lock_stage find_stage safe_stage deposit_stage
  idle_approve s t h = sym (ap (λ p. p.1.acts) h)

  deposits-left :
      {b : Bool} (safe : SafeProof) (s t : State)
      → deposit_stage g fuel (block_safe safe) s ≡ (passed tt, t)
      → DoesAfter b (block_safe safe) s t
  unfolding deposit_stage
  deposits-left safe s t h =
      let (acts, deposited) = deposit-passed g fuel safe s t h in (_, to_deposit deposited, acts)

  waits-left :
      {b : Bool} (f : FoundProof Block Receipt Log PathNode) (s t : State)
      → after_find (proof_found f) s ≡ (passed tt, t)
      → DoesAfter b (proof_found f) s t
  unfolding safe_stage
  waits-left f s t h =
      let (log, s1, e, h') =
        bind-passed (wait_block_safe g fuel f >> load_transfer_log g fuel) (deposit_stage g fuel) s
          t tt h in
      let (s', waited, kept, reread) = loaded (wait_block_safe g fuel f) s s1 log e in
      let (safe, of_proof, seen, moved) = wait-passed g fuel f s s' waited in
      then-DoesAfter s s' s1 t moved kept (λ acts left. to_wait of_proof seen left)
        (follows (deposit_stage g fuel) log (block_safe safe) s1 t (deposits-left safe) idle_deposit
          (rw moved.new_log at reread) h')

  finds-left :
      {b : Bool} (o : Option Locked) (s t : State)
      → after_lock (locked o) s ≡ (passed tt, t)
      → DoesAfter b (locked o) s t
  unfolding find_stage
  finds-left o s t h =
      let (log, s1, e, h') =
        bind-passed (find_proof g fuel o >> load_transfer_log g fuel) after_find s t tt h in
      let (s', tried, kept, reread) = loaded (find_proof g fuel o) s s1 log e in
      let (f, found, new_log, same) = find-passed g fuel o s s' tried in
      let (acts, left, done) =
        follows after_find log (proof_found f) s1 t (waits-left f) idle_find (rw new_log at reread)
          h' in
      (acts, to_find found left, done ∙ ap (λ before. before ++ acts) (kept ∙ same))

  locks-left :
      {b : Bool} (s t : State)
      → after_approve approved s ≡ (passed tt, t)
      → DoesAfter b approved s t
  unfolding lock_stage
  locks-left s t h =
      let (log, s1, e, h') =
        bind-passed (lock g fuel >> load_transfer_log g fuel) after_lock s t tt h in
      let (s', tried, kept, reread) = loaded (lock g fuel) s s1 log e in
      let (sent, transaction, called, moved) = lock-passed g fuel s s' tried in
      let event = g.services.locked_event transaction in
      then-DoesAfter s s' s1 t moved kept (λ acts left. to_lock called left)
        (follows after_lock log (locked event) s1 t (finds-left event) idle_lock
          (rw moved.new_log at reread) h')

  approves-left :
      (s t : State) → stages g fuel not_started s ≡ (passed tt, t) → Does not_started s t
  unfolding stages approve_stage
  approves-left s t h =
      let (log, s1, e, h') =
        bind-passed (approve_stage g fuel not_started) after_approve s t tt h in
      let (balance, s0, said, log0, acts0, h0) =
        asks-bind (g.services.erc20_balance_of g.args.eth_sender_account)
          (λ _. approve g fuel >> load_transfer_log g fuel) s s1 log e in
      let (s', tried, kept, reread) = loaded (approve g fuel) s0 s1 log h0 in
      let (sent, transaction, called, moved) = approve-passed g fuel s0 s' tried in
      let (acts, left, done) =
        then-DoesAfter s0 s' s1 t moved kept (λ acts left. to_approve called left)
          (follows after_approve log approved s1 t locks-left idle_approve
            (rw moved.new_log at reread) h') in
      (acts, left, done ∙ ap (λ before. before ++ acts) acts0)

  -- When the stages pass, they have done what the log left to do, in order, and nothing else, up to a
  -- reading of the log that failed.
  pub stages-Does :
      (log : TransferLog Block Receipt Log PathNode) (s t : State)
      → stages g fuel log s ≡ (passed tt, t)
      → Does log s t
  unfolding stages approve_stage lock_stage find_stage safe_stage
  stages-Does not_started s t h = approves-left s t h
  stages-Does approved s t h = locks-left s t h
  stages-Does (locked o) s t h = finds-left o s t h
  stages-Does (proof_found f) s t h = waits-left f s t h
  stages-Does (block_safe safe) s t h = deposits-left safe s t h
