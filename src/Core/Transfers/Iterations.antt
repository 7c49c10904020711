-- ===== src/Core/Transfers/Iterations.antt =====
-- What one iteration of tox/core.cpp does to the entries of the table.
use tox4j.Base.{ℕ, [], ◌∷◌, ◌≡◌, sym, subst, arith, if◌then◌else◌, ap}
use tox4j.Base.Effect.{ok, chain_first, pure, ◌>>=◌, ◌>>◌}
use tox4j.Base.StdMap.{lookup, IsSorted, pair_key}
use tox4j.Core.Api.{ToxApi, Activity}
use tox4j.Core.State.{PauseReason, FileTransfer, Transfers, Session, set_tox, set_transfers}
use tox4j.Core.Handlers.{handle, run_activity}
use tox4j.Core.Iteration.{
  request_chunks, request_chunk, wants_chunk, notify_connection, new_tox_iteration,
}
use tox4j.Core.Iteration.Requests.{asked, asked_all}
use tox4j.Core.Transfers.{Moves, at_rest, more, Moves-trans}
use tox4j.Core.Transfers.Handled.{handle_edit}
use tox4j.Core.Transfers.Handled.Edits.{EditsTable}
use tox4j.Core.Transfers.Client.{asked_edit}

module _ (garbage : PauseReason) where
  -- Every entry made some moves, and the keys are in order.
  abbrev pub MovesTable : Transfers → Transfers → Type 0
  MovesTable m n = IsSorted n × ((k : ℕ × ℕ) → Moves garbage (lookup k m) (lookup k n))

  pub stay : (m : Transfers) → IsSorted m → MovesTable m m
  stay m s = (s, λ k. at_rest (lookup k m))

  pub after : (l m n : Transfers) → MovesTable l m → EditsTable garbage m n → MovesTable l n
  after l m n p q = (q.0, λ k. more (p.1 k) (q.1 k))

  pub before : (l m n : Transfers) → MovesTable l m → MovesTable m n → MovesTable l n
  before l m n p q = (q.0, λ k. Moves-trans garbage (p.1 k) (q.1 k))

module _ {Tox U : Type 0} (api : ToxApi Tox) (garbage : PauseReason) where
  run_activity_moves :
      (activity : Activity Tox) (s t : Session Tox U)
      → IsSorted s.new_tox.transfers
      → run_activity api garbage activity s ≡ ok (tt, t)
      → MovesTable garbage s.new_tox.transfers t.new_tox.transfers
  unfolding run_activity
  run_activity_moves (Activity.returns x) s t i e =
      subst (MovesTable garbage s.new_tox.transfers) (ground arith)
        (stay garbage s.new_tox.transfers i)
  run_activity_moves (Activity.calls x call next) s t i e =
      let (_, u, h, g) =
        chain_first (handle api garbage call (set_tox x s))
          (λ _ s'. run_activity api garbage (next s'.new_tox.tox) s') (tt, t) e in
      let first = handle_edit api garbage call (set_tox x s) u i h in
      before garbage _ _ _ (after garbage _ _ _ (stay garbage s.new_tox.transfers i) first)
        (run_activity_moves (next u.new_tox.tox) u t first.0 g)

  -- The turn of one transfer in the loop.
  asked_turn :
      (fn num : ℕ) (v w : FileTransfer) (s t : Session Tox U)
      → (if wants_chunk v then request_chunk api fn num v else pure v) s ≡ ok (w, t)
      → (w ≡ asked api s.new_tox.tox fn v) × (t.new_tox ≡ s.new_tox)
  unfolding request_chunk
  asked_turn fn num v w s t e = ground arith

  request_chunks_asked :
      (m n : Transfers) (s t : Session Tox U)
      → request_chunks api m s ≡ ok (n, t)
      → (n ≡ asked_all api s.new_tox.tox m) × (t.new_tox ≡ s.new_tox)
  unfolding request_chunks
  request_chunks_asked [] n s t e = ground arith
  request_chunks_asked (((fn, num), v) ∷ m) n s t e =
      let (w, u, h, g) =
        chain_first ((if wants_chunk v then request_chunk api fn num v else pure v) s)
          (λ w. request_chunks api m >>= λ rest. pure (((fn, num), w) ∷ rest)) (n, t) e in
      let (rest, x, k, r) =
        chain_first (request_chunks api m u) (λ rest. pure (((fn, num), w) ∷ rest)) (n, t) g in
      let now = asked_turn fn num v w s u h in
      let later = request_chunks_asked m rest u x k in ground (arith, now, later)

  notify_connection_keeps :
      (s t : Session Tox U)
      → notify_connection api s ≡ ok (tt, t)
      → t.new_tox.transfers ≡ s.new_tox.transfers
  unfolding notify_connection
  notify_connection_keeps s t e = ground arith

  -- What an iteration is: the callbacks, the notice of the own connection, and the requests.
  pub iteration_parts :
      (s t : Session Tox U)
      → new_tox_iteration api garbage s ≡ ok (tt, t)
      → (u : Session Tox U) × (v : Session Tox U) × (run_activity api garbage
            (api.tox_do s.new_tox.tox)
            s
          ≡ ok (tt, u))
        × (notify_connection api u ≡ ok (tt, v))
        × (t.new_tox
            ≡ (record (v.new_tox) { transfers = asked_all api v.new_tox.tox u.new_tox.transfers }))
  unfolding new_tox_iteration
  iteration_parts s t e =
      let (_, u, h, g) =
        chain_first (run_activity api garbage (api.tox_do s.new_tox.tox) s)
          (λ _. notify_connection api >> (λ v.
            (request_chunks api v.new_tox.transfers >>= λ m x. ok (tt, set_transfers m x)) v))
          (tt, t) e in
      let (_, v, k, f) =
        chain_first (notify_connection api u)
          (λ _ v. (request_chunks api v.new_tox.transfers >>= λ m x. ok (tt, set_transfers m x)) v)
          (tt, t) g in
      let (m, x, j, r) =
        chain_first (request_chunks api v.new_tox.transfers v) (λ m x. ok (tt, set_transfers m x))
          (tt, t) f in
      let asks = request_chunks_asked v.new_tox.transfers m v x j in
      (u, v, h, k, ground (arith, asks, notify_connection_keeps u v k, r))

  pub iteration_moves :
      (s t : Session Tox U)
      → IsSorted s.new_tox.transfers
      → new_tox_iteration api garbage s ≡ ok (tt, t)
      → MovesTable garbage s.new_tox.transfers t.new_tox.transfers
  iteration_moves s t i e =
      let (u, v, h, k, r) = iteration_parts s t e in
      let first = run_activity_moves (api.tox_do s.new_tox.tox) s u i h in
      subst (MovesTable garbage s.new_tox.transfers) (sym (ap (λ n. n.transfers) r)) (
        after garbage _ _ _ first
          (asked_edit api v.new_tox.tox garbage u.new_tox.transfers first.0))
