-- ===== src/Delivery/Service/Pushes.antt =====
-- How often LINE is called for one operation, whatever requests run at the same time.
use line_message_playground.Prelude.{
  ℕ, ◌+◌, ◌≤◌, ◌≡◌, refl, Option, some, none, List, [], ◌∷◌, arith,
}
use line_message_playground.Prelude.Rows.{count_where, nth, count-set_nth}
use line_message_playground.Delivery.Types.{Uuid, SubmitLinkedDelivery}
use line_message_playground.Delivery.Repository.{Runtime}
use line_message_playground.Delivery.Service.{Outside, World}
use line_message_playground.Delivery.Service.Requests.{
  Stage, Request, Server, proceed, advanced, advance_request, serve, arrived,
}
use line_message_playground.Delivery.Service.Pending.{bit, bit-one, is_for, taken, may_push, Falls}
use line_message_playground.Delivery.Service.Falls.{proceed-Falls}

module _ (operation_id : Uuid) where
  -- The operation's pushes so far and to come are at most `n`, and one more where it has a row.
  abbrev Bounded : ℕ → Server → Type 0
  Bounded n server =
      count_where (is_for operation_id) server.world.pushes
        + count_where (λ (r : Request). may_push operation_id r.stage) server.requests
      ≤ n + bit (taken operation_id server.world.db)

  advanced-Bounded :
      (n j : ℕ) (r : Request) (server : Server) (x : Stage × World)
      → nth j server.requests ≡ some r
      → Falls operation_id server.world r.stage x
      → Bounded n server
      → Bounded n (advanced j r.out x server)
  advanced-Bounded n j r server (st, w) e f b = omega (
    arith,
    f,
    b,
    count-set_nth (λ (q : Request). may_push operation_id q.stage) j r
        (record { out = r.out; stage = st }) server.requests e,
  )

  serve-Bounded :
      (rt : Runtime) (n : ℕ) (schedule : List ℕ) (server : Server)
      → Bounded n server
      → Bounded n (serve rt schedule server)
  unfolding serve
  serve-Bounded rt n [] server b = b
  serve-Bounded rt n (j ∷ schedule) server b =
      serve-Bounded rt n schedule (advance_request rt j (nth j server.requests) server)
        (one (nth j server.requests) refl)
    where
      one :
          (o : Option Request)
          → nth j server.requests ≡ o
          → Bounded n (advance_request rt j o server)
      one none e = b
      one (some r) e =
          advanced-Bounded n j r server (proceed rt r.out r.stage server.world) e
            (proceed-Falls operation_id rt r.out r.stage server.world) b

  arrived-quiet :
      (subs : List (Outside × SubmitLinkedDelivery))
      → count_where (λ (r : Request). may_push operation_id r.stage) (arrived subs) ≡ 0
  arrived-quiet [] = refl
  arrived-quiet ((out, command) ∷ rest) = arrived-quiet rest

-- Any submissions, of one operation or of several, with whatever contents and whatever the other
-- components answer each of them, run at the same time: their readings, their writes of attempts, their
-- calls of LINE and their writes of results come in any order, and any of them may stop anywhere. Then
-- LINE is called for each operation at most once more than it had been before.
pub serve_pushes_once :
    (rt : Runtime) (operation_id : Uuid) (subs : List (Outside × SubmitLinkedDelivery))
    (schedule : List ℕ) (w : World)
    → count_where
        (is_for operation_id)
        (serve rt schedule (record { world = w; requests = arrived subs })).world.pushes
      ≤ count_where (is_for operation_id) w.pushes + 1
serve_pushes_once rt operation_id subs schedule w =
    let server : Server = record { world = w; requests = arrived subs } in
    let h =
      serve-Bounded operation_id rt (count_where (is_for operation_id) w.pushes) schedule server
        (omega (arith, arrived-quiet operation_id subs)) in
    omega (arith, h, bit-one operation_id (taken operation_id (serve rt schedule server).world.db))
