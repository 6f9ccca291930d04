-- ===== src/Grpc/Watching.antt =====
-- code/grpc_example/rpc.go: the client's `WatchOrders`, and with which orders it calls its callback.
use mathlib.Core.List.{append_assoc}
use system_design_handbook.Base.{
  ℕ, zero, suc, ◌<◌, ◌≡◌, inl, inr, Holds, refl, ap, Option, none, some, List, [], ◌∷◌, ◌++◌,
  length, length-append, ◌==◌, if◌then◌else◌, arith,
}
use system_design_handbook.Bytes.{Bytes}
use system_design_handbook.Grpc.Varint.{Error}
use system_design_handbook.Grpc.Message.{
  Order, empty_order, marshal, Decoded, done, failed, stuck, unmarshal,
}
use system_design_handbook.Grpc.Frames.{
  frame_message, frame_end, frame_error, write_frame, FrameRead, got, cut, too_large, read_frame,
  read_frame-write_frame,
}
use system_design_handbook.Grpc.Orders.{OrderStore, new_order_store, Reason, list_by_customer}
use system_design_handbook.Grpc.Stores.{CreateRequest, create_all}
use system_design_handbook.Grpc.Listing.{IsWanted, Lists, create_all-Lists}
use system_design_handbook.Grpc.Service.{
  method_watch_orders, stream, serve_watch, dispatch, handle, write_request,
}
use system_design_handbook.Grpc.Remote.{Sendable, sent_back, read_written, handle_request}

-- How a stream ends: `stopped` by an error of the callback. `index_panic` is an error frame without a
-- code, of which the loop reads the first byte all the same. `out_of_fuel` is no end in Go.
pub data End (E : Type 0) : Type 0 where
  finished broken index_panic out_of_fuel : End E
  status : ℕ → Bytes → End E
  undecoded : Error → End E
  stopped : E → End E

unfoldable pub watch_error : {E : Type 0} → Bytes → End E
watch_error [] = index_panic
watch_error (c ∷ body) = status c body

-- The callback is `fn`: it changes a state of its own, and `none` is its nil error.
module _ {S E : Type 0} (fn : S → Order → S × Option E) where
  -- The callback's state, and how the call ended.
  abbrev pub Watched : Type 0
  Watched = S × End E

  -- `if err := fn(&o); err != nil`
  unfoldable pub hand_over : S × Option E → (S → Watched) → Watched
  hand_over (acc, none) go_on = go_on acc
  hand_over (acc, some err) go_on = (acc, stopped err)

  unfoldable pub watch_message : Decoded → S → (S → Watched) → Watched
  unfolding hand_over
  watch_message (done o) acc go_on = hand_over (fn acc o) go_on
  watch_message (failed e o) acc go_on = (acc, undecoded e)
  watch_message stuck acc go_on = (acc, out_of_fuel)

  -- The `switch` on the kind; a kind that is not known is passed over.
  unfoldable pub watch_frame : FrameRead → S → (Bytes → S → Watched) → Watched
  unfolding watch_message watch_error
  watch_frame (got kind body rest) acc go_on =
      if kind == frame_end
      then (acc, finished)
      else if kind == frame_error
      then (acc, watch_error body)
      else if kind == frame_message
      then watch_message (unmarshal body) acc (go_on rest)
      else go_on rest acc
  watch_frame cut acc go_on = (acc, broken)
  watch_frame too_large acc go_on = (acc, broken)

  unfoldable pub watch_loop : ℕ → Bytes → S → Watched
  watch_loop zero r acc = (acc, out_of_fuel)
  watch_loop (suc fuel) r acc = watch_frame (read_frame r) acc (watch_loop fuel)

  unfoldable pub receive_stream : Option Bytes → S → Watched
  receive_stream none acc = (acc, broken)
  receive_stream (some r) acc = watch_loop (suc (length r)) r acc

  module _ (text : Reason → Bytes) where
    unfoldable pub client_watch_orders : Bytes → S → OrderStore → OrderStore × Watched
    client_watch_orders customer acc s =
        let req = record empty_order { customer = customer } in
        let (s', reply) = handle text (write_request method_watch_orders req) s in
        (s', receive_stream reply acc)

  abbrev until_error : S × Option E → (S → Watched) → Watched
  until_error (acc, none) next = next acc
  until_error (acc, some err) next = (acc, stopped err)

  -- The callback runs over these orders, one after the other, until it returns an error.
  abbrev pub feed : List Order → S → Watched
  feed [] acc = (acc, finished)
  feed (o ∷ os) acc = until_error (fn acc o) (feed os)

  handed :
      (r : S × Option E) (go_on next : S → Watched)
      → ((acc : S) → go_on acc ≡ next acc)
      → hand_over r go_on ≡ until_error r next
  unfolding hand_over
  handed (acc, none) go_on next same = same acc
  handed (acc, some err) go_on next same = refl

abbrev AllSendable : List Order → Type 0
AllSendable [] = Unit
AllSendable (o ∷ os) = Sendable o × AllSendable os

AllSendable-all : (os : List Order) → ((o : Order) → Holds o os → Sendable o) → AllSendable os
AllSendable-all [] h = tt
AllSendable-all (o ∷ os) h = (h o (inl refl), AllSendable-all os (λ x held. h x (inr held)))

length-write_frame : (kind : ℕ) (payload : Bytes) → 0 < length (write_frame kind payload)
unfolding write_frame
length-write_frame kind payload = omega arith

module _ {S E : Type 0} (fn : S → Order → S × Option E) where
  watch_loop-stream :
      (os : List Order) (fuel : ℕ) (acc : S)
      → AllSendable os
      → length (stream os ++ write_frame frame_end []) < fuel
      → watch_loop fn fuel (stream os ++ write_frame frame_end []) acc ≡ feed fn os acc
  unfolding watch_loop watch_frame watch_message stream
  watch_loop-stream os zero acc h less = absurd (omega arith)
  watch_loop-stream [] (suc fuel) acc h less = rw (read_written frame_end [] (omega arith)) refl
  watch_loop-stream (o ∷ os) (suc fuel) acc h less =
      let first = write_frame frame_message (marshal o) in
      let rest = stream os ++ write_frame frame_end [] in
      let joined = append_assoc first (stream os) (write_frame frame_end []) in
      let shorter = length-append first rest in
      let some_bytes = length-write_frame frame_message (marshal o) in
      let size = ap length joined in
      let read = read_frame-write_frame frame_message (marshal o) rest (omega (arith, h.0.2)) in
      rw (joined, read, sent_back o h.0)
        (handed fn (fn acc o) _ (feed fn os)
          (λ acc'. watch_loop-stream os fuel acc' h.1 (omega (arith, shorter, some_bytes, size))))

  -- WatchOrders calls the callback with exactly the orders that the store has for the customer, all
  -- orders for an empty name, each once and by ascending identifier, until the callback returns an
  -- error, which ends the call; if it returns none, the call ends without an error. The store stays as
  -- it is. That is for any callback and after any calls of CreateOrder, if those orders and the
  -- request fit frames and are within the ranges of their Go types.
  pub client_watch_orders_lem :
      (text : Reason → Bytes) (rs : List CreateRequest) (customer : Bytes) (acc : S)
      → Sendable (record empty_order { customer = customer })
      → ((o : Order) → IsWanted customer (create_all rs new_order_store) o → Sendable o)
      → let s = create_all rs new_order_store in
        (os : List Order) × Lists customer s os
        × (client_watch_orders fn text customer acc s ≡ (s, feed fn os acc))
  unfolding client_watch_orders dispatch serve_watch receive_stream
  client_watch_orders_lem text rs customer acc h fits =
      let req = record empty_order { customer = customer } in
      let s = create_all rs new_order_store in
      let os = list_by_customer customer s in
      let lists = create_all-Lists rs customer in
      let all = AllSendable-all os (λ o held. fits o (lists.only_wanted o held)) in
      let fuel = suc (length (stream os ++ write_frame frame_end [])) in
      (
        os,
        lists,
        rw (handle_request text method_watch_orders req s h.2, sent_back req h)
            (ap (λ (w : Watched fn). (s, w)) (watch_loop-stream os fuel acc all (omega arith))),
      )
