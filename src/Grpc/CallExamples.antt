-- ===== src/Grpc/CallExamples.antt =====
-- code/grpc_example/rpc.go: the calls of the demo, and the theorems there.
use mathlib.Core.Path.{subst}
use Prim.Native.String.{String}
use system_design_handbook.Base.{
  ℕ, zero, suc, inl, inr, Holds, List, Option, none, some, ◌≡◌, ◌≢◌, refl, [], ◌∷◌, ℕ_discrete,
  lt_wf, dec_lt, arith,
}
use system_design_handbook.Base.Dict.{find, insert}
use system_design_handbook.Bytes.{Bytes, read_full, bytes_discrete}
use system_design_handbook.Int.{ℤ, pos}
use system_design_handbook.Grpc.Varint.{
  varint_loop, append_varint, consume_loop, consume_varint, to_u64, to_i64,
}
use system_design_handbook.Grpc.Fields.{
  append_tag, consume_tag, append_int64, append_string, consume_bytes, skip_value,
}
use system_design_handbook.Grpc.Unknown.{no_field}
use system_design_handbook.Grpc.RoundTrip.{not_empty}
use system_design_handbook.Grpc.Message.{
  Order, empty_order, store_varint, store_bytes, keep_raw, append_tags, marshal, decode_value,
  decode_field, unmarshal_loop, unmarshal,
}
use system_design_handbook.Grpc.Frames.{frame_error, write_frame, read_payload, read_frame}
use system_design_handbook.Grpc.Orders.{
  int_discrete, OrderStore, new_order_store, Reason, answer, panicked, new_order, note_key,
  add_order, stored_order, create_for_key, create_order, get_order, wanted, list_up_to,
  list_by_customer,
}
use system_design_handbook.Grpc.Stores.{CreateRequest, create_all}
use system_design_handbook.Grpc.Listing.{IsWanted, Lists, create_all-Lists}
use system_design_handbook.Grpc.Creation.{accepted, created_once}
use system_design_handbook.Grpc.Service.{
  request_key, stream, write_error, write_outcome, serve_get, serve_create, serve_watch, dispatch,
  handle_frame, handle, order, status, decode_reply, read_reply, receive, write_request, key_tags,
  call, client_get_order, client_create_order,
}
use system_design_handbook.Grpc.Remote.{Sendable, seen_by_client, client_create_order_lem}
use system_design_handbook.Grpc.Watching.{
  hand_over, watch_message, watch_error, watch_frame, watch_loop, receive_stream,
  client_watch_orders, finished, index_panic, stopped, feed, client_watch_orders_lem,
}

program : Unit {0}
unfolding dec_lt lt_wf ℕ_discrete find insert read_full bytes_discrete varint_loop append_varint
    consume_loop consume_varint to_u64 to_i64 append_tag consume_tag append_int64 append_string
    consume_bytes skip_value append_tags marshal store_varint store_bytes keep_raw decode_value
    decode_field unmarshal_loop unmarshal not_empty write_frame read_payload read_frame int_discrete
    new_order note_key add_order stored_order create_for_key create_order get_order wanted
    list_up_to list_by_customer create_all request_key stream write_error write_outcome serve_get
    serve_create serve_watch dispatch handle_frame handle decode_reply read_reply receive
    write_request key_tags call client_get_order client_create_order hand_over watch_message
    watch_error watch_frame watch_loop receive_stream client_watch_orders
program = tt

abbrev alice : Bytes
alice = 97 ∷ 108 ∷ []

abbrev text : Reason → Bytes
text reason = 63 ∷ []

abbrev made : Order
made = record {
  id = pos 1;
  customer = alice;
  amount = pos 4999;
  status = pos 1;
  tags = [];
  unknown_fields = [];
}

abbrev asked : Order
asked = record empty_order { customer = alice; amount = pos 4999; tags = (107 ∷ []) ∷ [] }

created_remotely :
    (client_create_order text alice (pos 4999) (107 ∷ []) new_order_store).1 ≡ order made
unfolding program
created_remotely = refl

not_found_remotely : (client_get_order text (pos 9) new_order_store).1 ≡ status 1 (63 ∷ [])
unfolding program
not_found_remotely = refl

created_once_example :
    let t =
      create_all
        (record { customer = 98 ∷ []; amount = pos 5; key = [] } ∷ [])
        (create_order alice (pos 4999) (107 ∷ []) (create_all [] new_order_store)).0 in
    (create_order (98 ∷ []) (pos 7) (107 ∷ []) t ≡ (t, answer made))
    × ((name k : Bytes) (n : ℤ) → (create_order name n k t).1 ≢ panicked)
created_once_example =
    created_once [] (record { customer = 98 ∷ []; amount = pos 5; key = [] } ∷ []) alice (98 ∷ [])
      (pos 4999) (pos 7) 107 [] made (unfold program in refl) (accepted 98 [] 6)

asked-Sendable : Sendable asked
unfolding program
asked-Sendable = (
  record {
    id = omega arith;
    customer = omega arith;
    amount = omega arith;
    status = omega arith;
    tags = (omega arith, tt);
    unknown_fields = no_field;
  },
  refl,
  omega arith,
)

made-Sendable : Sendable made
unfolding program
made-Sendable = (
  record {
    id = omega arith;
    customer = omega arith;
    amount = omega arith;
    status = omega arith;
    tags = tt;
    unknown_fields = no_field;
  },
  refl,
  omega arith,
)

client_create_order_lem_example :
    client_create_order text alice (pos 4999) (107 ∷ []) new_order_store ≡ (
      (create_order alice (pos 4999) (107 ∷ []) new_order_store).0,
      seen_by_client text (create_order alice (pos 4999) (107 ∷ []) new_order_store).1,
    )
unfolding program
client_create_order_lem_example =
    client_create_order_lem text alice (pos 4999) (107 ∷ []) new_order_store asked-Sendable
      made-Sendable

-- An order of alice, one of another customer, and alice's request once more.
abbrev requests : List CreateRequest
requests =
    record { customer = alice; amount = pos 4999; key = 107 ∷ [] }
    ∷ record { customer = 98 ∷ []; amount = pos 5; key = [] }
    ∷ record { customer = alice; amount = pos 4999; key = 107 ∷ [] }
    ∷ []

abbrev filled : OrderStore
filled = create_all requests new_order_store

alice-Sendable : Sendable (record empty_order { customer = alice })
unfolding program
alice-Sendable = (
  record {
    id = omega arith;
    customer = omega arith;
    amount = omega arith;
    status = omega arith;
    tags = tt;
    unknown_fields = no_field;
  },
  refl,
  omega arith,
)

made-only : (o : Order) → Holds o (made ∷ []) → Sendable o
made-only o (inl e) = subst Sendable e made-Sendable
made-only o (inr nothing) = absurd nothing

alice-orders : (o : Order) → IsWanted alice filled o → Sendable o
unfolding program
alice-orders o w = made-only o ((create_all-Lists requests alice).all_wanted o w)

-- A callback that counts the orders and stops at the second one.
abbrev count_to_two : ℕ → Order → ℕ × Option String
count_to_two zero o = (1, none)
count_to_two (suc n) o = (suc (suc n), some "enough")

client_watch_orders_lem_example :
    (os : List Order) × Lists alice filled os
    × (client_watch_orders count_to_two text alice 0 filled ≡ (filled, feed count_to_two os 0))
client_watch_orders_lem_example =
    client_watch_orders_lem count_to_two text requests alice 0 alice-Sendable alice-orders

one_of_alice : (client_watch_orders count_to_two text alice 0 filled).1 ≡ (1, finished)
unfolding program
one_of_alice = refl

all_customers_stopped :
    (client_watch_orders count_to_two text [] 0 filled).1 ≡ (2, stopped "enough")
unfolding program
all_customers_stopped = refl

-- An error frame without a code is read past its end.
watch_empty_error : watch_loop count_to_two 2 (write_frame frame_error []) 0 ≡ (0, index_panic)
unfolding program
watch_empty_error = refl
