-- ===== src/Grpc/Remote.antt =====
-- code/grpc_example/rpc.go: a call over the connection is the call on the store.
use mathlib.Core.List.{append-nil}
use system_design_handbook.Base.{ℕ, suc, ◌≤◌, ◌≡◌, refl, sym, ap, ◌∙◌, List, [], ◌∷◌, length, arith}
use system_design_handbook.Bytes.{Bytes}
use system_design_handbook.Int.{ℤ}
use system_design_handbook.Grpc.Message.{Order, empty_order, marshal, done, unmarshal}
use system_design_handbook.Grpc.RoundTrip.{not_empty, IsEncodable, unmarshal-marshal}
use system_design_handbook.Grpc.Frames.{
  frame_message, frame_error, frame_limit, write_frame, got, read_frame, read_frame-write_frame,
}
use system_design_handbook.Grpc.Orders.{
  OrderStore, Reason, Outcome, answer, refused, panicked, get_order, create_order,
}
use system_design_handbook.Grpc.Service.{
  method_get_order, method_create_order, request_key, write_error, write_outcome, serve_get,
  serve_create, dispatch, handle_frame, handle, Reply, order, status, broken, decode_reply,
  read_reply, receive, write_request, key_tags, call, client_get_order, client_create_order,
}

pub read_written :
    (kind : ℕ) (payload : Bytes)
    → length payload ≤ frame_limit
    → read_frame (write_frame kind payload) ≡ got kind payload []
read_written kind payload h =
    ap read_frame (sym (append-nil (write_frame kind payload)))
    ∙ read_frame-write_frame kind payload [] h

-- An order that survives the wire, in a frame.
abbrev pub Sendable : Order → Type 0
Sendable o = IsEncodable o × (not_empty o.tags ≡ o.tags) × (suc (length (marshal o)) ≤ frame_limit)

pub sent_back : (o : Order) → Sendable o → unmarshal (marshal o) ≡ done o
sent_back o (h, tags, _) =
    unmarshal-marshal o h ∙ ap (λ (l : List Bytes). done (record o { tags = l })) tags

request_key-key_tags : (key : Bytes) → request_key (key_tags key) ≡ key
unfolding request_key key_tags
request_key-key_tags [] = refl
request_key-key_tags (c ∷ key) = refl

read_message :
    (body : Bytes) → read_reply (got frame_message body []) ≡ decode_reply (unmarshal body)
unfolding read_reply
read_message [] = refl
read_message (c ∷ body) = refl

module _ (text : Reason → Bytes) where
  -- What the caller sees of an outcome on the server.
  abbrev pub seen_by_client : Outcome → Reply
  seen_by_client (answer o) = order o
  seen_by_client (refused code reason) = status code (text reason)
  seen_by_client panicked = broken

  -- The reply fits a frame.
  abbrev pub Deliverable : Outcome → Type 0
  Deliverable (answer o) = Sendable o
  Deliverable (refused code reason) = suc (length (text reason)) ≤ frame_limit
  Deliverable panicked = Unit

  pub receive-write_outcome :
      (x : Outcome) → Deliverable x → receive (write_outcome text x) ≡ seen_by_client x
  unfolding receive write_outcome
  receive-write_outcome (answer o) h =
      ap read_reply (read_written frame_message (marshal o) (omega arith))
      ∙ read_message (marshal o)
      ∙ unfold decode_reply in ap decode_reply (sent_back o h)
  receive-write_outcome (refused code reason) h =
      unfold read_reply write_error in
      ap read_reply (read_written frame_error (code ∷ text reason) h)
  receive-write_outcome panicked h = refl

  pub handle_request :
      (method : ℕ) (req : Order) (s : OrderStore)
      → suc (length (marshal req)) ≤ frame_limit
      → handle text (write_request method req) s ≡ dispatch text method (marshal req) s
  unfolding handle write_request handle_frame
  handle_request method req s h = rw (read_written frame_message (method ∷ marshal req) h) refl

  call_lem :
      (method : ℕ) (req : Order) (s : OrderStore)
      → suc (length (marshal req)) ≤ frame_limit
      → call text method req s
        ≡ (let (s', reply) = dispatch text method (marshal req) s in (s', receive reply))
  unfolding call
  call_lem method req s h = rw (handle_request method req s h) refl

  -- GetOrder over the connection returns what GetOrder on the store returns.
  pub client_get_order_lem :
      (id : ℤ) (s : OrderStore)
      → Sendable (record empty_order { id = id })
      → Deliverable (get_order id s)
      → client_get_order text id s ≡ (s, seen_by_client (get_order id s))
  unfolding client_get_order dispatch serve_get
  client_get_order_lem id s h back =
      let req = record empty_order { id = id } in
      call_lem method_get_order req s h.2
      ∙ rw (sent_back req h)
          (ap (λ (r : Reply). (s, r)) (receive-write_outcome (get_order id s) back))

  -- CreateOrder over the connection does to the store what CreateOrder does there, and returns what it
  -- returns.
  pub client_create_order_lem :
      (customer : Bytes) (amount : ℤ) (key : Bytes) (s : OrderStore)
      → Sendable (record empty_order { customer = customer; amount = amount; tags = key_tags key })
      → Deliverable (create_order customer amount key s).1
      → client_create_order text customer amount key s ≡ (
        (create_order customer amount key s).0,
        seen_by_client (create_order customer amount key s).1,
      )
  unfolding client_create_order dispatch serve_create
  client_create_order_lem customer amount key s h back =
      let req = record empty_order { customer = customer; amount = amount; tags = key_tags key } in
      call_lem method_create_order req s h.2
      ∙ rw (sent_back req h, request_key-key_tags)
          (ap (λ (r : Reply). ((create_order customer amount key s).0, r))
            (receive-write_outcome (create_order customer amount key s).1 back))
