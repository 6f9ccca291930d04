-- ===== src/Grpc/Service.antt =====
-- code/grpc_example/rpc.go: the server's `handle` and `dispatch`, and the client's calls. `text` gives
-- the text of a status error. The network is the bytes on a connection, which no step loses: a client
-- that writes its request and waits has one request and its reply on the way.
use system_design_handbook.Base.{ℕ, Option, none, some, List, [], ◌∷◌, ◌++◌, ◌==◌, if◌then◌else◌}
use system_design_handbook.Bytes.{Bytes}
use system_design_handbook.Int.{ℤ}
use system_design_handbook.Grpc.Varint.{Error}
use system_design_handbook.Grpc.Message.{
  Order, empty_order, marshal, Decoded, done, failed, stuck, unmarshal,
}
use system_design_handbook.Grpc.Frames.{
  frame_message, frame_end, frame_error, write_frame, FrameRead, got, cut, too_large, read_frame,
}
use system_design_handbook.Grpc.Orders.{
  OrderStore, Reason, unknown_method, undecodable, Outcome, answer, refused, panicked,
  code_invalid_argument, get_order, create_order, list_by_customer,
}

-- Methods are bytes; those of the service are 0, 1 and 2.
abbrev pub method_get_order : ℕ
method_get_order = 0

abbrev pub method_create_order : ℕ
method_create_order = 1

abbrev pub method_watch_orders : ℕ
method_watch_orders = 2

-- `req.Tags[0]`, where there is one.
unfoldable pub request_key : List Bytes → Bytes
request_key [] = []
request_key (key ∷ tags) = key

-- A message frame for each order.
unfoldable pub stream : List Order → Bytes
stream [] = []
stream (o ∷ os) = write_frame frame_message (marshal o) ++ stream os

module _ (text : Reason → Bytes) where
  -- What the server writes. `none` for a panic, which ends it.
  unfoldable pub write_error : ℕ → Reason → Bytes
  write_error code reason = write_frame frame_error (code ∷ text reason)

  unfoldable pub write_outcome : Outcome → Option Bytes
  unfolding write_error
  write_outcome (answer o) = some (write_frame frame_message (marshal o))
  write_outcome (refused code reason) = some (write_error code reason)
  write_outcome panicked = none

  -- The three handlers, for a body that was decoded.
  unfoldable pub serve_get : OrderStore → Decoded → OrderStore × Option Bytes
  serve_get s (done req) = (s, write_outcome (get_order req.id s))
  serve_get s (failed e o) = (s, some (write_error code_invalid_argument (undecodable e)))
  serve_get s stuck = (s, none)

  unfoldable pub serve_create : OrderStore → Decoded → OrderStore × Option Bytes
  serve_create s (done req) =
      let (s', outcome) = create_order req.customer req.amount (request_key req.tags) s in
      (s', write_outcome outcome)
  serve_create s (failed e o) = (s, some (write_error code_invalid_argument (undecodable e)))
  serve_create s stuck = (s, none)

  unfoldable pub serve_watch : OrderStore → Decoded → OrderStore × Option Bytes
  serve_watch s (done req) =
      (s, some (stream (list_by_customer req.customer s) ++ write_frame frame_end []))
  serve_watch s (failed e o) = (s, some (write_error code_invalid_argument (undecodable e)))
  serve_watch s stuck = (s, none)

  unfoldable pub dispatch : ℕ → Bytes → OrderStore → OrderStore × Option Bytes
  unfolding serve_get serve_create serve_watch
  dispatch method body s =
      if method == method_get_order
      then serve_get s (unmarshal body)
      else if method == method_create_order
      then serve_create s (unmarshal body)
      else if method == method_watch_orders
      then serve_watch s (unmarshal body)
      else (s, some (write_error code_invalid_argument unknown_method))

  -- One round of `handle`, on what the client sent. The connection is closed, with nothing written,
  -- when no frame can be read or it is no message with a method.
  unfoldable pub handle_frame : FrameRead → OrderStore → OrderStore × Option Bytes
  handle_frame (got kind [] rest) s = (s, none)
  handle_frame (got kind (method ∷ body) rest) s =
      let reply = dispatch method body s in if kind == frame_message then reply else (s, none)
  handle_frame cut s = (s, none)
  handle_frame too_large s = (s, none)

  unfoldable pub handle : Bytes → OrderStore → OrderStore × Option Bytes
  unfolding handle_frame
  handle sent s = handle_frame (read_frame sent) s

-- What a call of the client returns. `broken` is an error of the connection or the framing, and
-- `undecoded` one of `Unmarshal`.
pub data Reply : Type 0 where
  order : Order → Reply
  status : ℕ → Bytes → Reply
  malformed broken : Reply
  undecoded : Error → Reply

unfoldable pub decode_reply : Decoded → Reply
decode_reply (done o) = order o
decode_reply (failed e o) = undecoded e
decode_reply stuck = broken

-- The end of `call`, and the `Unmarshal` after it.
unfoldable pub read_reply : FrameRead → Reply
unfolding decode_reply
read_reply (got kind [] rest) =
    if kind == frame_error then malformed else decode_reply (unmarshal [])
read_reply (got kind (c ∷ body) rest) =
    if kind == frame_error then status c body else decode_reply (unmarshal (c ∷ body))
read_reply cut = broken
read_reply too_large = broken

unfoldable pub receive : Option Bytes → Reply
unfolding read_reply
receive none = broken
receive (some bytes) = read_reply (read_frame bytes)

unfoldable pub write_request : ℕ → Order → Bytes
write_request method req = write_frame frame_message (method ∷ marshal req)

-- `req.Tags = []string{idempotencyKey}`
unfoldable pub key_tags : Bytes → List Bytes
key_tags [] = []
key_tags (c ∷ key) = (c ∷ key) ∷ []

module _ (text : Reason → Bytes) where
  -- A call, over the connection to a server with this store.
  unfoldable pub call : ℕ → Order → OrderStore → OrderStore × Reply
  unfolding handle receive write_request
  call method req s =
      let (s', reply) = handle text (write_request method req) s in (s', receive reply)

  unfoldable pub client_get_order : ℤ → OrderStore → OrderStore × Reply
  client_get_order id s = call method_get_order (record empty_order { id = id }) s

  unfoldable pub client_create_order : Bytes → ℤ → Bytes → OrderStore → OrderStore × Reply
  unfolding key_tags
  client_create_order customer amount key s =
      call method_create_order
        (record empty_order { customer = customer; amount = amount; tags = key_tags key }) s
