-- ===== src/Grpc/Examples.antt =====
-- code/grpc_example/: the messages of the tests.
use system_design_handbook.Base.{◌-◌, ◌++◌, length, arith, ◌≢◌, ◌≡◌, refl, [], ◌∷◌, lt_wf, dec_lt}
use system_design_handbook.Bytes.{Bytes}
use system_design_handbook.Int.{pos, negsuc}
use system_design_handbook.Grpc.Varint.{
  u64_mod, ok, varint_loop, append_varint, consume_loop, consume_varint, digits_within, len64,
  varint_size, zig_zag, un_zig_zag, to_u64, to_i64,
}
use system_design_handbook.Grpc.Fields.{
  wire_bytes, append_tag, consume_tag, append_int64, append_string, consume_bytes, skip_value,
}
use system_design_handbook.Grpc.Unknown.{Unknown, no_field, unknown_field}
use system_design_handbook.Grpc.RoundTrip.{not_empty, IsEncodable, unmarshal-marshal}
use system_design_handbook.Grpc.Kept.{unmarshal-marshal-unmarshal}
use system_design_handbook.Grpc.Runs.{unmarshal-append, unmarshal-ne-stuck}
use system_design_handbook.Grpc.Sizes.{varint_size-length}
use system_design_handbook.Grpc.Message.{
  Order, stuck, store_varint, store_bytes, keep_raw, append_tags, marshal, decode_value,
  decode_field, done, unmarshal_loop, unmarshal,
}

program : Unit {0}
unfolding dec_lt lt_wf varint_loop append_varint consume_loop consume_varint digits_within len64
    varint_size zig_zag un_zig_zag to_u64 to_i64 append_tag consume_tag append_int64 append_string
    consume_bytes skip_value append_tags marshal store_varint store_bytes keep_raw decode_value
    decode_field unmarshal_loop unmarshal
program = tt

varint_300 : append_varint [] 300 ≡ 0xac ∷ 0x02 ∷ []
unfolding program
varint_300 = refl

abbrev order : Order
order = record {
  id = pos 42;
  customer = 97 ∷ 99 ∷ [];
  amount = negsuc 0;
  status = pos 2;
  tags = (120 ∷ []) ∷ (121 ∷ []) ∷ [];
  unknown_fields = [];
}

-- Field 9 holds "hi".
abbrev future : Bytes
future = 0x4a ∷ 2 ∷ 104 ∷ 105 ∷ []

future-Unknown : Unknown future
unfolding program
future-Unknown = unknown_field future 9 wire_bytes 1 3 refl refl refl no_field

abbrev newer : Order
newer = record order { unknown_fields = future }

newer-IsEncodable : IsEncodable newer
newer-IsEncodable = record {
  id = omega arith;
  customer = omega arith;
  amount = omega arith;
  status = omega arith;
  tags = (omega arith, (omega arith, tt));
  unknown_fields = future-Unknown;
}

unmarshal-marshal_example :
    unmarshal (marshal newer) ≡ done (record newer { tags = not_empty newer.tags })
unmarshal-marshal_example = unmarshal-marshal newer newer-IsEncodable

-- The order in the order of its fields turned round, with an empty tag that was received.
abbrev received : Bytes
received = 0x4a ∷ 2 ∷ 104 ∷ 105 ∷ 0x2a ∷ 0 ∷ 0x2a ∷ 1 ∷ 120 ∷ 8 ∷ 42 ∷ []

abbrev received_order : Order
received_order = record {
  id = pos 42;
  customer = [];
  amount = pos 0;
  status = pos 0;
  tags = [] ∷ (120 ∷ []) ∷ [];
  unknown_fields = future;
}

received_lem : unmarshal received ≡ done received_order
unfolding program
received_lem = refl

unmarshal-marshal-unmarshal_example :
    unmarshal (marshal received_order)
    ≡ done (record received_order { tags = not_empty received_order.tags })
unmarshal-marshal-unmarshal_example =
    unmarshal-marshal-unmarshal received received_order (omega arith) received_lem

unmarshal-append_example : unmarshal (received ++ future) ≡ unmarshal_loop 4 future received_order
unmarshal-append_example = unmarshal-append received future received_order received_lem

unmarshal-ne-stuck_example : unmarshal (0x2a ∷ 5 ∷ 1 ∷ []) ≢ stuck
unmarshal-ne-stuck_example = unmarshal-ne-stuck (0x2a ∷ 5 ∷ 1 ∷ [])

varint_size-length_example : varint_size 300 ≡ length (append_varint [] 300)
varint_size-length_example = varint_size-length 300 (omega arith)

-- The tenth byte's upper digits are lost, with no error.
wide :
    consume_varint (255 ∷ 255 ∷ 255 ∷ 255 ∷ 255 ∷ 255 ∷ 255 ∷ 255 ∷ 255 ∷ 127 ∷ [])
    ≡ ok (u64_mod - 1, 10)
unfolding program
wide = refl

-- An empty tag is not written.
tag_lost :
    unmarshal (marshal (record order { tags = [] ∷ (121 ∷ []) ∷ [] }))
    ≡ done (record order { tags = (121 ∷ []) ∷ [] })
unfolding program
tag_lost = refl
