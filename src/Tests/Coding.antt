-- ===== src/Tests/Coding.antt =====
-- tinyPB_coder.cpp at concrete messages and buffers.
use rpc4grad.Prelude.{
  ◌+◌, ◌*◌, ◌≡◌, refl, arith, none, some, [], ◌∷◌, ◌++◌, map, length, replicate, ok,
}
use rpc4grad.Prelude.Slices.{slice, blit}
use rpc4grad.Prelude.Bytes.{net_bytes}
use rpc4grad.Buffer.{
  TcpBuffer, IsValid, contents, new_buffer, write_to_buffer, make_room, put_bytes,
}
use rpc4grad.Buffer.Contents.{new_buffer-IsValid}
use rpc4grad.Coder.Protocol.{TinyPb, pb_end}
use rpc4grad.Coder.Encode.{frame, with_msg_id, stamped, encode_tiny_pb, encode}
use rpc4grad.Coder.Decode.{decode_round, decode}
use rpc4grad.Coder.Parse.{received}
use rpc4grad.Prelude.{take}
use rpc4grad.Coder.Round.{stale, IsOpen, decode_round-frame, decode_round-error_text}
use rpc4grad.Coder.Stream.{frames, arrived, encode-appends, decode-frames}
use rpc4grad.Coder.Hang.{trap, decode-hangs}
use rpc4grad.Tests.Samples.{request, request-IsSendable, failure, failure-IsSendable, holding}

holding-frame : contents (holding (frame request)) ≡ frame request ++ []
unfolding contents slice frame net_bytes
holding-frame = refl

holding-IsOpen : IsOpen (holding (frame request))
unfolding frame net_bytes
holding-IsOpen = record {
  valid = record { ordered = omega arith; within = omega arith; sized = refl };
  open_end = omega arith;
  small = omega arith;
}

decode_round-frame_example :
    (b' : TcpBuffer) × (decode_round (holding (frame request))
      ≡ ok (some (some (received request request.pb_body), b')))
    × (contents b' ≡ [])
    × IsOpen b'
decode_round-frame_example =
    decode_round-frame request [] holding-IsOpen holding-frame request-IsSendable refl

decode-frames_example :
    (b' : TcpBuffer) × (decode 2 [] (holding (frame request))
      ≡ some (ok (arrived request ∷ [], b')))
    × (contents b' ≡ [])
    × IsOpen b'
decode-frames_example =
    decode-frames (request ∷ []) [] holding-IsOpen (request-IsSendable, refl, tt) holding-frame

failure-held : contents (holding (frame failure)) ≡ frame failure ++ []
unfolding contents slice frame net_bytes
failure-held = refl

failure-IsOpen : IsOpen (holding (frame failure))
unfolding frame net_bytes
failure-IsOpen = record {
  valid = record { ordered = omega arith; within = omega arith; sized = refl };
  open_end = omega arith;
  small = omega arith;
}

decode_round-error_text_example :
    (m' : TinyPb) × (b' : TcpBuffer) × (decode_round (holding (frame failure))
      ≡ ok (some (some m', b')))
    × (m'.err_info ≡ failure.err_info)
    × (m'.pb_body
        ≡ take (length failure.pb_body + 2 * length failure.err_info) (
            failure.pb_body ++ (net_bytes 1 ++ (pb_end ∷ ([] ++ stale (holding (frame failure)))))))
    × (length m'.pb_body ≡ length failure.pb_body + 2 * length failure.err_info)
decode_round-error_text_example =
    decode_round-error_text failure [] failure-IsOpen failure-held failure-IsSendable (omega arith)

trap-held : contents (holding trap) ≡ trap ++ []
unfolding contents slice
trap-held = refl

trap-IsOpen : IsOpen (holding trap)
trap-IsOpen = record {
  valid = record { ordered = omega arith; within = omega arith; sized = refl };
  open_end = omega arith;
  small = omega arith;
}

decode-hangs_example : decode 1000 [] (holding trap) ≡ none
decode-hangs_example = decode-hangs 1000 [] [] trap-IsOpen trap-held

-- The out buffer of a connection after one message.
abbrev pub after_request : TcpBuffer
after_request = record {
  read_index = 0;
  write_index = 33;
  size = 128;
  buffer = frame request ++ replicate 95 0;
}

pub encoded :
    encode (request ∷ []) (new_buffer 128) ≡ ok (stamped (with_msg_id request) ∷ [], after_request)
unfolding encode encode_tiny_pb with_msg_id stamped frame net_bytes write_to_buffer make_room
    put_bytes new_buffer blit slice
encoded = refl

encode-appends_example :
    (contents after_request ≡ contents (new_buffer 128) ++ frames (map with_msg_id (request ∷ [])))
    × IsValid after_request
encode-appends_example = encode-appends (request ∷ []) (new_buffer-IsValid 128) encoded
