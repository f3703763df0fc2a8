-- ===== src/Net/Tests.antt =====
-- Runs of src/net.rs as modelled: a frame, a message in two fragments, and a router with one route. Any
-- bytes are taken for valid UTF-8.
use mux_runtime.Common.{
  ℕ, ◌≡◌, refl, arith, Bool, true, false, none, some, List, [], ◌∷◌, get_elem?, ok,
}
use mux_runtime.Common.Int.{pos}
use mux_runtime.Common.Text.{split_at}
use mux_runtime.Net.WebSocket.{
  Frame, Framed, Key, mask_from, validate_opcode, validate_contents, validate_frame, length_field,
  encode_body, encode_frame, decode_frame, read_length, read_payload, checked_size, checked_frame,
}
use mux_runtime.Net.WebSocket.RoundTrip.{decode_frame-encode_frame}
use mux_runtime.Net.WebSocket.Assembly.{
  validate_all, append_data, append_fragment, fragment_loop, assemble, reassemble,
}
use mux_runtime.Net.WebSocket.Assembly.Sound.{IsMessage, data_of, reassemble-IsMessage}
use mux_runtime.Net.WebSocket.Session.{Socket, read_frame, read_message}
use mux_runtime.Net.WebSocket.Session.Wire.{read_frame-encode_frame}
use mux_runtime.Net.WebSocket.Session.Ends.{read_message-ends}
use mux_runtime.Net.Route.{
  parameter, route_path_segments, strip_dots, valid_route_capture_name, compile_capture,
  compile_segment, compile_loop, compile_http_route,
}
use mux_runtime.Net.Route.Match.{
  Route, http_route_match, match_loop, eqb_specificity, any_ambiguous, is_http_token, add_route,
  choose_from,
}
use mux_runtime.Net.Route.Choice.{Yields, Stands, choose_from-best}
use mux_runtime.Net.Route.Ties.{Registered, start, later, no_tie}

abbrev any_text : List ℕ → Bool
any_text bs = true

abbrev ping : Frame
ping = record { fin = true; opcode = pos 9; payload = 104 ∷ 105 ∷ []; masked = true }

abbrev key : Key
key = record { byte0 = 1; byte1 = 2; byte2 = 3; byte3 = 4 }

decode_frame-encode_frame_example :
    decode_frame any_text (137 ∷ 130 ∷ 1 ∷ 2 ∷ 3 ∷ 4 ∷ 105 ∷ 107 ∷ []) ≡ ok ping
unfolding encode_frame validate_frame validate_opcode validate_contents encode_body mask_from
    length_field
decode_frame-encode_frame_example =
    decode_frame-encode_frame any_text (some key) ping (137 ∷ 130 ∷ 1 ∷ 2 ∷ 3 ∷ 4 ∷ 105 ∷ 107 ∷ [])
      refl

-- a length of one in eight bytes is taken, which the encoder writes in one
wide_length_test :
    decode_frame any_text (130 ∷ 127 ∷ 0 ∷ 0 ∷ 0 ∷ 0 ∷ 0 ∷ 0 ∷ 0 ∷ 1 ∷ 42 ∷ [])
    ≡ ok (record { fin = true; opcode = pos 2; payload = 42 ∷ []; masked = false })
unfolding decode_frame validate_opcode read_length checked_size read_payload checked_frame
    validate_frame validate_contents
wide_length_test = refl

abbrev first_half : Frame
first_half = record { fin = false; opcode = pos 2; payload = 1 ∷ []; masked = false }

abbrev second_half : Frame
second_half = record { fin = true; opcode = pos 0; payload = 2 ∷ []; masked = false }

abbrev message : Frame
message = record { fin = true; opcode = pos 2; payload = 1 ∷ 2 ∷ []; masked = false }

reassemble-IsMessage_example :
    IsMessage first_half (data_of (first_half ∷ second_half ∷ [])) message
unfolding reassemble validate_all assemble fragment_loop append_fragment append_data checked_frame
    validate_frame validate_opcode validate_contents
reassemble-IsMessage_example =
    reassemble-IsMessage any_text first_half (second_half ∷ []) message refl

abbrev socket : Socket
socket = record { input = 137 ∷ 130 ∷ 1 ∷ 2 ∷ 3 ∷ 4 ∷ 105 ∷ 107 ∷ []; output = []; writable = true }

read_message-ends_example :
    (r : Framed (Frame × Socket)) × (read_message any_text 9 socket none ≡ some r)
read_message-ends_example = read_message-ends any_text 9 socket none (omega arith)

-- `GET` at `/{x}`
abbrev one_route : Route
one_route = record {
  method = 71 ∷ 69 ∷ 84 ∷ [];
  segments = parameter (120 ∷ []) ∷ [];
  specificity = 1 ∷ 3 ∷ [];
  handler = 5;
}

choose_from-best_example :
    Stands
      (71 ∷ 69 ∷ 84 ∷ [])
      ((97 ∷ []) ∷ [])
      0
      (one_route ∷ [])
      (choose_from (71 ∷ 69 ∷ 84 ∷ []) ((97 ∷ []) ∷ []) 0 (one_route ∷ []) none)
    × ((j : ℕ) (route : Route)
        → get_elem? (one_route ∷ []) j ≡ some route
        → Yields
            (71 ∷ 69 ∷ 84 ∷ [])
            ((97 ∷ []) ∷ [])
            route
            (choose_from (71 ∷ 69 ∷ 84 ∷ []) ((97 ∷ []) ∷ []) 0 (one_route ∷ []) none))
choose_from-best_example = choose_from-best (71 ∷ 69 ∷ 84 ∷ []) ((97 ∷ []) ∷ []) (one_route ∷ [])

one_route-Registered : Registered any_text (one_route ∷ [])
unfolding add_route is_http_token compile_http_route route_path_segments split_at compile_loop
    compile_segment compile_capture strip_dots valid_route_capture_name any_ambiguous
one_route-Registered = later (103 ∷ 101 ∷ 116 ∷ []) (47 ∷ 123 ∷ 120 ∷ 125 ∷ []) (some 5) start refl

abbrev place : ℕ
place = 0

no_tie_example : place ≡ place
unfolding http_route_match match_loop eqb_specificity
no_tie_example =
    no_tie any_text (71 ∷ 69 ∷ 84 ∷ []) ((97 ∷ []) ∷ []) 0 0 one_route one_route _ _
      one_route-Registered refl refl (refl, refl) (refl, refl) refl

read_frame-encode_frame_example :
    read_frame any_text (137 ∷ 130 ∷ 1 ∷ 2 ∷ 3 ∷ 4 ∷ 105 ∷ 107 ∷ 7 ∷ [])
    ≡ ok (record ping { masked = false }, 7 ∷ [])
unfolding encode_frame validate_frame validate_opcode validate_contents encode_body mask_from
    length_field
read_frame-encode_frame_example =
    read_frame-encode_frame any_text (some key) ping (137 ∷ 130 ∷ 1 ∷ 2 ∷ 3 ∷ 4 ∷ 105 ∷ 107 ∷ [])
      (7 ∷ []) refl refl
