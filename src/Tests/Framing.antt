-- ===== src/Tests/Framing.antt =====
-- A masked frame of 200 bytes.
use go_gost_x.Prelude.{
  ℕ, zero, suc, ◌+◌, ◌≡◌, refl, List, [], ◌∷◌, ◌++◌, true, false, arith, pos, ltb_ℤ, length,
  if◌then◌else◌,
}
use go_gost_x.WsFrame.{FrameHeader, header, read_from, write_to, header_length}
use go_gost_x.WsFrame.RoundTrip.{IsEncodable, counted, read_from-count}
use go_gost_x.WsFrame.Frames.{Frame, frame, read_frame, write_frame, read_frame-write_frame}

abbrev zeros : ℕ → List ℕ
zeros zero = []
zeros (suc n) = 0 ∷ zeros n

abbrev head : FrameHeader
head = record {
  fin = true;
  rsv1 = false;
  rsv2 = true;
  rsv3 = false;
  op_code = 2;
  payload_length = pos 200;
  masked = true;
  mask_key = 305419896;
}

abbrev sent : Frame
sent = record { head = head; payload = zeros 200 }

head-IsEncodable : IsEncodable head
head-IsEncodable = record {
  op = omega arith;
  natural = omega arith;
  signed = omega arith;
  key = omega arith;
  unmasked = λ h. cc;
}

written : write_to head ≡ 162 ∷ 254 ∷ 0 ∷ 200 ∷ 120 ∷ 86 ∷ 52 ∷ 18 ∷ []
unfolding write_to
written = refl

read_frame-write_frame_example :
    read_frame 0 (write_frame sent ++ (1 ∷ 2 ∷ [])) ≡ frame (counted head) sent (1 ∷ 2 ∷ [])
read_frame-write_frame_example =
    read_frame-write_frame sent (1 ∷ 2 ∷ []) (record { head = head-IsEncodable; size = refl })

read_from-count_example :
    (n : ℕ) × (read_from 0 (write_to head ++ (7 ∷ [])) ≡ header n head (7 ∷ []))
    × (n + (if ltb_ℤ (pos 125) head.payload_length then 2 else 0) ≡ length (write_to head))
    × (length (write_to head) ≡ header_length head)
read_from-count_example = read_from-count head (7 ∷ []) head-IsEncodable
