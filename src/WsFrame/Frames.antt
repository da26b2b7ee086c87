-- ===== src/WsFrame/Frames.antt =====
-- Frame.ReadFrom and WriteTo: a header with its payload. A reader is the bytes it still gives.
use go_gost_x.Prelude.{
  ◌∙◌, ap, ap₂, ℕ, ◌≡◌, refl, List, [], ◌∷◌, ◌++◌, pos, pos_part, length, take, drop,
}
use mathlib.Core.List.{append_assoc}
use go_gost_x.WsFrame.{FrameHeader, ReadError, Header, header, failed, read_from, write_to}
use go_gost_x.WsFrame.RoundTrip.{IsEncodable, counted, read_from-write_to}

pub record Frame : Type 0 where
  pub head : FrameHeader
  pub payload : List ℕ

-- A frame with the count and the bytes after it, or an error with the count.
pub data FrameRead : Type 0 where
  frame : ℕ → Frame → List ℕ → FrameRead
  broken : ℕ → ReadError → FrameRead

-- The LimitReader on what follows the header. Its payload is what it gives when it is read to the
-- end; a connection that ends early gives fewer bytes and no error.
abbrev with_payload : Header → FrameRead
with_payload (header n h r) =
    let k = pos_part h.payload_length in
    frame n (record { head = h; payload = take k r }) (drop k r)
with_payload (failed n e) = broken n e

-- ReadFrom of a frame.
unfoldable pub read_frame : ℕ → List ℕ → FrameRead
read_frame key bs = with_payload (read_from key bs)

-- The bytes of WriteTo.
unfoldable pub write_frame : Frame → List ℕ
write_frame f = write_to f.head ++ f.payload

-- The payload has the length that the header says, and the header has the wire's sizes.
pub record IsWhole (f : Frame) : Type 0 where
  pub head : IsEncodable f.head
  pub size : f.head.payload_length ≡ pos (length f.payload)

take-length_append : {A : Type 0} (xs ys : List A) → take (length xs) (xs ++ ys) ≡ xs
take-length_append [] ys = refl
take-length_append (x ∷ xs) ys = rw (take-length_append xs ys)

drop-length_append : {A : Type 0} (xs ys : List A) → drop (length xs) (xs ++ ys) ≡ ys
drop-length_append [] ys = refl
drop-length_append (x ∷ xs) ys = drop-length_append xs ys

-- Reading what WriteTo wrote of a whole frame gives the frame, and leaves what follows it.
pub read_frame-write_frame :
    (f : Frame) (rest : List ℕ)
    → IsWhole f
    → read_frame 0 (write_frame f ++ rest) ≡ frame (counted f.head) f rest
unfolding read_frame write_frame
read_frame-write_frame f rest w =
    ap (λ bs. with_payload (read_from 0 bs)) (append_assoc (write_to f.head) f.payload rest)
    ∙ (ap with_payload (read_from-write_to f.head (f.payload ++ rest) w.head)
        ∙ (ap
              (λ k.
                frame (counted f.head)
                  (record { head = f.head; payload = take k (f.payload ++ rest) })
                  (drop k (f.payload ++ rest)))
              (ap pos_part w.size)
            ∙ ap₂ (λ x y. frame (counted f.head) (record { head = f.head; payload = x }) y)
                (take-length_append f.payload rest) (drop-length_append f.payload rest)))
