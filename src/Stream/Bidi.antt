-- ===== src/Stream/Bidi.antt =====
-- handler.go: a call that streams messages both ways, its two goroutines taking turns.
--
-- `makeBidiStream` starts a goroutine that sends, and receives itself. A turn is one call of the reader
-- of the input, of the stream or of the context; a schedule is any list of turns. A call that blocks is
-- a turn that the schedule has not given yet, except for the wait for the goroutine, which is written
-- out. Waiting between messages and before closing takes time only.
pub mod Order
pub mod Errors
use yab.Prelude.{List, [], ◌∷◌, ◌⊎◌, inl, inr, Option, none, some, Text}
use yab.Stream.{
  Error, eof, Transport, StreamIo, send_stream_message, receive_stream_message, close_send_stream,
}

-- Where the sending goroutine is; `sender_ended` has what it leaves in `sendErr`.
pub data Sender : Type 0 where
  fetching closing : Sender
  sending_body : Text → Sender
  aborting : Error → Sender
  sender_ended : Option Error → Sender

-- Where `makeBidiStream` itself is.
pub data Receiver : Type 0 where
  receiving_body : Receiver
  handling : Text → Receiver
  canceling joining : Error → Receiver
  returned : Option Error → Receiver

pub record Bidi (S W : Type 0) : Type 0 where
  pub io : S
  pub stream : W
  pub sender : Sender
  pub receiver : Receiver

pub data Turn : Type 0 where
  of_sender of_receiver : Turn

abbrev pub start : {S W : Type 0} → S → W → Bidi S W
start s w = record { io = s; stream = w; sender = fetching; receiver = receiving_body }

-- An error counts unless it is `io.EOF`.
abbrev pub unless_eof : Option Error → Option Error → Option Error
unless_eof none rest = rest
unless_eof (some eof) rest = rest
unless_eof (some e) rest = some e

-- What `makeBidiStream` returns.
abbrev pub bidi_result : Option Error → Option Error → Option Error
bidi_result send_err receive_err = unless_eof send_err (unless_eof receive_err none)

abbrev pub fetched : Error ⊎ Text → Sender
fetched (inr body) = sending_body body
fetched (inl eof) = closing
fetched (inl e) = aborting e

abbrev pub sent : Option Error → Sender
sent none = fetching
sent (some e) = sender_ended (some e)

abbrev pub answered : Error ⊎ Text → Receiver
answered (inr body) = handling body
answered (inl e) = canceling e

abbrev pub handled : Option Error → Receiver
handled none = receiving_body
handled (some e) = canceling e

-- `wg.Wait`: nothing happens until the goroutine has ended.
abbrev pub joined : Error → Sender → Receiver
joined e (sender_ended send_err) = returned (bidi_result send_err (some e))
joined e _ = joining e

module _ {S W : Type 0} (io : StreamIo S) (tr : Transport W) (cancel : W → W) where
  unfoldable pub sender_turn : Sender → Bidi S W → Bidi S W
  sender_turn fetching b =
      let a = io.next_request b.io in record b { io = a.0; sender = fetched a.1 }
  sender_turn (sending_body body) b =
      let a = send_stream_message io tr body b.stream in
      record b { stream = a.0; sender = sent a.1 }
  sender_turn closing b =
      let a = close_send_stream io tr b.stream in
      record b { stream = a.0; sender = sender_ended a.1 }
  sender_turn (aborting e) b = record b { stream = cancel b.stream; sender = sender_ended (some e) }
  sender_turn (sender_ended e) b = b

  unfoldable pub receiver_turn : Receiver → Bidi S W → Bidi S W
  receiver_turn receiving_body b =
      let a = receive_stream_message io tr b.stream in
      record b { stream = a.0; receiver = answered a.1 }
  receiver_turn (handling body) b =
      let a = io.handle_response body b.io in record b { io = a.0; receiver = handled a.1 }
  receiver_turn (canceling e) b = record b { stream = cancel b.stream; receiver = joining e }
  receiver_turn (joining e) b = record b { receiver = joined e b.sender }
  receiver_turn (returned e) b = b

  unfoldable pub turn : Turn → Bidi S W → Bidi S W
  unfolding sender_turn receiver_turn
  turn of_sender b = sender_turn b.sender b
  turn of_receiver b = receiver_turn b.receiver b

  -- `makeBidiStream`, from the state `b` on, under a schedule.
  unfoldable pub make_bidi_stream : List Turn → Bidi S W → Bidi S W
  unfolding turn
  make_bidi_stream [] b = b
  make_bidi_stream (t ∷ ts) b = make_bidi_stream ts (turn t b)
