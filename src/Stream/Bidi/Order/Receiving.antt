-- ===== src/Stream/Bidi/Order/Receiving.antt =====
-- The turns of the receiver, and all turns, keep what holds of a bidirectional call of a benchmark.
use yab.Prelude.{List, [], ◌∷◌, ◌++◌, Option, none, some, ◌≡◌, refl, sym, ap, ◌∙◌, Text, append-nil}
use yab.Stream.{
  Error, Received, message, Transport, unreadable, no_message, at_end, fault, received,
  benchmark_handle_response, StreamIoBenchmark, new_stream_io_benchmark, benchmark_io,
}
use yab.Stream.Bidi.{
  Sender, fetching, closing, sending_body, aborting, sender_ended, Receiver, receiving_body,
  handling, canceling, joining, returned, Bidi, Turn, answered, handled, joined, of_sender,
  of_receiver, start, receiver_turn, turn, make_bidi_stream,
}
use yab.Stream.Bidi.Errors.{HasFailed, bidi_result-IsResult}
use yab.Stream.Bidi.Order.{
  Recorded, arrived, recording, cancel_under, fresh, InOrder, Kept, Joined, Sound, by_sender,
  by_receiver, by_sender-Sound,
}

module _ {W : Type 0} (tr : Transport W) (cancel : W → W) (rs : List Text) where
  handled-Kept :
      (e : Option Error) (responses back : List Text)
      → responses ≡ back
      → Kept (handled e) responses back
  unfolding Kept
  handled-Kept none responses back same = same
  handled-Kept (some e) responses back same = same

  joined-Kept :
      (e : Error) (s : Sender) (responses back : List Text)
      → responses ≡ back
      → Kept (joined e s) responses back
  unfolding Kept
  joined-Kept e (sender_ended f) responses back same = same
  joined-Kept e fetching responses back same = same
  joined-Kept e closing responses back same = same
  joined-Kept e (sending_body t) responses back same = same
  joined-Kept e (aborting f) responses back same = same

  joined-Joined :
      (e : Error) (s : Sender) (heard : Option Received)
      → HasFailed heard e
      → Joined (joined e s) s heard
  unfolding Joined
  joined-Joined e (sender_ended f) heard h = (f, e, refl, bidi_result-IsResult f e, h)
  joined-Joined e fetching heard h = h
  joined-Joined e closing heard h = h
  joined-Joined e (sending_body t) heard h = h
  joined-Joined e (aborting f) heard h = h

  answered-Sound :
      (io : StreamIoBenchmark) (w : Recorded W) (s : Sender) (under : W) (m : Received)
      → Sound rs (record { io = io; stream = w; sender = s; receiver = receiving_body })
      → Sound rs (record {
        io = io;
        stream = record w { under = under; back = w.back ++ arrived m; heard = some m };
        sender = s;
        receiver = answered (received m);
      })
  unfolding Kept Joined
  answered-Sound io w s under (message t) (same, order, kept, j, told) =
      (same, order, ap (λ l. l ++ t ∷ []) kept, tt, told)
  answered-Sound io w s under (unreadable t) (same, order, kept, j, told) =
      (same, order, kept ∙ sym (append-nil w.back), refl, told)
  answered-Sound io w s under (no_message at_end) (same, order, kept, j, told) =
      (same, order, kept ∙ sym (append-nil w.back), refl, told)
  answered-Sound io w s under (no_message (fault t)) (same, order, kept, j, told) =
      (same, order, kept ∙ sym (append-nil w.back), refl, told)

  pub by_receiver-Sound :
      (r : Receiver) (io : StreamIoBenchmark) (w : Recorded W) (s : Sender)
      → Sound rs (record { io = io; stream = w; sender = s; receiver = r })
      → Sound rs (by_receiver tr cancel (record { io = io; stream = w; sender = s; receiver = r }))
  unfolding receiver_turn Kept Joined benchmark_handle_response
  by_receiver-Sound receiving_body io w s v =
      answered-Sound io w s (tr.receive w.under).0 (tr.receive w.under).1 v
  by_receiver-Sound (handling t) io w s (same, order, kept, j, told) = (same, order, kept, tt, told)
  by_receiver-Sound (canceling e) io w s (same, order, kept, j, told) = (same, order, kept, j, told)
  by_receiver-Sound (joining e) io w s (same, order, kept, j, told) = (
    same,
    order,
    joined-Kept e s io.stream_responses w.back kept,
    joined-Joined e s w.heard j,
    told,
  )
  by_receiver-Sound (returned e) io w s v = v

  pub make_bidi_stream-Sound :
      (ts : List Turn) (b : Bidi StreamIoBenchmark (Recorded W))
      → Sound rs b
      → Sound rs (make_bidi_stream benchmark_io (recording tr) (cancel_under cancel) ts b)
  unfolding make_bidi_stream turn
  make_bidi_stream-Sound [] b v = v
  make_bidi_stream-Sound (of_sender ∷ ts) b v =
      make_bidi_stream-Sound ts (by_sender tr cancel b)
        (by_sender-Sound tr cancel rs b.sender b.io b.stream b.receiver v)
  make_bidi_stream-Sound (of_receiver ∷ ts) b v =
      make_bidi_stream-Sound ts (by_receiver tr cancel b)
        (by_receiver-Sound b.receiver b.io b.stream b.sender v)

  pub start-Sound : (w : W) → Sound rs (start (new_stream_io_benchmark rs) (fresh w))
  unfolding InOrder Kept Joined
  start-Sound w = (refl, (rs, refl, refl), refl, tt, refl)
